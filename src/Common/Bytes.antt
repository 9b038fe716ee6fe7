-- ===== src/Common/Bytes.antt =====
-- Byte slices and big-endian integers: `data[i]`, `data[a..b]`, `to_be_bytes`, `from_be_bytes`.
-- A byte is a number below 256. `none` is Rust's panic on an index out of range.
use kanrin.Common.{
  ap, ℕ, zero, suc, ◌+◌, ◌-◌, ◌*◌, ◌/◌, ◌%◌, ◌^◌, ◌≤◌, ◌<◌, ◌≡◌, refl, ◌&&◌, List, [], ◌∷◌, ◌++◌,
  Option, none, some, leb, if◌then◌else◌, arith, length, take, drop, length-append, take-append,
  drop-append, length-take, length-drop, All, All-append,
}
use native.Mathlib.Nat.{pow-suc, add-zero}

abbrev pub IsByte : ℕ → Type 0
IsByte b = b < 256

unfoldable pub get_elem? : List ℕ → ℕ → Option ℕ
get_elem? [] i = none
get_elem? (x ∷ xs) zero = some x
get_elem? (x ∷ xs) (suc i) = get_elem? xs i

-- `data[a..b]`
unfoldable pub slice? : ℕ → ℕ → List ℕ → Option (List ℕ)
slice? a b xs = if leb a b && leb b (length xs) then some (take (b - a) (drop a xs)) else none

pub get_elem?_total : (xs : List ℕ) (i : ℕ) → i < length xs → (x : ℕ) × (get_elem? xs i ≡ some x)
unfolding get_elem?
get_elem?_total [] i h = absurd (omega arith)
get_elem?_total (x ∷ xs) zero h = (x, refl)
get_elem?_total (x ∷ xs) (suc i) h = get_elem?_total xs i (omega arith)

pub slice?_total :
    (a b : ℕ) (xs : List ℕ)
    → a ≤ b
    → b ≤ length xs
    → (ys : List ℕ) × (slice? a b xs ≡ some ys) × (length ys ≡ b - a)
unfolding slice?
slice?_total a b xs h k = (
  take (b - a) (drop a xs),
  ground arith,
  length-take (b - a) (drop a xs) (omega (arith, length-drop a xs)),
)

-- What stands behind a prefix of known length.
pub get_elem?-append :
    (xs : List ℕ) (y : ℕ) (zs : List ℕ) (i : ℕ)
    → i ≡ length xs
    → get_elem? (xs ++ (y ∷ zs)) i ≡ some y
unfolding get_elem?
get_elem?-append [] y zs zero h = refl
get_elem?-append [] y zs (suc i) h = absurd (omega arith)
get_elem?-append (x ∷ xs) y zs zero h = absurd (omega arith)
get_elem?-append (x ∷ xs) y zs (suc i) h = get_elem?-append xs y zs i (omega arith)

pub slice?-append :
    (xs ys zs : List ℕ) (a b : ℕ)
    → a ≡ length xs
    → b ≡ a + length ys
    → slice? a b (xs ++ (ys ++ zs)) ≡ some ys
unfolding slice?
slice?-append xs ys zs a b h k =
    let inner : b - a ≡ length ys = omega arith in
    rw (k, h)
      (ground (
        arith,
        length-append xs (ys ++ zs),
        length-append ys zs,
        drop-append xs (ys ++ zs),
        take-append ys zs,
        inner,
      ))

-- `v.to_be_bytes()` of an unsigned integer of `w` bytes.
drop-behind : (xs ys : List ℕ) (a c : ℕ) → c ≡ length xs + a → drop c (xs ++ ys) ≡ drop a ys
drop-behind [] ys a c h = ap (λ n. drop n ys) (omega (arith, h))
drop-behind (x ∷ xs) ys a zero h = absurd (omega arith)
drop-behind (x ∷ xs) ys a (suc c) h = drop-behind xs ys a c (omega arith)

-- A slice that starts behind a prefix.
pub slice?-behind :
    (xs ys : List ℕ) (a b c d : ℕ)
    → c ≡ length xs + a
    → d ≡ length xs + b
    → slice? c d (xs ++ ys) ≡ slice? a b ys
unfolding slice?
slice?-behind xs ys a b c d h k =
    let width : d - c ≡ b - a = omega arith in
    ground (arith, width, length-append xs ys, drop-behind xs ys a c h)

unfoldable pub to_be : ℕ → ℕ → List ℕ
to_be zero v = []
to_be (suc w) v = to_be w (v / 256) ++ (v % 256 ∷ [])

of_be_from : ℕ → List ℕ → ℕ
of_be_from acc [] = acc
of_be_from acc (b ∷ bs) = of_be_from (acc * 256 + b) bs

-- `from_be_bytes`
unfoldable pub of_be : List ℕ → ℕ
unfolding of_be_from
of_be bs = of_be_from 0 bs

pub length-to_be : (w v : ℕ) → length (to_be w v) ≡ w
unfolding to_be
length-to_be zero v = refl
length-to_be (suc w) v =
    omega (arith, length-append (to_be w (v / 256)) (v % 256 ∷ []), length-to_be w (v / 256))

to_be-IsByte : (w v : ℕ) → All IsByte (to_be w v)
unfolding to_be
to_be-IsByte zero v = tt
to_be-IsByte (suc w) v =
    All-append IsByte (to_be w (v / 256)) (v % 256 ∷ []) (to_be-IsByte w (v / 256)) (omega arith)

of_be_from-append :
    (acc : ℕ) (xs : List ℕ) (b : ℕ) → of_be_from acc (xs ++ (b ∷ [])) ≡ of_be_from acc xs * 256 + b
unfolding of_be_from
of_be_from-append acc [] b = refl
of_be_from-append acc (x ∷ xs) b = of_be_from-append (acc * 256 + x) xs b

-- Reading back what was written gives the integer, if it fits the width.
pub of_be-to_be : (w v : ℕ) → v < 256 ^ w → of_be (to_be w v) ≡ v
unfolding to_be of_be
of_be-to_be zero v h = omega arith
of_be-to_be (suc w) v h =
    let fits : v / 256 < 256 ^ w = omega (arith, pow-suc 256 w) in
    omega (arith, of_be_from-append 0 (to_be w (v / 256)) (v % 256), of_be-to_be w (v / 256) fits)

of_be_from-lt :
    (acc k : ℕ) (bs : List ℕ)
    → acc < 256 ^ k
    → All IsByte bs
    → of_be_from acc bs < 256 ^ (k + length bs)
unfolding of_be_from
of_be_from-lt acc k [] h hb = rw add-zero h
of_be_from-lt acc k (b ∷ bs) h hb =
    let shift : k + suc (length bs) ≡ suc k + length bs = omega arith in
    rw shift (of_be_from-lt (acc * 256 + b) (suc k) bs (omega (arith, pow-suc 256 k)) hb.1)

-- A slice of bytes holds bytes.
take-All : (P : ℕ → Type 0) (n : ℕ) (xs : List ℕ) → All P xs → All P (take n xs)
take-All P zero xs h = tt
take-All P (suc n) [] h = tt
take-All P (suc n) (x ∷ xs) h = (h.0, take-All P n xs h.1)

drop-All : (P : ℕ → Type 0) (n : ℕ) (xs : List ℕ) → All P xs → All P (drop n xs)
drop-All P zero xs h = h
drop-All P (suc n) [] h = tt
drop-All P (suc n) (x ∷ xs) h = drop-All P n xs h.1

-- One concatenation of two parts determines them, if the first part's length is known.
pub append_injective :
    (xs ys us vs : List ℕ) → length xs ≡ length ys → xs ++ us ≡ ys ++ vs → (xs ≡ ys) × (us ≡ vs)
append_injective [] [] us vs h e = (refl, e)
append_injective [] (y ∷ ys) us vs h e = absurd (omega arith)
append_injective (x ∷ xs) [] us vs h e = absurd (omega arith)
append_injective (x ∷ xs) (y ∷ ys) us vs h e = ground (arith, append_injective xs ys us vs)

-- ===== src/Protocol/Error/Words.antt =====
-- Reading a number of two bytes.
use kanrin.Common.{
  ℕ, ◌+◌, ◌/◌, ◌%◌, ◌<◌, ◌^◌, ◌≡◌, ◌≢◌, refl, List, [], ◌∷◌, ◌++◌, arith, length, length-append,
  append_assoc,
}
use kanrin.Common.Bytes.{to_be, of_be-to_be, get_elem?-append, get_elem?_total, of_be}
use kanrin.Protocol.Error.{Result, ok, panic, ◌>>=◌, read_u16}

-- What was written behind a prefix of known length is read back.
pub read_u16-append :
    (xs zs : List ℕ) (v i : ℕ)
    → v < 2 ^ 16
    → i ≡ length xs
    → read_u16 (xs ++ (to_be 2 v ++ zs)) i ≡ ok v
unfolding read_u16 to_be
read_u16-append xs zs v i fits place =
    let high : ℕ = v / 256 % 256 in
    let low : ℕ = v % 256 in
    let first = get_elem?-append xs high (low ∷ zs) i place in
    let second =
      get_elem?-append (xs ++ (high ∷ [])) low zs (i + 1)
        (omega (arith, length-append xs (high ∷ []))) in
    ground (arith, first, rw append_assoc at second, of_be-to_be 2 v fits)

pub read_u16_total : (xs : List ℕ) (i : ℕ) → i + 1 < length xs → (v : ℕ) × (read_u16 xs i ≡ ok v)
unfolding read_u16
read_u16_total xs i h =
    let (high, e) = get_elem?_total xs i (omega arith) in
    let (low, f) = get_elem?_total xs (i + 1) h in (of_be (high ∷ low ∷ []), rw (e, f) refl)

pub read_u16-then :
    {B : Type 0} (xs : List ℕ) (i : ℕ) (f : ℕ → Result B)
    → i + 1 < length xs
    → ((x : ℕ) → f x ≢ panic)
    → (read_u16 xs i >>= f) ≢ panic
read_u16-then xs i f h k = let (v, e) = read_u16_total xs i h in rw e (k v)

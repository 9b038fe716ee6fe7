-- ===== src/Common/Utf8.antt =====
-- Rust strings as their UTF-8 bytes. `from_utf8_lossy` replaces each maximal ill-formed piece by
-- U+FFFD, as the core library documents.
use kanrin.Common.{
  ℕ, zero, suc, ◌≡◌, refl, ap, ◌∙◌, Bool, true, false, ◌&&◌, List, [], ◌∷◌, ◌++◌, ltb, leb, ◌==◌,
  if◌then◌else◌, append_assoc, Bool-cases, inl, inr,
}

-- What the decoder waits for: nothing, or `left + 1` more bytes of a sequence whose bytes so far are
-- `held`, the next of them between `lo` and `hi`.
pub data Want : Type 0 where
  start : Want
  more : (left lo hi : ℕ) (held : List ℕ) → Want

-- What a first byte asks for (the table of well-formed UTF-8 sequences). `invalid` starts none.
pub data Lead : Type 0 where
  single invalid : Lead
  opens : (left lo hi : ℕ) → Lead

between : ℕ → ℕ → ℕ → Bool
between lo hi b = leb lo b && leb b hi

lead : ℕ → Lead
lead b =
    if ltb b 0x80
    then single
    else if between 0xc2 0xdf b
    then opens 0 0x80 0xbf
    else if b == 0xe0
    then opens 1 0xa0 0xbf
    else if b == 0xed
    then opens 1 0x80 0x9f
    else if between 0xe1 0xef b
    then opens 1 0x80 0xbf
    else if b == 0xf0
    then opens 2 0x90 0xbf
    else if b == 0xf4
    then opens 2 0x80 0x8f
    else if between 0xf1 0xf3 b
    then opens 2 0x80 0xbf
    else invalid

abbrev replacement : List ℕ
replacement = 0xef ∷ 0xbf ∷ 0xbd ∷ []

-- The text that a byte completes, and what is waited for behind it.
begin : Lead → ℕ → List ℕ × Want
begin single b = (b ∷ [], start)
begin invalid b = (replacement, start)
begin (opens left lo hi) b = ([], more left lo hi (b ∷ []))

continue : ℕ → List ℕ → List ℕ × Want
continue zero held = (held, start)
continue (suc left) held = ([], more left 0x80 0xbf held)

abort : List ℕ × Want → List ℕ × Want
abort (out, w) = (replacement ++ out, w)

step : Want → ℕ → List ℕ × Want
unfolding lead begin continue abort between
step start b = begin (lead b) b
step (more left lo hi held) b =
    if between lo hi b then continue left (held ++ (b ∷ [])) else abort (begin (lead b) b)

lossy_from : Want → List ℕ → List ℕ
unfolding step
lossy_from start [] = []
lossy_from (more left lo hi held) [] = replacement
lossy_from w (b ∷ bs) = (step w b).0 ++ lossy_from (step w b).1 bs

-- `String::from_utf8_lossy`
pub from_utf8_lossy : List ℕ → List ℕ
unfolding lossy_from
from_utf8_lossy bs = lossy_from start bs

-- Well-formed UTF-8, by the same table.
starts : Lead → Bool
starts single = true
starts invalid = false
starts (opens left lo hi) = true

accepts : Want → ℕ → Bool
unfolding lead between starts
accepts start b = starts (lead b)
accepts (more left lo hi held) b = between lo hi b

valid_from : Want → List ℕ → Bool
unfolding step accepts
valid_from start [] = true
valid_from (more left lo hi held) [] = false
valid_from w (b ∷ bs) = accepts w b && valid_from (step w b).1 bs

unfoldable pub is_utf8 : List ℕ → Bool
unfolding valid_from
is_utf8 bs = valid_from start bs

-- A Rust `String` is valid UTF-8.
abbrev pub IsUtf8 : List ℕ → Type 0
IsUtf8 bs = is_utf8 bs ≡ true

held_of : Want → List ℕ
held_of start = []
held_of (more left lo hi held) = held

-- What the lossy decoder does on the bytes behind a state, the state's own bytes in front.
abbrev Keeps : List ℕ → Type 0
Keeps bs = (w : Want) → valid_from w bs ≡ true → lossy_from w bs ≡ held_of w ++ bs

begin-valid :
    (l : Lead) (b : ℕ) (bs : List ℕ)
    → Keeps bs
    → (starts l && valid_from (begin l b).1 bs) ≡ true
    → (begin l b).0 ++ lossy_from (begin l b).1 bs ≡ b ∷ bs
unfolding begin starts held_of
begin-valid single b bs ih h = ap (◌∷◌ b) (ih start h)
begin-valid invalid b bs ih h = cc
begin-valid (opens left lo hi) b bs ih h = ih (more left lo hi (b ∷ [])) h

continue-valid :
    (left : ℕ) (held : List ℕ) (b : ℕ) (bs : List ℕ)
    → Keeps bs
    → valid_from (continue left (held ++ (b ∷ []))).1 bs ≡ true
    → (continue left (held ++ (b ∷ []))).0 ++ lossy_from (continue left (held ++ (b ∷ []))).1 bs
      ≡ held ++ (b ∷ bs)
unfolding continue held_of
continue-valid zero held b bs ih h = rw (ih start h) (append_assoc held (b ∷ []) bs)
continue-valid (suc left) held b bs ih h =
    ih (more left 0x80 0xbf (held ++ (b ∷ []))) h ∙ append_assoc held (b ∷ []) bs

lossy_from-valid :
    (w : Want) (bs : List ℕ) → valid_from w bs ≡ true → lossy_from w bs ≡ held_of w ++ bs
unfolding lossy_from valid_from held_of
lossy_from-valid start [] h = refl
lossy_from-valid (more left lo hi held) [] h = cc
lossy_from-valid start (b ∷ bs) h = begin-valid (lead b) b bs (λ w. lossy_from-valid w bs) h
lossy_from-valid (more left lo hi held) (b ∷ bs) h = elim (Bool-cases (between lo hi b)) [
  | inl y ↦ rw y (continue-valid left held b bs (λ w. lossy_from-valid w bs) (rw y at h))
  | inr n ↦ absurd (let e : false ≡ true = rw n at h in cc)
]

-- On a string the lossy conversion changes nothing.
pub from_utf8_lossy_valid : (bs : List ℕ) → IsUtf8 bs → from_utf8_lossy bs ≡ bs
unfolding from_utf8_lossy is_utf8 held_of
from_utf8_lossy_valid bs h = lossy_from-valid start bs h

-- ===== src/Stealth/Fragment/Whole.antt =====
-- Fragments are the message, cut.
use kanrin.Common.{
  ℕ, zero, suc, ◌+◌, ◌-◌, ◌≤◌, ◌<◌, ◌≡◌, refl, ap, sym, ◌∙◌, List, [], ◌∷◌, ◌++◌, append-nil, some,
  min, ltb, All, arith, length, take, drop, length-take, length-drop, Bool-cases, inl, inr,
}
use kanrin.Common.Bytes.{slice?}
use kanrin.Protocol.Error.{ok}
use kanrin.Stealth.Fragment.{fragment_from, fragment}

-- The fragments put together again.
pub joined : List (List ℕ) → List ℕ
joined [] = []
joined (f ∷ fs) = f ++ joined fs

-- A fragment has at least one byte and at most `largest`.
abbrev pub IsFragment : (largest : ℕ) → List ℕ → Type 0
IsFragment largest f = (0 < length f) × (length f ≤ largest)

drop_past : (n : ℕ) (xs : List ℕ) → length xs ≤ n → drop n xs ≡ []
drop_past zero [] h = refl
drop_past zero (x ∷ xs) h = absurd (omega arith)
drop_past (suc n) [] h = refl
drop_past (suc n) (x ∷ xs) h = drop_past n xs (omega arith)

take_nil : (n : ℕ) → take {A = ℕ} n [] ≡ []
take_nil zero = refl
take_nil (suc n) = refl

take-drop-drop : (a b : ℕ) (xs : List ℕ) → a ≤ b → take (b - a) (drop a xs) ++ drop b xs ≡ drop a xs
take-drop-drop zero b xs h = rw (minus_zero b) (go b xs)
  where
    minus_zero : (b : ℕ) → b - 0 ≡ b
    minus_zero b = omega arith

    go : (b : ℕ) (xs : List ℕ) → take b xs ++ drop b xs ≡ xs
    go zero xs = refl
    go (suc b) [] = refl
    go (suc b) (x ∷ xs) = ap (◌∷◌ x) (go b xs)
take-drop-drop (suc a) zero xs h = absurd (omega arith)
take-drop-drop (suc a) (suc b) [] h =
    append-nil (take (suc b - suc a) []) ∙ take_nil (suc b - suc a)
take-drop-drop (suc a) (suc b) (x ∷ xs) h =
    let shorter : suc b - suc a ≡ b - a = omega arith in
    rw shorter (take-drop-drop a b xs (omega arith))

slice?-take :
    (a b : ℕ) (xs : List ℕ)
    → a < b
    → b ≤ length xs
    → slice? a b xs ≡ some (take (b - a) (drop a xs))
unfolding slice?
slice?-take a b xs h k = ground arith

module _ (draw : ℕ → ℕ) (largest : ℕ) (drawn : (k : ℕ) → (0 < draw k) × (draw k ≤ largest)) where
  fragment_from_whole :
      (fuel count offset : ℕ) (bytes : List ℕ)
      → offset ≤ length bytes
      → length bytes ≤ offset + fuel
      → (fs : List (List ℕ)) × (fragment_from fuel draw count offset bytes ≡ ok (some fs))
        × (joined fs ≡ drop offset bytes)
        × All (IsFragment largest) fs
  unfolding fragment_from joined
  fragment_from_whole zero count offset bytes inside enough =
      ([], ground arith, sym (drop_past offset bytes (omega arith)), tt)
  fragment_from_whole (suc fuel) count offset bytes inside enough =
      elim (Bool-cases (ltb offset (length bytes))) [
        | inr over ↦ ([], ground (arith, over), sym (drop_past offset bytes (ground arith)), tt)
        | inl more ↦
            let end = min (offset + draw count) (length bytes) in
            let far : (offset < end) × (end ≤ length bytes) × (end ≤ offset + largest) =
              ground (arith, drawn count) in
            let piece = take (end - offset) (drop offset bytes) in
            let (fs, run, whole, sizes) =
              fragment_from_whole fuel (count + 1) end bytes far.1 (omega (arith, far, enough)) in
            let cut : slice? offset end bytes ≡ some piece =
              slice?-take offset end bytes far.0 far.1 in
            let size : length piece ≡ end - offset =
              length-take (end - offset) (drop offset bytes)
                (omega (arith, length-drop offset bytes, far)) in
            (
              piece ∷ fs,
              rw (more, cut, run) refl,
              ap (λ tail. piece ++ tail) whole
                  ∙ take-drop-drop offset end bytes (omega (arith, far)),
              ((omega (arith, size, far), omega (arith, size, far)), sizes),
            )
      ]

-- With a generator that draws at least one byte and at most some largest size, fragment ends, never
-- indexes out of range, and cuts the message into fragments of such sizes that, put together, are
-- the message.
pub fragment_whole :
    (draw : ℕ → ℕ) (largest : ℕ) (bytes : List ℕ)
    → ((k : ℕ) → (0 < draw k) × (draw k ≤ largest))
    → (fs : List (List ℕ)) × (fragment draw bytes ≡ ok (some fs))
      × (joined fs ≡ bytes)
      × All (IsFragment largest) fs
unfolding fragment
fragment_whole draw largest bytes drawn =
    fragment_from_whole draw largest drawn (length bytes) 0 0 bytes (omega arith) (omega arith)

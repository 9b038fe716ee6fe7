-- ===== src/Common/Table.antt =====
-- `HashMap` keyed by byte strings: an association list in which a key stands once.
use kanrin.Common.{
  ℕ, suc, ◌≤◌, ◌≡◌, refl, Bool, true, false, ◌&&◌, List, [], ◌∷◌, Option, none, some, ◌==◌, arith,
  if◌then◌else◌, length,
}

unfoldable pub same_bytes : List ℕ → List ℕ → Bool
same_bytes [] [] = true
same_bytes [] (y ∷ ys) = false
same_bytes (x ∷ xs) [] = false
same_bytes (x ∷ xs) (y ∷ ys) = (x == y) && same_bytes xs ys

abbrev pub Table : Type 0 → Type 0
Table V = List (List ℕ × V)

module _ {V : Type 0} where
  pub lookup : List ℕ → Table V → Option V
  lookup k [] = none
  lookup k ((j, v) ∷ t) = if same_bytes j k then some v else lookup k t

  -- The value of a key that is there is replaced.
  pub put : List ℕ → V → Table V → Table V
  put k v [] = (k, v) ∷ []
  put k v ((j, w) ∷ t) =
      let rest = put k v t in if same_bytes j k then (j, v) ∷ t else (j, w) ∷ rest

  pub delete : List ℕ → Table V → Table V
  delete k [] = []
  delete k ((j, v) ∷ t) = let rest = delete k t in if same_bytes j k then t else (j, v) ∷ rest

  pub retain : (V → Bool) → Table V → Table V
  retain keep [] = []
  retain keep ((j, v) ∷ t) = let rest = retain keep t in if keep v then (j, v) ∷ rest else rest

pub same_bytes_refl : (a : List ℕ) → same_bytes a a ≡ true
unfolding same_bytes
same_bytes_refl [] = refl
same_bytes_refl (x ∷ xs) = ground (arith, same_bytes_refl xs)

pub same_bytes_sound : (a b : List ℕ) → same_bytes a b ≡ true → a ≡ b
unfolding same_bytes
same_bytes_sound [] [] e = refl
same_bytes_sound [] (y ∷ ys) e = cc
same_bytes_sound (x ∷ xs) [] e = cc
same_bytes_sound (x ∷ xs) (y ∷ ys) e = ground (arith, same_bytes_sound xs ys)

module _ {V : Type 0} where
  pub lookup-put_same : (k : List ℕ) (v : V) (t : Table V) → lookup k (put k v t) ≡ some v
  unfolding lookup put
  lookup-put_same k v [] = ground (arith, same_bytes_refl k)
  lookup-put_same k v ((j, w) ∷ t) = ground (arith, lookup-put_same k v t)

  pub length-put : (k : List ℕ) (v : V) (t : Table V) → length (put k v t) ≤ suc (length t)
  unfolding put
  length-put k v [] = omega arith
  length-put k v ((j, w) ∷ t) = ground (arith, length-put k v t)

  pub length-retain : (keep : V → Bool) (t : Table V) → length (retain keep t) ≤ length t
  unfolding retain
  length-retain keep [] = omega arith
  length-retain keep ((j, v) ∷ t) = ground (arith, length-retain keep t)

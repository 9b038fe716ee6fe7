-- ===== src/Client/Multipath/Positions.antt =====
-- The elements of a vector by position: reading, writing and removing.
use kanrin.Common.{
  nth, ℕ, zero, suc, ◌≡◌, ◌≢◌, ◌<◌, refl, ap, List, [], ◌∷◌, ◌++◌, some, arith, length,
}
use kanrin.Client.Multipath.{set_nth, remove_nth}

module _ {ℓ} {A : Type ℓ} where
  pub nth_total : (xs : List A) (i : ℕ) → i < length xs → (x : A) × (nth xs i ≡ some x)
  unfolding nth
  nth_total [] i h = absurd (omega arith)
  nth_total (x ∷ xs) zero h = (x, refl)
  nth_total (x ∷ xs) (suc i) h = nth_total xs i (omega arith)

  pub nth-lt : (xs : List A) (i : ℕ) {x : A} → nth xs i ≡ some x → i < length xs
  unfolding nth
  nth-lt [] i e = ground arith
  nth-lt (x ∷ xs) zero e = omega arith
  nth-lt (x ∷ xs) (suc i) e = omega (arith, nth-lt xs i e)

  pub nth-front :
      (front : List A) (x : A) (rest : List A) → nth (front ++ (x ∷ rest)) (length front) ≡ some x
  unfolding nth
  nth-front [] x rest = refl
  nth-front (y ∷ front) x rest = nth-front front x rest

  pub length-set_nth : (i : ℕ) (a : A) (xs : List A) → length (set_nth i a xs) ≡ length xs
  unfolding set_nth
  length-set_nth i a [] = refl
  length-set_nth zero a (x ∷ xs) = refl
  length-set_nth (suc i) a (x ∷ xs) = ap suc (length-set_nth i a xs)

  pub nth-set_nth_other :
      (i j : ℕ) (a : A) (xs : List A) → j ≢ i → nth (set_nth i a xs) j ≡ nth xs j
  unfolding nth set_nth
  nth-set_nth_other i j a [] h = refl
  nth-set_nth_other zero zero a (x ∷ xs) h = absurd (h refl)
  nth-set_nth_other zero (suc j) a (x ∷ xs) h = refl
  nth-set_nth_other (suc i) zero a (x ∷ xs) h = refl
  nth-set_nth_other (suc i) (suc j) a (x ∷ xs) h = nth-set_nth_other i j a xs (λ e. h (ap suc e))

pub remove_nth-length :
    {A B : Type 0} (i : ℕ) (xs : List A) (ys : List B)
    → length xs ≡ length ys
    → length (remove_nth i xs) ≡ length (remove_nth i ys)
unfolding remove_nth
remove_nth-length i [] [] h = refl
remove_nth-length i [] (y ∷ ys) h = absurd (omega arith)
remove_nth-length i (x ∷ xs) [] h = absurd (omega arith)
remove_nth-length zero (x ∷ xs) (y ∷ ys) h = omega arith
remove_nth-length (suc i) (x ∷ xs) (y ∷ ys) h = ap suc (remove_nth-length i xs ys (omega arith))

-- ===== src/Common/SortedMap/Bounds.antt =====
-- How many entries an operation leaves, and the range of their keys.
use kanrin.Common.{
  ℕ, suc, ◌+◌, ◌≤◌, ◌<◌, ◌≡◌, refl, ap, [], ◌∷◌, none, arith, length, length-append,
}
use native.Mathlib.Decide.{dec_lt}
use kanrin.Common.SortedMap.{Map, Within, find, insert, remove, split_off, below}
use kanrin.Common.SortedMap.Laws.{below-append-split_off}

module _ {V : Type 0} where
  pub find-Within : (n k : ℕ) (m : Map V) → Within n m → n ≤ k → find k m ≡ none
  unfolding find
  find-Within n k [] h p = refl
  find-Within n k ((j, v) ∷ m) h p = ground (arith, find-Within n k m h.1)

  pub insert-Within : (n k : ℕ) (v : V) (m : Map V) → Within n m → k < n → Within n (insert k v m)
  unfolding insert
  insert-Within n k v [] h p = (p, tt)
  insert-Within n k v ((j, w) ∷ m) h p = ground (arith, insert-Within n k v m h.1)

  pub remove-Within : (n k : ℕ) (m : Map V) → Within n m → Within n (remove k m)
  unfolding remove
  remove-Within n k [] h = tt
  remove-Within n k ((j, v) ∷ m) h = ground (arith, remove-Within n k m h.1)

  pub split_off-Within : (n k : ℕ) (m : Map V) → Within n m → Within n (split_off k m)
  unfolding split_off
  split_off-Within n k [] h = tt
  split_off-Within n k ((j, v) ∷ m) h = ground (arith, split_off-Within n k m h.1)

  pub length-below-split_off :
      (k : ℕ) (m : Map V) → length (below k m) + length (split_off k m) ≡ length m
  length-below-split_off k m =
      rw (← length-append (below k m) (split_off k m)) (ap length (below-append-split_off k m))

  pub length-insert-le : (k : ℕ) (v : V) (m : Map V) → length (insert k v m) ≤ suc (length m)
  unfolding insert
  length-insert-le k v [] = omega arith
  length-insert-le k v ((j, w) ∷ m) = ground (arith, length-insert-le k v m)

  length-remove-le : (k : ℕ) (m : Map V) → length (remove k m) ≤ length m
  unfolding remove
  length-remove-le k [] = omega arith
  length-remove-le k ((j, w) ∷ m) = ground (arith, length-remove-le k m)

  pub Within-upper : (n k : ℕ) (m : Map V) → Within n m → n ≤ k → Within k m
  Within-upper n k [] h p = tt
  Within-upper n k ((i, v) ∷ m) h p = (omega arith, Within-upper n k m h.1 p)

  -- A map in which nothing is found from `n` on has its keys below `n`.
  pub Within-of_find : (n : ℕ) (m : Map V) → ((k : ℕ) → n ≤ k → find k m ≡ none) → Within n m
  unfolding find
  Within-of_find n [] h = tt
  Within-of_find n ((j, v) ∷ m) h =
      let small : j < n = elim (dec_lt j n) [ yes p ↦ p | no p ↦ absurd (ground (arith, h j)) ] in
      (small, Within-of_find n m (λ k p. ground (arith, h k p)))

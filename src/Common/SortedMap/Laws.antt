-- ===== src/Common/SortedMap/Laws.antt =====
-- The laws of the ordered map: what `find` gives after each operation, and that each keeps the order.
use kanrin.Common.{
  ℕ, suc, ◌≤◌, ◌<◌, ◌≡◌, refl, inl, inr, true, false, [], ◌∷◌, ◌++◌, none, some, ltb, ◌==◌, ◌||◌,
  if◌then◌else◌, arith, length, Bool-cases,
}
use kanrin.Common.SortedMap.{
  Map, Above, IsSorted, find, contains_key, insert, remove, split_off, below, first_from,
}

-- Below a bound that is itself below the first key nothing is found.
module _ {V : Type 0} where
  pub Above-lower : (k j : ℕ) (m : Map V) → Above k m → j ≤ k → Above j m
  Above-lower k j [] h p = tt
  Above-lower k j ((i, v) ∷ m) h p = (omega arith, h.1)

  pub Above-IsSorted : (k : ℕ) (m : Map V) → Above k m → IsSorted m
  Above-IsSorted k [] h = tt
  Above-IsSorted k ((i, v) ∷ m) h = h.1

  pub find-Above : (k j : ℕ) (m : Map V) → Above k m → j ≤ k → find j m ≡ none
  unfolding find
  find-Above k j [] h p = refl
  find-Above k j ((i, v) ∷ m) h p = ground (arith, find-Above i j m h.1)

  pub contains_key-find : (k : ℕ) (m : Map V) → contains_key k m ≡ false → find k m ≡ none
  unfolding find contains_key
  contains_key-find k [] h = refl
  contains_key-find k ((j, v) ∷ m) h = ground (arith, contains_key-find k m)

  pub find-contains_key :
      (k : ℕ) (m : Map V) → contains_key k m ≡ true → (v : V) × (find k m ≡ some v)
  unfolding find contains_key
  find-contains_key k [] h = absurd (let e : false ≡ true = h in cc)
  find-contains_key k ((j, v) ∷ m) h = elim (Bool-cases (j == k)) [
    | inl y ↦ (v, rw y)
    | inr n ↦ rw n (find-contains_key k m (rw n at h))
  ]

  pub insert-Above :
      (k : ℕ) (v : V) (b : ℕ) (m : Map V) → Above b m → b < k → Above b (insert k v m)
  unfolding insert
  insert-Above k v b [] h p = (p, tt)
  insert-Above k v b ((j, w) ∷ m) h p = ground (arith, insert-Above k v j m, Above-lower j k m h.1)

  pub insert-IsSorted : (k : ℕ) (v : V) (m : Map V) → IsSorted m → IsSorted (insert k v m)
  unfolding insert
  insert-IsSorted k v [] h = tt
  insert-IsSorted k v ((j, w) ∷ m) h = ground (arith, insert-Above k v j m h, Above-lower j k m h)

  pub find-insert :
      (k j : ℕ) (v : V) (m : Map V) → find j (insert k v m) ≡ (if k == j then some v else find j m)
  unfolding find insert
  find-insert k j v [] = refl
  find-insert k j v ((i, w) ∷ m) = ground (arith, find-insert k j v m)

  remove-Above : (k b : ℕ) (m : Map V) → Above b m → Above b (remove k m)
  unfolding remove
  remove-Above k b [] h = tt
  remove-Above k b ((j, v) ∷ m) h = ground (arith, remove-Above k j m h.1, Above-lower j b m h.1)

  pub remove-IsSorted : (k : ℕ) (m : Map V) → IsSorted m → IsSorted (remove k m)
  unfolding remove
  remove-IsSorted k [] h = tt
  remove-IsSorted k ((j, v) ∷ m) h = ground (arith, remove-Above k j m h, Above-IsSorted j m h)

  pub find-remove :
      (k j : ℕ) (m : Map V) → IsSorted m → find j (remove k m) ≡ (if k == j then none else find j m)
  unfolding find remove
  find-remove k j [] h = ground arith
  find-remove k j ((i, v) ∷ m) h =
      ground (arith, find-remove k j m (Above-IsSorted i m h), find-Above i j m h)

  pub length-remove :
      (k : ℕ) (m : Map V) (v : V) → find k m ≡ some v → suc (length (remove k m)) ≡ length m
  unfolding find remove
  length-remove k [] v h = cc
  length-remove k ((i, w) ∷ m) v h = ground (arith, length-remove k m v)

  split_off-Above : (k b : ℕ) (m : Map V) → Above b m → Above b (split_off k m)
  unfolding split_off
  split_off-Above k b [] h = tt
  split_off-Above k b ((j, v) ∷ m) h =
      ground (arith, split_off-Above k b m (Above-lower j b m h.1 (omega arith)))

  pub split_off-IsSorted : (k : ℕ) (m : Map V) → IsSorted m → IsSorted (split_off k m)
  unfolding split_off
  split_off-IsSorted k [] h = tt
  split_off-IsSorted k ((j, v) ∷ m) h =
      ground (arith, split_off-IsSorted k m (Above-IsSorted j m h))

  pub find-split_off :
      (k j : ℕ) (m : Map V)
      → IsSorted m
      → find j (split_off k m) ≡ (if ltb j k then none else find j m)
  unfolding find split_off
  find-split_off k j [] h = ground arith
  find-split_off k j ((i, v) ∷ m) h =
      ground (arith, find-split_off k j m (Above-IsSorted i m h), find-Above i j m h)

  -- The two halves of a split make up the map.
  pub below-append-split_off : (k : ℕ) (m : Map V) → below k m ++ split_off k m ≡ m
  unfolding below split_off
  below-append-split_off k [] = refl
  below-append-split_off k ((j, v) ∷ m) = ground (arith, below-append-split_off k m)

  -- What `first_from` gives is an entry at or above the key, and none stands between them.
  first_from-some :
      (k : ℕ) (m : Map V) (j : ℕ) (v : V)
      → IsSorted m
      → first_from k m ≡ some (j, v)
      → (k ≤ j) × (find j m ≡ some v) × (first_from j m ≡ some (j, v))
  unfolding first_from find
  first_from-some k [] j v h e = cc
  first_from-some k ((i, w) ∷ m) j v h e = elim (Bool-cases (ltb i k)) [
    | inl y ↦
        let (le, found, again) = first_from-some k m j v (Above-IsSorted i m h) (rw y at e) in
        ground arith
    | inr n ↦ ground arith
  ]

  -- Without an entry at or above the key, every key is below it.
  first_from-none :
      (k j : ℕ) (m : Map V) → IsSorted m → first_from k m ≡ none → k ≤ j → find j m ≡ none
  unfolding first_from find
  first_from-none k j [] h e p = refl
  first_from-none k j ((i, w) ∷ m) h e p =
      ground (arith, first_from-none k j m (Above-IsSorted i m h))

  -- No key lies between the bound and the entry that `first_from` gives.
  find-first_from :
      (k i : ℕ) (m : Map V) (j : ℕ) (v : V)
      → IsSorted m
      → first_from k m ≡ some (j, v)
      → k ≤ i
      → i < j
      → find i m ≡ none
  unfolding first_from find
  find-first_from k i [] j v h e p q = refl
  find-first_from k i ((l, w) ∷ m) j v h e p q =
      ground (arith, find-first_from k i m j v (Above-IsSorted l m h), find-Above l i m h)

  pub contains_key-insert :
      (k j : ℕ) (v : V) (m : Map V) → contains_key j (insert k v m) ≡ ((k == j) || contains_key j m)
  unfolding contains_key insert
  contains_key-insert k j v [] = ground arith
  contains_key-insert k j v ((i, w) ∷ m) = ground (arith, contains_key-insert k j v m)

  pub contains_key-remove_ne :
      (k j : ℕ) (m : Map V) → (k == j) ≡ false → contains_key j (remove k m) ≡ contains_key j m
  unfolding contains_key remove
  contains_key-remove_ne k j [] h = refl
  contains_key-remove_ne k j ((i, w) ∷ m) h = ground (arith, contains_key-remove_ne k j m h)

  pub contains_key-Above : (k j : ℕ) (m : Map V) → Above k m → j ≤ k → contains_key j m ≡ false
  unfolding contains_key
  contains_key-Above k j [] h p = refl
  contains_key-Above k j ((i, w) ∷ m) h p = ground (arith, contains_key-Above i j m h.1)

-- ===== src/Common/Assoc.antt =====
-- `HashMap` with keys of any type: an association list in which a key stands once. `same` is the
-- keys' `==`.
pub mod Once
use kanrin.Common.{
  ℕ, suc, ◌≤◌, ◌≡◌, ◌≢◌, ◌↔◌, refl, Bool, true, false, ◌&&◌, List, [], ◌∷◌, Option, none, some,
  ◌==◌, arith, if◌then◌else◌, length, All, Bool-cases, inl, inr, Option-cases,
}

abbrev pub Assoc : Type 0 → Type 0 → Type 0
Assoc K V = List (K × V)

module _ {K V : Type 0} where
  -- Whether an entry is kept, which may look at its key.
  unfoldable pub retain_entries : (V → Bool) → Assoc K V → Assoc K V
  retain_entries keep [] = []
  retain_entries keep ((j, v) ∷ t) =
      let rest = retain_entries keep t in if keep v then (j, v) ∷ rest else rest

module _ {K V : Type 0} (same : K → K → Bool) where
  unfoldable pub get : K → Assoc K V → Option V
  get k [] = none
  get k ((j, v) ∷ t) = if same j k then some v else get k t

  -- The value of a key that is there is replaced.
  unfoldable pub insert : K → V → Assoc K V → Assoc K V
  insert k v [] = (k, v) ∷ []
  insert k v ((j, w) ∷ t) =
      let rest = insert k v t in if same j k then (j, v) ∷ t else (j, w) ∷ rest

  unfoldable pub remove : K → Assoc K V → Assoc K V
  remove k [] = []
  remove k ((j, v) ∷ t) = let rest = remove k t in if same j k then t else (j, v) ∷ rest

-- `same` decides equality.
abbrev pub IsEquality : {K : Type 0} → (K → K → Bool) → Type 0
IsEquality {K} same = (a b : K) → (same a b ≡ true) ↔ (a ≡ b)

module _ {K V : Type 0} (same : K → K → Bool) (lawful : IsEquality same) where
  pub get-insert_same : (k : K) (v : V) (t : Assoc K V) → get same k (insert same k v t) ≡ some v
  unfolding get insert
  get-insert_same k v [] = ground (arith, lawful k k)
  get-insert_same k v ((j, w) ∷ t) = ground (arith, lawful j k, get-insert_same k v t)

  pub get-insert_other :
      (k i : K) (v : V) (t : Assoc K V) → i ≢ k → get same k (insert same i v t) ≡ get same k t
  unfolding get insert
  get-insert_other k i v [] differ = ground (arith, lawful i k)
  get-insert_other k i v ((j, w) ∷ t) differ =
      ground (arith, lawful i k, lawful j i, lawful j k, get-insert_other k i v t differ)

  pub insert-All :
      (P : K × V → Type 0) (k : K) (v : V) (t : Assoc K V)
      → ((j : K) → j ≡ k → P (j, v))
      → All P t
      → All P (insert same k v t)
  unfolding insert
  insert-All P k v [] hv h = (hv k refl, tt)
  insert-All P k v ((j, w) ∷ t) hv h = elim (Bool-cases (same j k)) [
    | inl found ↦ rw found (hv j ((lawful j k).0 found), h.1)
    | inr other ↦ rw other (h.0, insert-All P k v t hv h.1)
  ]

  pub get-All :
      (P : K × V → Type 0) (k : K) (t : Assoc K V) {v : V}
      → All P t
      → get same k t ≡ some v
      → P (k, v)
  unfolding get
  get-All P k [] h e = ground arith
  get-All P k ((j, w) ∷ t) {v = v} h e = elim (Bool-cases (same j k)) [
    | inl found ↦
        let value : w ≡ v = ground (arith, found) in rw (← value, ← (lawful j k).0 found) h.0
    | inr other ↦ get-All P k t h.1 (rw (get, other) at e)
  ]

  pub length-insert_new :
      (k : K) (v : V) (t : Assoc K V)
      → get same k t ≡ none
      → length (insert same k v t) ≡ suc (length t)
  unfolding get insert
  length-insert_new k v [] e = refl
  length-insert_new k v ((j, w) ∷ t) e = ground (arith, length-insert_new k v t)

module _ {K V : Type 0} where
  pub retain_entries-All :
      (P : K × V → Type 0) (keep : V → Bool) (t : Assoc K V)
      → All P t
      → All P (retain_entries keep t)
  unfolding retain_entries
  retain_entries-All P keep [] h = tt
  retain_entries-All P keep ((j, v) ∷ t) h = elim (Bool-cases (keep v)) [
    | inl kept ↦ rw kept (h.0, retain_entries-All P keep t h.1)
    | inr dropped ↦ rw dropped (retain_entries-All P keep t h.1)
  ]

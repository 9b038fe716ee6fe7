-- ===== src/Common/Assoc/Once.antt =====
-- Tables in which every key stands once, and what keeping some of the entries does to a lookup.
use kanrin.Common.{
  ◌≡◌, refl, ◌∙◌, Bool, true, false, [], ◌∷◌, Option, none, some, if◌then◌else◌, arith, Bool-cases,
  inl, inr,
}
use kanrin.Common.Assoc.{Assoc, IsEquality, get, insert, retain_entries, get-insert_other}

-- What a lookup keeps.
abbrev pub kept : {V : Type 0} → (V → Bool) → Option V → Option V
kept keep none = none
kept keep (some v) = if keep v then some v else none

module _ {K V : Type 0} (same : K → K → Bool) where
  abbrev pub Once : Assoc K V → Type 0
  Once [] = Unit {0}
  Once ((j, v) ∷ t) = (get same j t ≡ none) × Once t

module _ {K V : Type 0} (same : K → K → Bool) (lawful : IsEquality same) where
  -- An equal key finds the same.
  get-same : (j k : K) (t : Assoc K V) → same j k ≡ true → get same k t ≡ get same j t
  get-same j k t e = rw ((lawful j k).0 e) refl

  get-insert_other_key :
      (j k : K) (v : V) (t : Assoc K V)
      → same j k ≡ false
      → get same j t ≡ none
      → get same j (insert same k v t) ≡ none
  get-insert_other_key j k v t differ e =
      get-insert_other same lawful j k v t (λ p. ground (arith, lawful j k, p)) ∙ e

  pub insert-Once : (k : K) (v : V) (t : Assoc K V) → Once same t → Once same (insert same k v t)
  unfolding insert get
  insert-Once k v [] h = (refl, tt)
  insert-Once k v ((j, w) ∷ t) h = elim (Bool-cases (same j k)) [
    | inl found ↦ rw found h
    | inr other ↦ rw other (get-insert_other_key j k v t other h.0, insert-Once k v t h.1)
  ]

  retain-none :
      (keep : V → Bool) (k : K) (t : Assoc K V)
      → get same k t ≡ none
      → get same k (retain_entries keep t) ≡ none
  unfolding get retain_entries
  retain-none keep k [] e = refl
  retain-none keep k ((j, w) ∷ t) e = ground (arith, retain-none keep k t)

  pub retain-Once :
      (keep : V → Bool) (t : Assoc K V) → Once same t → Once same (retain_entries keep t)
  unfolding retain_entries
  retain-Once keep [] h = tt
  retain-Once keep ((j, w) ∷ t) h = elim (Bool-cases (keep w)) [
    | inl stays ↦ rw stays (retain-none keep j t h.0, retain-Once keep t h.1)
    | inr goes ↦ rw goes (retain-Once keep t h.1)
  ]

  -- An entry is found after the clean-up if it was found before and is one of those that stay.
  pub get-retain :
      (keep : V → Bool) (k : K) (t : Assoc K V)
      → Once same t
      → get same k (retain_entries keep t) ≡ kept keep (get same k t)
  unfolding get retain_entries
  get-retain keep k [] h = refl
  get-retain keep k ((j, w) ∷ t) h = elim (Bool-cases (same j k)) [
    | inl found ↦
        let gone = retain-none keep k t (get-same j k t found ∙ h.0) in ground (arith, found, gone)
    | inr other ↦ ground (arith, other, get-retain keep k t h.1)
  ]

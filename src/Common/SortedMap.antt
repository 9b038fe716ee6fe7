-- ===== src/Common/SortedMap.antt =====
-- `BTreeMap<u64, V>`: an association list in ascending order of its keys.
pub mod Laws
pub mod Bounds
use kanrin.Common.{
  ℕ, ◌<◌, Bool, true, false, ◌&&◌, List, [], ◌∷◌, Option, none, some, ltb, leb, ◌==◌, if◌then◌else◌,
}

abbrev pub Map : Type 0 → Type 0
Map V = List (ℕ × V)

module _ {V : Type 0} where
  -- Every key is above `k`, in ascending order.
  abbrev pub Above : ℕ → Map V → Type 0
  Above k [] = Unit {0}
  Above k ((j, v) ∷ m) = (k < j) × Above j m

  abbrev pub IsSorted : Map V → Type 0
  IsSorted [] = Unit {0}
  IsSorted ((k, v) ∷ m) = Above k m

  -- Every key is below `n`.
  abbrev pub Within : ℕ → Map V → Type 0
  Within n [] = Unit {0}
  Within n ((j, v) ∷ m) = (j < n) × Within n m

  unfoldable pub find : ℕ → Map V → Option V
  find k [] = none
  find k ((j, v) ∷ m) = if j == k then some v else find k m

  -- `contains_key`
  unfoldable pub contains_key : ℕ → Map V → Bool
  contains_key k [] = false
  contains_key k ((j, v) ∷ m) = if j == k then true else contains_key k m

  -- `insert`: a value already under the key is replaced.
  unfoldable pub insert : ℕ → V → Map V → Map V
  insert k v [] = (k, v) ∷ []
  insert k v ((j, w) ∷ m) =
      let rest = insert k v m in
      if ltb k j then (k, v) ∷ (j, w) ∷ m else if j == k then (k, v) ∷ m else (j, w) ∷ rest

  -- `remove`
  unfoldable pub remove : ℕ → Map V → Map V
  remove k [] = []
  remove k ((j, v) ∷ m) = let rest = remove k m in if j == k then m else (j, v) ∷ rest

  -- `split_off`: the entries at or above the key, and those below it, which stay.
  unfoldable pub split_off : ℕ → Map V → Map V
  split_off k [] = []
  split_off k ((j, v) ∷ m) = let rest = split_off k m in if ltb j k then rest else (j, v) ∷ m

  pub below : ℕ → Map V → Map V
  below k [] = []
  below k ((j, v) ∷ m) = let rest = below k m in if ltb j k then (j, v) ∷ rest else []

  -- The keys of `range(lo..=hi)`.
  unfoldable pub range_keys : ℕ → ℕ → Map V → List ℕ
  range_keys lo hi [] = []
  range_keys lo hi ((j, v) ∷ m) =
      let rest = range_keys lo hi m in if leb lo j && leb j hi then j ∷ rest else rest

  -- `range(from..).next()`
  unfoldable pub first_from : ℕ → Map V → Option (ℕ × V)
  first_from k [] = none
  first_from k ((j, v) ∷ m) = let rest = first_from k m in if ltb j k then rest else some (j, v)

  unfoldable pub keys : Map V → List ℕ
  keys [] = []
  keys ((j, v) ∷ m) = j ∷ keys m

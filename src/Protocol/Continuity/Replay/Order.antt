-- ===== src/Protocol/Continuity/Replay/Order.antt =====
-- The cursor goes through the entries of the buffer in their order, each once.
use kanrin.Common.{
  ℕ, suc, ◌+◌, ◌^◌, ◌≤◌, ◌≡◌, refl, List, [], ◌∷◌, none, some, arith, Option-cases, inl, inr,
}
use kanrin.Common.SortedMap.{Map, IsSorted, Above, Within, split_off, first_from}
use kanrin.Common.SortedMap.Laws.{Above-IsSorted}
use kanrin.Protocol.Continuity.SendBuffer.{SendBuffer}
use kanrin.Protocol.Continuity.SendBuffer.Bytes.{IsValid}
use kanrin.Protocol.Continuity.Replay.{Replay, new, next_chunk, confirm_sent}

module _ {V : Type 0} where
  split_off_of_Above : (n j : ℕ) (m : Map V) → Above j m → n ≤ suc j → split_off n m ≡ m
  unfolding split_off
  split_off_of_Above n j [] h p = refl
  split_off_of_Above n j ((i, v) ∷ m) h p = ground arith

  split_off_of_Within : (n : ℕ) (m : Map V) → Within n m → split_off n m ≡ []
  unfolding split_off
  split_off_of_Within n [] h = refl
  split_off_of_Within n ((i, v) ∷ m) h = ground (arith, split_off_of_Within n m h.1)

  Within-lower : (n k : ℕ) (m : Map V) → Within n m → n ≤ k → Within k m
  Within-lower n k [] h p = tt
  Within-lower n k ((i, v) ∷ m) h p = (omega arith, Within-lower n k m h.1 p)

  -- The first entry at or above a key is the head of the rest of the map.
  split_off-first_from :
      (n : ℕ) (m : Map V) (j : ℕ) (v : V)
      → IsSorted m
      → first_from n m ≡ some (j, v)
      → split_off n m ≡ (j, v) ∷ split_off (j + 1) m
  unfolding split_off first_from
  split_off-first_from n [] j v h e = cc
  split_off-first_from n ((i, w) ∷ m) j v h e = ground (
    arith,
    split_off-first_from n m j v (Above-IsSorted i m h),
    split_off_of_Above (j + 1) j m,
    first_from-le n m j v,
  )
    where
      first_from-le : (n : ℕ) (m : Map V) (j : ℕ) (v : V) → first_from n m ≡ some (j, v) → n ≤ j
      first_from-le n [] j v e = cc
      first_from-le n ((i, w) ∷ m) j v e = ground (arith, first_from-le n m j v)

-- What the cursor has still to replay.
pub remaining : Replay → SendBuffer → Map (List ℕ)
remaining r buffer = elim r.next [ none ↦ [] | some from ↦ split_off from buffer.chunks ]

split_off-zero : {V : Type 0} (m : Map V) → split_off 0 m ≡ m
unfolding split_off
split_off-zero [] = refl
split_off-zero ((k, v) ∷ m) = ground arith

-- A new cursor has the whole buffer before it.
pub remaining-new : (buffer : SendBuffer) → remaining new buffer ≡ buffer.chunks
unfolding remaining new
remaining-new buffer = split_off-zero buffer.chunks

first_from-split_off : {V : Type 0} (n : ℕ) (m : Map V) → first_from n m ≡ none → split_off n m ≡ []
unfolding first_from split_off
first_from-split_off n [] e = refl
first_from-split_off n ((k, v) ∷ m) e = ground (arith, first_from-split_off n m)

pub next_chunk-none :
    (r : Replay) (buffer : SendBuffer) → next_chunk r buffer ≡ none → remaining r buffer ≡ []
unfolding next_chunk remaining
next_chunk-none r buffer e = elim (Option-cases r.next) [
  | inl done ↦ rw done
  | inr (from, at) ↦ rw at (first_from-split_off from buffer.chunks (rw at at e))
]

-- Confirming the chunk that the cursor names takes it off what remains, and nothing else.
pub next_chunk-some :
    (r : Replay) (buffer : SendBuffer) (sequence : ℕ) (bytes : List ℕ)
    → IsValid buffer
    → next_chunk r buffer ≡ some (sequence, bytes)
    → remaining r buffer ≡ (sequence, bytes) ∷ remaining (confirm_sent r sequence) buffer
unfolding next_chunk remaining confirm_sent
next_chunk-some r buffer sequence bytes h e = elim (Option-cases r.next) [
  | inl done ↦ ground arith
  | inr (from, at) ↦ ground (
    arith,
    split_off-first_from from buffer.chunks sequence bytes h.sorted,
    split_off_of_Within (sequence + 1) buffer.chunks,
    Within-lower (2 ^ 64) (sequence + 1) buffer.chunks h.wide,
  )
]

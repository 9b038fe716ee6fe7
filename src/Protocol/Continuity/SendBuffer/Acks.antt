-- ===== src/Protocol/Continuity/SendBuffer/Acks.antt =====
-- What an ack releases: exactly the sequences that it names.
use kanrin.Common.{
  ℕ, ◌+◌, ◌-◌, ◌^◌, ◌≡◌, refl, Bool, true, false, ◌&&◌, ◌||◌, List, [], ◌∷◌, none, arith, ltb, leb,
  ◌==◌, if◌then◌else◌,
}
use kanrin.Common.SortedMap.{Map, find, range_keys}
use kanrin.Common.SortedMap.Laws.{find-remove, find-split_off}
use kanrin.Common.SortedMap.Bounds.{find-Within}
use kanrin.Common.Word.{IsU64, checked_sub}
use kanrin.Protocol.Wire.Control.{SackRange}
use kanrin.Protocol.Continuity.SendBuffer.{
  SendBuffer, ack_cumulative, ack_one, ack_selective, ack_range, ack_ranges, ack_below, apply_ack,
  retained_by,
}
use kanrin.Protocol.Continuity.SendBuffer.Bytes.{
  IsValid, ack_one-Released, ack_range-Released, ack_below-Released,
}

-- `k` lies in one of the ranges.
abbrev pub covers : List SackRange → ℕ → Bool
covers [] k = false
covers (r ∷ rs) k = (leb r.start k && leb k r.end) || covers rs k

-- The sequences that an ack names.
abbrev pub acked : (next_expected : ℕ) → List SackRange → ℕ → Bool
acked next_expected ranges k = ltb k next_expected || covers ranges k

member : ℕ → List ℕ → Bool
member k [] = false
member k (x ∷ xs) = x == k || member k xs

module _ (b : SendBuffer) (h : IsValid b) (k : ℕ) where
  find-ack_cumulative :
      (up_to : ℕ)
      → IsU64 up_to
      → find k (ack_cumulative b up_to).1.chunks ≡ (if leb k up_to then none else find k b.chunks)
  unfolding ack_cumulative retained_by find
  find-ack_cumulative u small =
      ground
        (arith, find-split_off (u + 1) k b.chunks h.sorted, find-Within (2 ^ 64) k b.chunks h.wide)

  find-ack_one :
      (seq : ℕ) → find k (ack_one b seq).1.chunks ≡ (if seq == k then none else find k b.chunks)
  unfolding ack_one
  find-ack_one seq = ground (arith, find-remove seq k b.chunks h.sorted)

find-ack_selective :
    (b : SendBuffer) (seqs : List ℕ) (k : ℕ)
    → IsValid b
    → find k (ack_selective b seqs).1.chunks ≡ (if member k seqs then none else find k b.chunks)
unfolding ack_selective member
find-ack_selective b [] k h = refl
find-ack_selective b (seq ∷ seqs) k h = ground (
  arith,
  find-ack_one b h k seq,
  find-ack_selective (ack_one b seq).1 seqs k (ack_one-Released b h seq).valid,
)

-- The keys of a range lie in it, and a key in it that is not among them is not in the map.
member-range_keys :
    (lo hi k : ℕ) (m : Map (List ℕ))
    → member k (range_keys lo hi m) ≡ true
    → (leb lo k && leb k hi) ≡ true
unfolding member range_keys
member-range_keys lo hi k [] h = cc
member-range_keys lo hi k ((j, v) ∷ m) h = ground (arith, member-range_keys lo hi k m)

find-range_keys :
    (lo hi k : ℕ) (m : Map (List ℕ))
    → (leb lo k && leb k hi) ≡ true
    → member k (range_keys lo hi m) ≡ false
    → find k m ≡ none
unfolding member range_keys find
find-range_keys lo hi k [] inside h = refl
find-range_keys lo hi k ((j, v) ∷ m) inside h = ground (arith, find-range_keys lo hi k m inside)

find-ack_range :
    (b : SendBuffer) (start end k : ℕ)
    → IsValid b
    → find k (ack_range b start end).1.chunks
      ≡ (if leb start k && leb k end then none else find k b.chunks)
unfolding ack_range
find-ack_range b start end k h = ground (
  arith,
  find-ack_selective b (range_keys start end b.chunks) k h,
  member-range_keys start end k b.chunks,
  find-range_keys start end k b.chunks,
)

find-ack_ranges :
    (b : SendBuffer) (ranges : List SackRange) (k : ℕ)
    → IsValid b
    → find k (ack_ranges b ranges).1.chunks ≡ (if covers ranges k then none else find k b.chunks)
unfolding ack_ranges
find-ack_ranges b [] k h = refl
find-ack_ranges b (r ∷ rs) k h = ground (
  arith,
  find-ack_range b r.start r.end k h,
  find-ack_ranges (ack_range b r.start r.end).1 rs k (ack_range-Released b r.start r.end h).valid,
)

find-ack_below :
    (b : SendBuffer) (n k : ℕ)
    → IsValid b
    → IsU64 n
    → find k (ack_below b (checked_sub n 1)).1.chunks ≡ (if ltb k n then none else find k b.chunks)
unfolding ack_below
find-ack_below b n k h small = ground (arith, find-ack_cumulative b h k (n - 1))

-- After an ack whose cumulative point fits 64 bits, a chunk of a valid send buffer is gone if the
-- ack names its sequence, below the cumulative point or in a range, and is there as before
-- otherwise.
pub find-apply_ack :
    (b : SendBuffer) (next_expected : ℕ) (ranges : List SackRange) (k : ℕ)
    → IsValid b
    → IsU64 next_expected
    → find k (apply_ack b next_expected ranges).1.chunks
      ≡ (if acked next_expected ranges k then none else find k b.chunks)
unfolding apply_ack
find-apply_ack b n ranges k h small = ground (
  arith,
  find-ack_below b n k h small,
  find-ack_ranges (ack_below b (checked_sub n 1)).1 ranges k
      (ack_below-Released b (checked_sub n 1) h).valid,
)

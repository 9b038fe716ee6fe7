-- ===== src/Protocol/Continuity/SendBuffer/Bytes.antt =====
-- The accounting of the send buffer: it is in order, its byte count is that of its chunks, and it
-- is within its bound unless a single chunk exceeds that.
use kanrin.Common.{
  ℕ, ◌+◌, ◌-◌, ◌^◌, ◌≤◌, ◌<◌, ◌≡◌, ◌⊎◌, inl, inr, refl, ap, sym, ◌∙◌, List, [], ◌∷◌, ◌++◌, none,
  some, arith, length, Option-cases, Bool-cases, ltb, Option, not, ◌&&◌, ◌==◌, if◌then◌else◌,
}
use kanrin.Common.SortedMap.{
  Map, IsSorted, Within, find, insert, remove, split_off, below, range_keys,
}
use kanrin.Common.SortedMap.Laws
use kanrin.Common.SortedMap.Laws.{
  insert-IsSorted, remove-IsSorted, split_off-IsSorted, length-remove, below-append-split_off,
  find-Above, find-insert, Above-lower,
}
use kanrin.Common.SortedMap.Bounds.{
  insert-Within, remove-Within, split_off-Within, length-below-split_off, length-insert-le,
}
use kanrin.Common.Word.{IsU64, checked_sub}
use kanrin.Protocol.Error.{ok, err, send_buffer_full}
use kanrin.Protocol.Wire.Control.{SackRange}
use kanrin.Protocol.Continuity.SendBuffer.{
  SendBuffer, new, push, total, old_size, ack_cumulative, ack_one, ack_selective, ack_range,
  ack_ranges, ack_below, apply_ack, retained_by, removed_by, is_empty,
}

pub record IsValid (b : SendBuffer) : Type 0 where
  pub sorted : IsSorted b.chunks
  pub wide : Within (2 ^ 64) b.chunks
  pub accounted : b.buffered_bytes ≡ total b.chunks
  pub bounded : (b.buffered_bytes ≤ b.max_bytes) ⊎ (length b.chunks ≤ 1)

pub total-insert :
    (k : ℕ) (v : List ℕ) (m : Map (List ℕ))
    → IsSorted m
    → total (insert k v m) + old_size (find k m) ≡ total m + length v
unfolding total insert find
total-insert k v [] h = omega arith
total-insert k v ((j, w) ∷ m) h =
    ground (arith, total-insert k v m (Laws.Above-IsSorted j m h), find-Above j k m h)

pub total-remove :
    (k : ℕ) (m : Map (List ℕ)) (v : List ℕ)
    → find k m ≡ some v
    → total (remove k m) + length v ≡ total m
unfolding total remove find
total-remove k [] v e = cc
total-remove k ((j, w) ∷ m) v e = ground (arith, total-remove k m v)

total-append : (m n : Map (List ℕ)) → total (m ++ n) ≡ total m + total n
unfolding total
total-append [] n = omega arith
total-append ((k, v) ∷ m) n = omega (arith, total-append m n)

total-below : (k : ℕ) (m : Map (List ℕ)) → total (below k m) + total (split_off k m) ≡ total m
total-below k m =
    sym (total-append (below k m) (split_off k m)) ∙ ap total (below-append-split_off k m)

pub new-IsValid : (max_bytes : ℕ) → IsValid (new max_bytes)
unfolding new total
new-IsValid max_bytes = record {
  sorted = tt;
  wide = tt;
  accounted = refl;
  bounded = inl (omega arith);
}

total-push :
    (k : ℕ) (v : List ℕ) (b : SendBuffer)
    → IsValid b
    → old_size (find k b.chunks) ≤ b.buffered_bytes
total-push k v b h = elim (Option-cases (find k b.chunks)) [
  | inl e ↦ rw e (omega arith)
  | inr (w, e) ↦ rw e (omega (arith, total-remove k b.chunks w e))
]

pub push-IsValid :
    (b : SendBuffer) (sequence : ℕ) (bytes : List ℕ) {b' : SendBuffer}
    → IsValid b
    → IsU64 sequence
    → push b sequence bytes ≡ ok b'
    → IsValid b'
unfolding push
push-IsValid b k v {b'} h wide e = ground (
  arith,
  total-insert k v b.chunks h.sorted,
  total-push k v b h,
  insert-IsSorted k v b.chunks h.sorted,
  insert-Within (2 ^ 64) k v b.chunks h.wide,
  length-insert-le k v b.chunks,
)

-- What an acknowledgement leaves: a valid buffer, with as many chunks fewer as it reports.
pub record Released (b : SendBuffer) (r : ℕ × SendBuffer) : Type 0 where
  pub valid : IsValid r.1
  pub counted : r.0 + length r.1.chunks ≡ length b.chunks
  pub bound : r.1.max_bytes ≡ b.max_bytes

module _ (b : SendBuffer) (h : IsValid b) where
  ack_cumulative-Released : (up_to : ℕ) → Released b (ack_cumulative b up_to)
  unfolding ack_cumulative retained_by removed_by total
  ack_cumulative-Released u = ground (
    arith,
    total-below (u + 1) b.chunks,
    split_off-IsSorted (u + 1) b.chunks h.sorted,
    split_off-Within (2 ^ 64) (u + 1) b.chunks h.wide,
    length-below-split_off (u + 1) b.chunks,
  )

  pub ack_one-Released : (seq : ℕ) → Released b (ack_one b seq)
  unfolding ack_one
  ack_one-Released seq = elim (Option-cases (find seq b.chunks)) [
    | inl e ↦ ground arith
    | inr (chunk, e) ↦
        let sum = total-remove seq b.chunks chunk e in
        let fewer = length-remove seq b.chunks chunk e in
        ground (
          arith,
          sum,
          fewer,
          remove-IsSorted seq b.chunks h.sorted,
          remove-Within (2 ^ 64) seq b.chunks h.wide,
        )
  ]

Released-refl : (b : SendBuffer) → IsValid b → Released b (0, b)
Released-refl b h = record { valid = h; counted = omega arith; bound = refl }

Released-then :
    (b : SendBuffer) (r s : ℕ × SendBuffer)
    → Released b r
    → Released r.1 s
    → Released b (r.0 + s.0, s.1)
Released-then b r s p q = record {
  valid = q.valid;
  counted = omega (arith, p.counted, q.counted);
  bound = q.bound ∙ p.bound;
}

ack_selective-Released :
    (b : SendBuffer) (seqs : List ℕ) → IsValid b → Released b (ack_selective b seqs)
unfolding ack_selective
ack_selective-Released b [] h = Released-refl b h
ack_selective-Released b (seq ∷ seqs) h =
    let one = ack_one-Released b h seq in
    Released-then b (ack_one b seq) (ack_selective (ack_one b seq).1 seqs) one
      (ack_selective-Released (ack_one b seq).1 seqs one.valid)

pub ack_range-Released :
    (b : SendBuffer) (start end : ℕ) → IsValid b → Released b (ack_range b start end)
unfolding ack_range
ack_range-Released b start end h = elim (Bool-cases (ltb end start)) [
  | inl y ↦ rw y (Released-refl b h)
  | inr n ↦ rw n (ack_selective-Released b (range_keys start end b.chunks) h)
]

ack_ranges-Released :
    (b : SendBuffer) (ranges : List SackRange) → IsValid b → Released b (ack_ranges b ranges)
unfolding ack_ranges
ack_ranges-Released b [] h = Released-refl b h
ack_ranges-Released b (r ∷ rs) h =
    let one = ack_range-Released b r.start r.end h in
    let b' = (ack_range b r.start r.end).1 in
    Released-then b (ack_range b r.start r.end) (ack_ranges b' rs) one
      (ack_ranges-Released b' rs one.valid)

pub ack_below-Released :
    (b : SendBuffer) (up_to : Option ℕ) → IsValid b → Released b (ack_below b up_to)
unfolding ack_below
ack_below-Released b none h = Released-refl b h
ack_below-Released b (some up_to) h = ack_cumulative-Released b h up_to

-- Applying any ack keeps a send buffer valid and its bound as it was, and returns the number of the
-- chunks that it released.
pub apply_ack-Released :
    (b : SendBuffer) (next_expected : ℕ) (ranges : List SackRange)
    → IsValid b
    → Released b (apply_ack b next_expected ranges)
unfolding apply_ack
apply_ack-Released b n ranges h =
    let low = ack_below-Released b (checked_sub n 1) h in
    let b' = (ack_below b (checked_sub n 1)).1 in
    Released-then b (ack_below b (checked_sub n 1)) (ack_ranges b' ranges) low
      (ack_ranges-Released b' ranges low.valid)

abbrev after_push : SendBuffer → ℕ → List ℕ → SendBuffer
after_push b sequence bytes = record b {
  chunks = insert sequence bytes b.chunks;
  buffered_bytes = b.buffered_bytes - old_size (find sequence b.chunks) + length bytes;
}

-- A push of a 64-bit sequence onto a valid send buffer is refused, with both sizes in the error,
-- when the buffer holds a chunk and the new bytes would pass the bound; otherwise it stores the
-- bytes under their sequence, leaves every other entry and the bound as they were, and the buffer
-- stays valid.
pub push_cases :
    (b : SendBuffer) (sequence : ℕ) (bytes : List ℕ)
    → IsValid b
    → IsU64 sequence
    → ((0 < length b.chunks)
        × (b.max_bytes < b.buffered_bytes + length bytes)
        × (push b sequence bytes ≡ err (send_buffer_full b.buffered_bytes b.max_bytes)))
      ⊎ ((b' : SendBuffer) × (push b sequence bytes ≡ ok b')
          × IsValid b'
          × (b'.max_bytes ≡ b.max_bytes)
          × ((k : ℕ) → find k b'.chunks ≡ (if sequence == k then some bytes else find k b.chunks)))
unfolding push
push_cases b seq v h wide =
    elim (Bool-cases (not (is_empty b) && ltb b.max_bytes (b.buffered_bytes + length v))) [
      | inl full ↦ inl (unfold is_empty in ground arith, ground arith, rw full)
      | inr fits ↦ inr (
        after_push b seq v,
        rw fits,
        push-IsValid b seq v h wide (rw fits),
        refl,
        λ k. find-insert seq k v b.chunks,
      )
    ]

-- What a successful push stores.
pub chunks-push :
    (b : SendBuffer) (sequence : ℕ) (bytes : List ℕ) {b' : SendBuffer}
    → push b sequence bytes ≡ ok b'
    → b'.chunks ≡ insert sequence bytes b.chunks
unfolding push
chunks-push b k v {b'} e = ground arith

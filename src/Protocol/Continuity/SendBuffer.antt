-- ===== src/Protocol/Continuity/SendBuffer.antt =====
-- `SendBuffer` of crates/kanrin-protocol/src/continuity.rs: the chunks that the peer has not yet
-- acknowledged, by sequence. A method returns the new buffer beside its result.
pub mod Bytes
pub mod Acks
use kanrin.Common.{
  ℕ, zero, suc, ◌+◌, ◌-◌, ◌*◌, Bool, ◌&&◌, not, List, [], ◌∷◌, Option, none, some, ltb, leb, ◌==◌,
  if◌then◌else◌, length,
}
use kanrin.Common.SortedMap.{Map, find, insert, remove, split_off, below, range_keys}
use kanrin.Common.Word.{checked_add, checked_sub}
use kanrin.Protocol.Error.{Result, ok, err, ◌>>=◌, ◌>>◌, fail_if, send_buffer_full}
use kanrin.Protocol.Wire.Control.{SackRange}

abbrev pub default_max_buffer_bytes : ℕ
default_max_buffer_bytes = 16 * 1024 * 1024

-- A `BufferedChunk` is its bytes.
pub record SendBuffer : Type 0 where
  pub chunks : Map (List ℕ)
  pub buffered_bytes : ℕ
  pub max_bytes : ℕ

unfoldable pub new : (max_bytes : ℕ) → SendBuffer
new max_bytes = record { chunks = []; buffered_bytes = 0; max_bytes = max_bytes }

pub with_default_capacity : SendBuffer
unfolding new
with_default_capacity = new default_max_buffer_bytes

pub len : SendBuffer → ℕ
len b = length b.chunks

unfoldable pub is_empty : SendBuffer → Bool
is_empty b = length b.chunks == 0

pub is_full : SendBuffer → Bool
is_full b = leb b.max_bytes b.buffered_bytes

-- `unacked()`: the entries in ascending order.
abbrev pub unacked : SendBuffer → List (ℕ × List ℕ)
unacked b = b.chunks

first_key : Map (List ℕ) → Option ℕ
first_key [] = none
first_key ((k, v) ∷ m) = some k

lowest_unacked : SendBuffer → Option ℕ
unfolding first_key
lowest_unacked b = first_key b.chunks

-- The bytes of a chunk that an insertion replaces.
abbrev pub old_size : Option (List ℕ) → ℕ
old_size none = 0
old_size (some old) = length old

unfoldable pub push : SendBuffer → (sequence : ℕ) → (bytes : List ℕ) → Result SendBuffer
unfolding is_empty
push b sequence bytes = do
  fail_if (not (is_empty b) && ltb b.max_bytes (b.buffered_bytes + length bytes))
      (send_buffer_full b.buffered_bytes b.max_bytes)
  ok (record b {
    chunks = insert sequence bytes b.chunks;
    buffered_bytes = b.buffered_bytes - old_size (find sequence b.chunks) + length bytes;
  })

-- `values().map(|c| c.data.len()).sum()`
unfoldable pub total : Map (List ℕ) → ℕ
total [] = 0
total ((k, v) ∷ m) = length v + total m

-- What the acknowledgement of `up_to` keeps, and what it takes away.
retained_by : Option ℕ → Map (List ℕ) → Map (List ℕ)
retained_by none m = []
retained_by (some boundary) m = split_off boundary m

removed_by : Option ℕ → Map (List ℕ) → Map (List ℕ)
removed_by none m = m
removed_by (some boundary) m = below boundary m

pub ack_cumulative : SendBuffer → (up_to : ℕ) → ℕ × SendBuffer
unfolding total retained_by removed_by
ack_cumulative b up_to =
    let removed = removed_by (checked_add up_to 1) b.chunks in
    (
      length removed,
      record b {
        chunks = retained_by (checked_add up_to 1) b.chunks;
        buffered_bytes = b.buffered_bytes - total removed;
      },
    )

-- One round of the loop of `ack_selective`.
pub ack_one : SendBuffer → (seq : ℕ) → ℕ × SendBuffer
ack_one b seq = elim (find seq b.chunks) [
  | none ↦ (0, b)
  | some chunk ↦ (
    1,
    record b { chunks = remove seq b.chunks; buffered_bytes = b.buffered_bytes - length chunk },
  )
]

pub ack_selective : SendBuffer → (sequences : List ℕ) → ℕ × SendBuffer
ack_selective b [] = (0, b)
ack_selective b (seq ∷ seqs) =
    let (one, b') = ack_one b seq in let (rest, b'') = ack_selective b' seqs in (one + rest, b'')

pub ack_range : SendBuffer → (start end : ℕ) → ℕ × SendBuffer
ack_range b start end =
    if ltb end start then (0, b) else ack_selective b (range_keys start end b.chunks)

-- The sum over the ranges of an ack.
pub ack_ranges : SendBuffer → List SackRange → ℕ × SendBuffer
ack_ranges b [] = (0, b)
ack_ranges b (r ∷ rs) =
    let (one, b') = ack_range b r.start r.end in
    let (rest, b'') = ack_ranges b' rs in (one + rest, b'')

pub ack_below : SendBuffer → Option ℕ → ℕ × SendBuffer
ack_below b none = (0, b)
ack_below b (some up_to) = ack_cumulative b up_to

pub apply_ack : SendBuffer → (next_expected : ℕ) → List SackRange → ℕ × SendBuffer
apply_ack b next_expected ranges =
    let (cumulative, b') = ack_below b (checked_sub next_expected 1) in
    let (selective, b'') = ack_ranges b' ranges in (cumulative + selective, b'')

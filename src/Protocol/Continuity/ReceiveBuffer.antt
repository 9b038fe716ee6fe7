-- ===== src/Protocol/Continuity/ReceiveBuffer.antt =====
-- `ReceiveBuffer` of crates/kanrin-protocol/src/continuity.rs: chunks in, payloads out in order.
-- A method returns the new buffer beside its result; `Vec` and payloads are lists.
pub mod Inv
pub mod Progress
pub mod Stream
pub mod Ack
use kanrin.Common.{
  ℕ, zero, suc, ◌+◌, ◌-◌, Bool, ◌||◌, List, [], ◌∷◌, ◌++◌, Option, none, some, ltb, leb, ◌==◌,
  if◌then◌else◌, length,
}
use kanrin.Common.SortedMap.{Map, find, contains_key, insert, remove, keys}
use kanrin.Common.Word.{add_u64}
use kanrin.Protocol.Error.{Result, ok, ◌>>=◌, ◌>>◌, fail_if, receive_buffer_full}
use kanrin.Protocol.Continuity.SendBuffer.{default_max_buffer_bytes}
use kanrin.Protocol.Wire.Control.{ControlMessage, ack, SackRange, max_sack_ranges}

pub data Received : Type 0 where
  ready buffered duplicate : Received

pub record ReceiveBuffer : Type 0 where
  pub next_expected : ℕ
  pub pending : Map (List ℕ)
  pub ready : List (List ℕ)
  pub buffered_bytes : ℕ
  pub max_bytes : ℕ

unfoldable pub new : (max_bytes : ℕ) → ReceiveBuffer
new max_bytes = record {
  next_expected = 0;
  pending = [];
  ready = [];
  buffered_bytes = 0;
  max_bytes = max_bytes;
}

pub with_default_capacity : ReceiveBuffer
unfolding new
with_default_capacity = new default_max_buffer_bytes

-- One payload delivered in order.
unfoldable pub push_ready : ReceiveBuffer → List ℕ → ReceiveBuffer
push_ready r payload = record r {
  ready = r.ready ++ (payload ∷ []);
  next_expected = add_u64 r.next_expected 1;
}

-- The body of the `while let`: a pending payload that has become the next one.
unfoldable pub unblock : ReceiveBuffer → List ℕ → ReceiveBuffer
unfolding push_ready
unblock r next =
    push_ready
      (record r {
        pending = remove r.next_expected r.pending;
        buffered_bytes = r.buffered_bytes - length next;
      })
      next

-- The loop itself. Each round takes an entry off `pending`, so its length is fuel enough.
unfoldable pub deliver : (fuel : ℕ) → ReceiveBuffer → ReceiveBuffer
deliver zero r = r
deliver (suc fuel) r = elim (find r.next_expected r.pending) [
  | none ↦ r
  | some next ↦ deliver fuel (unblock r next)
]

-- A chunk ahead of the gap is held, if it fits.
unfoldable pub hold :
    ReceiveBuffer → (sequence : ℕ) → (payload : List ℕ) → Result (Received × ReceiveBuffer)
hold r sequence payload = do
  fail_if (ltb r.max_bytes (r.buffered_bytes + length payload))
      (receive_buffer_full r.buffered_bytes r.max_bytes)
  ok (
    buffered,
    record r {
      buffered_bytes = r.buffered_bytes + length payload;
      pending = insert sequence payload r.pending;
    },
  )

unfoldable pub accept :
    ReceiveBuffer → (sequence : ℕ) → (payload : List ℕ) → Result (Received × ReceiveBuffer)
unfolding hold
accept r sequence payload =
    if ltb sequence r.next_expected || contains_key sequence r.pending
    then ok (duplicate, r)
    else if ltb r.next_expected sequence
    then hold r sequence payload
    else ok (ready, deliver (length r.pending) (push_ready r payload))

unfoldable pub drain_ready : ReceiveBuffer → List (List ℕ) × ReceiveBuffer
drain_ready r = (r.ready, record r { ready = [] })

-- The loop of `build_ack` with a last range, which is not yet closed, behind `closed` others.
unfoldable pub coalesce : (closed : ℕ) → (last : SackRange) → List ℕ → List SackRange
coalesce closed last [] = last ∷ []
coalesce closed last (seq ∷ seqs) =
    let extended = coalesce closed (record last { end = seq }) seqs in
    let opened = last ∷ coalesce (suc closed) (record { start = seq; end = seq }) seqs in
    if add_u64 last.end 1 == seq
    then extended
    else if suc closed == max_sack_ranges
    then last ∷ []
    else opened

unfoldable pub sack_ranges : List ℕ → List SackRange
sack_ranges [] = []
sack_ranges (seq ∷ seqs) = coalesce 0 (record { start = seq; end = seq }) seqs

pub build_ack : ReceiveBuffer → ControlMessage
build_ack r = ack r.next_expected (sack_ranges (keys r.pending))

pending_len : ReceiveBuffer → ℕ
pending_len r = length r.pending

pub is_full : ReceiveBuffer → Bool
is_full r = leb r.max_bytes r.buffered_bytes

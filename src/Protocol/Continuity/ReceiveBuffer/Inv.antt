-- ===== src/Protocol/Continuity/ReceiveBuffer/Inv.antt =====
-- The invariant of the receive buffer.
use kanrin.Common.{
  ℕ, zero, suc, ◌+◌, ◌-◌, ◌^◌, ◌≤◌, ◌<◌, ◌≡◌, List, [], ◌∷◌, none, some, arith, length,
  Option-cases, inl, inr,
}
use kanrin.Common.SortedMap.{Map, Above, Within, find, remove}
use kanrin.Common.SortedMap.Laws.{
  Above-IsSorted, insert-IsSorted, insert-Above, length-remove, contains_key-find, find-Above,
}
use kanrin.Common.SortedMap.Bounds.{insert-Within, remove-Within}
use kanrin.Protocol.Error.{ok}
use kanrin.Protocol.Continuity.SendBuffer.{total}
use kanrin.Protocol.Continuity.SendBuffer.Bytes.{total-insert, total-remove}
use kanrin.Protocol.Continuity.ReceiveBuffer.{
  ReceiveBuffer, Received, new, push_ready, unblock, deliver, accept, drain_ready,
}

-- Every sequence in use is below 2^64 - 1, so that the cursor does not wrap.
abbrev pub max_sequence : ℕ
max_sequence = 2 ^ 64 - 1

pub record IsValid (r : ReceiveBuffer) : Type 0 where
  pub above : Above r.next_expected r.pending
  pub wide : Within max_sequence r.pending
  pub cursor : r.next_expected ≤ max_sequence
  pub accounted : r.buffered_bytes ≡ total r.pending
  pub bounded : r.buffered_bytes ≤ r.max_bytes

-- In order, with no key below `n`.
abbrev pub From : ℕ → Map (List ℕ) → Type 0
From n [] = Unit {0}
From n ((k, v) ∷ m) = (n ≤ k) × Above k m

Above-From : (n : ℕ) (m : Map (List ℕ)) → Above n m → From (n + 1) m
Above-From n [] h = tt
Above-From n ((k, v) ∷ m) h = (omega arith, h.1)

-- Taking the entry at the lower bound off raises the bound.
From-remove :
    (n : ℕ) (m : Map (List ℕ)) (v : List ℕ)
    → From n m
    → find n m ≡ some v
    → From (n + 1) (remove n m)
unfolding find remove
From-remove n [] v h e = cc
From-remove n ((k, w) ∷ m) v h e = ground (arith, Above-From k m h.1, find-Above k n m h.1)

From-Above : (n : ℕ) (m : Map (List ℕ)) → From n m → find n m ≡ none → Above n m
unfolding find
From-Above n [] h e = tt
From-Above n ((k, v) ∷ m) h e = ground arith

pub From-lt :
    (n top : ℕ) (m : Map (List ℕ)) (v : List ℕ) → Within top m → find n m ≡ some v → n < top
unfolding find
From-lt n top [] v h e = cc
From-lt n top ((k, w) ∷ m) v h e = ground (arith, From-lt n top m v h.1)

-- In the loop the entry at the cursor may still be pending.
pub record IsOpen (r : ReceiveBuffer) : Type 0 where
  pub from : From r.next_expected r.pending
  pub wide : Within max_sequence r.pending
  pub cursor : r.next_expected ≤ max_sequence
  pub accounted : r.buffered_bytes ≡ total r.pending
  pub bounded : r.buffered_bytes ≤ r.max_bytes

pub unblock-IsOpen :
    (r : ReceiveBuffer) (v : List ℕ)
    → IsOpen r
    → find r.next_expected r.pending ≡ some v
    → IsOpen (unblock r v)
unfolding unblock push_ready
unblock-IsOpen r v h e = ground (
  arith,
  From-remove r.next_expected r.pending v h.from e,
  From-lt r.next_expected max_sequence r.pending v h.wide e,
  remove-Within max_sequence r.next_expected r.pending h.wide,
  total-remove r.next_expected r.pending v e,
)

unblock_room :
    (fuel : ℕ) (r : ReceiveBuffer) (v : List ℕ)
    → length r.pending ≤ suc fuel
    → find r.next_expected r.pending ≡ some v
    → length (unblock r v).pending ≤ fuel
unfolding unblock push_ready
unblock_room fuel r v room e = omega (arith, length-remove r.next_expected r.pending v e)

Above-empty : (n : ℕ) (m : Map (List ℕ)) → length m ≤ 0 → Above n m
Above-empty n [] h = tt
Above-empty n ((k, v) ∷ m) h = absurd (omega arith)

-- With fuel for every pending entry the loop ends where nothing more is unblocked.
deliver-IsValid :
    (fuel : ℕ) (r : ReceiveBuffer) → length r.pending ≤ fuel → IsOpen r → IsValid (deliver fuel r)
unfolding deliver
deliver-IsValid zero r room h = record {
  above = Above-empty r.next_expected r.pending (omega arith);
  wide = h.wide;
  cursor = h.cursor;
  accounted = h.accounted;
  bounded = h.bounded;
}
deliver-IsValid (suc fuel) r room h = elim (Option-cases (find r.next_expected r.pending)) [
  | inl e ↦
      rw (e, deliver)
        (record {
          above = From-Above r.next_expected r.pending h.from e;
          wide = h.wide;
          cursor = h.cursor;
          accounted = h.accounted;
          bounded = h.bounded;
        })
  | inr (v, e) ↦
      rw (e, deliver)
        (deliver-IsValid fuel (unblock r v) (unblock_room fuel r v room e) (unblock-IsOpen r v h e))
]

pub push_ready-IsOpen :
    (r : ReceiveBuffer) (v : List ℕ)
    → IsValid r
    → r.next_expected < max_sequence
    → IsOpen (push_ready r v)
unfolding push_ready
push_ready-IsOpen r v h room = ground (arith, Above-From r.next_expected r.pending h.above)

push_ready_room :
    (r : ReceiveBuffer) (v : List ℕ) → length (push_ready r v).pending ≤ length r.pending
unfolding push_ready
push_ready_room r v = omega arith

pub new-IsValid : (max_bytes : ℕ) → IsValid (new max_bytes)
unfolding new total
new-IsValid max_bytes = omega arith

pub drain_ready-IsValid : (r : ReceiveBuffer) → IsValid r → IsValid (drain_ready r).1
unfolding drain_ready
drain_ready-IsValid r h = ground arith

-- Accepting a chunk whose sequence is below 2^64 - 1 keeps a receive buffer valid: what is held is
-- above the cursor, in order, exactly accounted and within the byte bound.
pub accept-IsValid :
    (r : ReceiveBuffer) (sequence : ℕ) (payload : List ℕ) {result : Received} {r' : ReceiveBuffer}
    → IsValid r
    → sequence < max_sequence
    → accept r sequence payload ≡ ok (result, r')
    → IsValid r'
unfolding accept
accept-IsValid r k v {result} {r'} h small e = ground (
  arith,
  contains_key-find k r.pending,
  insert-IsSorted k v r.pending (Above-IsSorted r.next_expected r.pending h.above),
  insert-Above k v r.next_expected r.pending h.above,
  insert-Within max_sequence k v r.pending h.wide,
  total-insert k v r.pending (Above-IsSorted r.next_expected r.pending h.above),
  push_ready-IsOpen r v h,
  deliver-IsValid (length r.pending) (push_ready r v) (push_ready_room r v),
)

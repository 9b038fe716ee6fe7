-- ===== src/Protocol/Continuity/ReceiveBuffer/Progress.antt =====
-- What has been received stays received, and the cursor passes everything that has.
use kanrin.Common.{
  ℕ, zero, suc, ◌≤◌, ◌<◌, ◌≡◌, refl, sym, ◌∙◌, Bool, true, false, ◌||◌, List, some, arith, length,
  Bool-cases, Option-cases, inl, inr, ltb, ◌==◌, ltb,
}
use kanrin.Common.SortedMap.{find, contains_key}
use kanrin.Common.SortedMap.Laws.{contains_key-insert, contains_key-Above, contains_key-remove_ne}
use kanrin.Protocol.Error.{ok}
use kanrin.Protocol.Continuity.ReceiveBuffer.{
  ReceiveBuffer, Received, push_ready, unblock, deliver, accept, drain_ready,
}
use kanrin.Protocol.Continuity.ReceiveBuffer.Inv.{
  IsValid, IsOpen, max_sequence, unblock-IsOpen, push_ready-IsOpen, From-lt,
}
use native.Mathlib.Decide.{dec_lt}

-- The sequence has been delivered or is held.
abbrev pub received : ℕ → ReceiveBuffer → Bool
received k r = ltb k r.next_expected || contains_key k r.pending

module _ (k : ℕ) where
  unblock-received :
      (r : ReceiveBuffer) (v : List ℕ)
      → IsOpen r
      → find r.next_expected r.pending ≡ some v
      → received k r ≡ true
      → received k (unblock r v) ≡ true
  unfolding unblock push_ready
  unblock-received r v h e got = ground (
    arith,
    From-lt r.next_expected max_sequence r.pending v h.wide e,
    contains_key-remove_ne r.next_expected k r.pending,
  )

  deliver-received :
      (fuel : ℕ) (r : ReceiveBuffer)
      → IsOpen r
      → received k r ≡ true
      → received k (deliver fuel r) ≡ true
  unfolding deliver
  deliver-received zero r h got = got
  deliver-received (suc fuel) r h got = elim (Option-cases (find r.next_expected r.pending)) [
    | inl e ↦ rw (e, deliver) got
    | inr (v, e) ↦
        rw (e, deliver)
          (deliver-received fuel (unblock r v) (unblock-IsOpen r v h e)
            (unblock-received r v h e got))
  ]

  push_ready-received :
      (r : ReceiveBuffer) (v : List ℕ)
      → r.next_expected < max_sequence
      → (received k r || (r.next_expected == k)) ≡ true
      → received k (push_ready r v) ≡ true
  unfolding push_ready
  push_ready-received r v room got = ground arith

  -- After a chunk with a sequence below 2^64 - 1 is accepted by a valid buffer, its sequence counts
  -- as received, and so does every sequence that did before.
  pub accept-received :
      (r : ReceiveBuffer) (sequence : ℕ) (payload : List ℕ) {result : Received} {r' : ReceiveBuffer}
      → IsValid r
      → sequence < max_sequence
      → accept r sequence payload ≡ ok (result, r')
      → (received k r || (sequence == k)) ≡ true
      → received k r' ≡ true
  unfolding accept
  accept-received r seq v {result} {r'} h small e got = ground (
    arith,
    contains_key-insert seq k v r.pending,
    push_ready-received r v,
    push_ready-IsOpen r v h,
    deliver-received (length r.pending) (push_ready r v),
  )

-- The cursor itself is never among what was received.
cursor-not-received : (r : ReceiveBuffer) → IsValid r → received r.next_expected r ≡ false
cursor-not-received r h =
    ground (arith, contains_key-Above r.next_expected r.next_expected r.pending h.above)

-- Once every sequence below n has been received by a valid buffer, its cursor is at n or beyond: no
-- chunk that could be delivered is held back.
pub next_expected_caught_up :
    (n : ℕ) (r : ReceiveBuffer)
    → IsValid r
    → ((k : ℕ) → k < n → received k r ≡ true)
    → n ≤ r.next_expected
next_expected_caught_up n r h all = elim (dec_lt r.next_expected n) [
  | yes behind ↦
      absurd
        (let e : true ≡ false = sym (all r.next_expected behind) ∙ cursor-not-received r h in cc)
  | no ahead ↦ omega arith
]

pub received-drain_ready : (k : ℕ) (r : ReceiveBuffer) → received k (drain_ready r).1 ≡ received k r
unfolding drain_ready
received-drain_ready k r = refl

-- A chunk at or below the cursor is never refused.
pub accept_in_order :
    (r : ReceiveBuffer) (sequence : ℕ) (payload : List ℕ)
    → sequence ≤ r.next_expected
    → (result : Received) × (r' : ReceiveBuffer) × (accept r sequence payload ≡ ok (result, r'))
unfolding accept
accept_in_order r k v h = elim (Bool-cases (ltb k r.next_expected || contains_key k r.pending)) [
  | inl old ↦ (Received.duplicate, r, rw old)
  | inr fresh ↦ (Received.ready, deliver (length r.pending) (push_ready r v), ground arith)
]

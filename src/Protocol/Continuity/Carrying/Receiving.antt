-- ===== src/Protocol/Continuity/Carrying/Receiving.antt =====
-- What a chunk that is read does to the receive buffer.
use kanrin.Common.{
  ℕ, zero, suc, ◌≡◌, ◌≤◌, ◌<◌, refl, sym, ◌∙◌, true, ◌&&◌, ◌||◌, List, [], some, arith, length,
  ◌==◌, Bool-cases, Option-cases, inl, inr,
}
use kanrin.Common.SortedMap.{find}
use kanrin.Common.SortedMap.Laws.{contains_key-find, contains_key-insert, contains_key-remove_ne}
use kanrin.Protocol.Error.{Result, ok, err, panic}
use kanrin.Protocol.Wire.Chunk.{Chunk}
use kanrin.Protocol.Continuity.ReceiveBuffer.{
  ReceiveBuffer, Received, ready, buffered, duplicate, accept, hold, push_ready, unblock, deliver,
}
use kanrin.Protocol.Continuity.ReceiveBuffer.Inv.{
  IsValid, max_sequence, accept-IsValid, drain_ready-IsValid,
}
use kanrin.Protocol.Continuity.ReceiveBuffer.Progress.{
  received, accept-received, received-drain_ready, accept_in_order,
}
use kanrin.Protocol.Continuity.Carrying.{is_data, after_accept, take_chunk}

module _ (k : ℕ) where
  unblock-received_only :
      (r : ReceiveBuffer) (v : List ℕ)
      → find r.next_expected r.pending ≡ some v
      → received k (unblock r v) ≡ true
      → received k r ≡ true
  unfolding unblock push_ready
  unblock-received_only r v e got = ground (
    arith,
    e,
    contains_key-find r.next_expected r.pending,
    contains_key-remove_ne r.next_expected k r.pending,
  )

  deliver-received_only :
      (fuel : ℕ) (r : ReceiveBuffer) → received k (deliver fuel r) ≡ true → received k r ≡ true
  unfolding deliver
  deliver-received_only zero r got = got
  deliver-received_only (suc fuel) r got = elim (Option-cases (find r.next_expected r.pending)) [
    | inl e ↦ rw (e, deliver) at got
    | inr (v, e) ↦
        unblock-received_only r v e
          (deliver-received_only fuel (unblock r v) (rw (e, deliver) at got))
  ]

  -- Accepting a chunk makes no other sequence count as received.
  accept-received_only :
      (r : ReceiveBuffer) (sequence : ℕ) (payload : List ℕ) {result : Received} {r' : ReceiveBuffer}
      → accept r sequence payload ≡ ok (result, r')
      → received k r' ≡ true
      → (received k r || (sequence == k)) ≡ true
  unfolding accept hold push_ready
  accept-received_only r seq v {result} {r'} e got = ground (
    arith,
    contains_key-insert seq k v r.pending,
    deliver-received_only (length r.pending) (push_ready r v),
  )

-- The buffer after a chunk: still valid, with all that it had received before, with this one if it
-- is data that fits in order, and with nothing else.
pub record Taken (r : ReceiveBuffer) (c : Chunk) : Type 0 where
  pub valid : IsValid (take_chunk r c).1
  pub more : (j : ℕ) → received j r ≡ true → received j (take_chunk r c).1 ≡ true
  pub only :
      (j : ℕ)
      → received j (take_chunk r c).1 ≡ true
      → (received j r || (is_data c && (c.header.sequence == j))) ≡ true
  pub in_order :
      is_data c ≡ true
      → c.header.sequence ≤ r.next_expected
      → received c.header.sequence (take_chunk r c).1 ≡ true

after_accept-ok :
    (r : ReceiveBuffer) (result : Received) (r' : ReceiveBuffer)
    → IsValid r'
    → IsValid (after_accept r (ok (result, r'))).1
      × ((j : ℕ) → received j (after_accept r (ok (result, r'))).1 ≡ received j r')
unfolding after_accept
after_accept-ok r duplicate r' h = (h, λ j. refl)
after_accept-ok r ready r' h = (drain_ready-IsValid r' h, λ j. received-drain_ready j r')
after_accept-ok r buffered r' h = (drain_ready-IsValid r' h, λ j. received-drain_ready j r')

pub take_chunk-Taken :
    (r : ReceiveBuffer) (c : Chunk) → IsValid r → c.header.sequence < max_sequence → Taken r c
unfolding take_chunk after_accept
take_chunk-Taken r c h small = elim (Bool-cases (is_data c)) [
  | inr other ↦ record {
    valid = rw (take_chunk, other) h;
    more = λ j got. rw (take_chunk, other) got;
    only = λ j got.
        let same : received j r ≡ true = rw (take_chunk, other) at got in ground (arith, same);
    in_order = λ is. absurd (ground (arith, is, other));
  }
  | inl data_one ↦ accepted data_one (accept r c.header.sequence c.payload) refl
]
  where
    dropped :
        is_data c ≡ true
        → take_chunk r c ≡ ([], r)
        → (c.header.sequence ≤ r.next_expected → ⊥)
        → Taken r c
    dropped is e ahead = record {
      valid = rw e h;
      more = λ j got. rw e got;
      only = λ j got. let same : received j r ≡ true = rw e at got in ground (arith, same);
      in_order = λ _ low. absurd (ahead low);
    }

    accepted :
        is_data c ≡ true
        → (x : Result (Received × ReceiveBuffer)) → accept r c.header.sequence c.payload ≡ x
        → Taken r c
    accepted is (err e) refused = dropped is (rw (take_chunk, is, refused) refl) (λ low.
        let (result, r', good) = accept_in_order r c.header.sequence c.payload low in
        ground (arith, refused, good))
    accepted is panic refused = dropped is (rw (take_chunk, is, refused) refl) (λ low.
        let (result, r', good) = accept_in_order r c.header.sequence c.payload low in
        ground (arith, refused, good))
    accepted is (ok (result, r')) e =
        let (valid, same) =
          after_accept-ok r result r'
            (accept-IsValid r c.header.sequence c.payload {result = result} h small e) in
        record {
          valid = rw (take_chunk, is, e) valid;
          more = λ j got.
              rw (take_chunk, is, e)
                (same j
                  ∙ accept-received j r c.header.sequence c.payload h small e
                      (ground (arith, got)));
          only = λ j got. ground (
            arith,
            is,
            accept-received_only j r c.header.sequence c.payload e
                (sym (same j) ∙ (rw (take_chunk, is, e) at got)),
          );
          in_order = λ _ _.
              rw (take_chunk, is, e)
                (same c.header.sequence
                  ∙ accept-received c.header.sequence r c.header.sequence c.payload h small e
                      (ground arith));
        }

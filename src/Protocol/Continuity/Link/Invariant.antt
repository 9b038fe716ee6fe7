-- ===== src/Protocol/Continuity/Link/Invariant.antt =====
-- What every step of a channel keeps: what was retained is with the receiver or in the send buffer.
use kanrin.Common.{
  ℕ, ◌<◌, ◌≡◌, ◌∙◌, refl, Bool, true, false, not, ◌&&◌, ◌||◌, ◌==◌, Bool-cases, inl, inr, List, [],
  ◌∷◌, ◌++◌, some, if◌then◌else◌, arith, All, length,
}
use kanrin.Common.SortedMap.{Within, find, contains_key}
use kanrin.Common.SortedMap.Laws.{find-contains_key, contains_key-find}
use kanrin.Common.SortedMap.Bounds.{Within-of_find, find-Within}
use kanrin.Common.Word.{IsU64}
use kanrin.Protocol.Error.{ok}
use kanrin.Protocol.Wire.Control.{SackRange}
use kanrin.Protocol.Continuity.SendBuffer
use kanrin.Protocol.Continuity.SendBuffer.{SendBuffer}
use kanrin.Protocol.Continuity.SendBuffer.Bytes.{push-IsValid, chunks-push, apply_ack-Released}
use kanrin.Protocol.Continuity.SendBuffer.Acks.{acked, find-apply_ack}
use kanrin.Protocol.Continuity.ReceiveBuffer as Receiver
use kanrin.Protocol.Continuity.ReceiveBuffer.{ReceiveBuffer, Received, sack_ranges}
use kanrin.Protocol.Continuity.ReceiveBuffer.Inv.{
  max_sequence, accept-IsValid, drain_ready-IsValid, new-IsValid,
}
use kanrin.Protocol.Continuity.ReceiveBuffer.Progress.{received}
use kanrin.Protocol.Crypto.{Primitives, SessionKeys}
use kanrin.Protocol.Wire.Chunk.{Chunk}
use kanrin.Protocol.Wire.Chunk.RoundTrip.{IsChunk, renumber}
use kanrin.Protocol.Session as Sessions
use kanrin.Protocol.Session.{Session, encrypt_outgoing}
use kanrin.Protocol.Session.Outgoing.{encrypt_outgoing-Sealed}
use kanrin.Protocol.Continuity.Carrying.{is_data, take_chunk, write_chunk, read_chunk}
use kanrin.Protocol.Continuity.Carrying.Sending.{
  was_retained, was_retained-is_data, retain_data-Retained,
}
use kanrin.Protocol.Continuity.Carrying.Receiving.{take_chunk-Taken}
use kanrin.Protocol.Continuity.Link.{Channel, WrittenAs, start, listed}
use kanrin.Protocol.Continuity.Link.Ends.{write_chunk-ok, read_chunk-WrittenAs}

-- The ack is well formed, and true of the receiver.
pub record IsTrue (r : ReceiveBuffer) (a : ℕ × List SackRange) : Type 0 where
  pub small : IsU64 a.0
  pub true_of : (k : ℕ) → acked a.0 a.1 k ≡ true → received k r ≡ true

-- What the run so far guarantees.
module _ (prim : Primitives) (shared : SessionKeys) (is_client : Bool) (chunks : ℕ → Chunk)
    (padding : ℕ → List ℕ) where
  pub record IsLossless (c : Channel) : Type 0 where
    pub sending_keys : c.sending.keys ≡ shared
    pub receiving_keys : c.receiving.keys ≡ shared
    pub sender_valid : SendBuffer.Bytes.IsValid c.sender
    pub receiver_valid : Receiver.Inv.IsValid c.receiver
    pub sent_small : c.sending.send_seq < max_sequence
    pub unsent : Within c.sending.send_seq c.sender.chunks
    -- What is in the send buffer is what was written.
    pub content :
        (k : ℕ) (bytes : List ℕ)
        → find k c.sender.chunks ≡ some bytes
        → WrittenAs prim shared is_client chunks padding k bytes
    -- Only data was retained, and nothing of it is lost.
    pub retained_data : (k : ℕ) → listed k c.retained ≡ true → is_data (chunks k) ≡ true
    pub kept :
        (k : ℕ)
        → listed k c.retained ≡ true
        → (received k c.receiver || contains_key k c.sender.chunks) ≡ true
    -- A sequence that was not given to data never counts as received.
    pub silent : (k : ℕ) → is_data (chunks k) ≡ false → received k c.receiver ≡ false
    pub acks_true : All (IsTrue c.receiver) c.acks

IsTrue-mono :
    (r r' : ReceiveBuffer) (rest : List (ℕ × List SackRange))
    → ((k : ℕ) → received k r ≡ true → received k r' ≡ true)
    → All (IsTrue r) rest
    → All (IsTrue r') rest
IsTrue-mono r r' [] more h = tt
IsTrue-mono r r' (a ∷ rest) more h = (
  record { small = h.0.small; true_of = λ k e. more k (h.0.true_of k e) },
  IsTrue-mono r r' rest more h.1,
)

pub All-middle :
    {A : Type 0} (P : A → Type 0) (xs : List A) (a : A) (ys : List A) → All P (xs ++ (a ∷ ys)) → P a
All-middle P [] a ys h = h.0
All-middle P (x ∷ xs) a ys h = All-middle P xs a ys h.1

-- What an ack that is true of the receiver leaves of the send buffer.
module _ (b : SendBuffer) (n : ℕ) (ranges : List SackRange) (h : SendBuffer.Bytes.IsValid b)
    (small : IsU64 n) where
  pub contains_key-apply_ack :
      (k : ℕ)
      → contains_key k b.chunks ≡ true
      → (acked n ranges k || contains_key k (SendBuffer.apply_ack b n ranges).1.chunks) ≡ true
  contains_key-apply_ack k there =
      let (v, found) = find-contains_key k b.chunks there in
      ground (
        arith,
        find-apply_ack b n ranges k h small,
        found,
        contains_key-find k (SendBuffer.apply_ack b n ranges).1.chunks,
      )

  pub apply_ack-Within :
      (top : ℕ) → Within top b.chunks → Within top (SendBuffer.apply_ack b n ranges).1.chunks
  apply_ack-Within top w =
      Within-of_find top (SendBuffer.apply_ack b n ranges).1.chunks
        λ k p. ground (arith, find-apply_ack b n ranges k h small, find-Within top k b.chunks w p)

module _ (prim : Primitives) (shared : SessionKeys) (is_client : Bool) (chunks : ℕ → Chunk)
    (padding : ℕ → List ℕ) where
  pub start-IsLossless :
      (id : List ℕ) (now send_bound receive_bound : ℕ)
      → IsLossless prim shared is_client chunks padding
          (start id shared now send_bound receive_bound)
  unfolding start SendBuffer.new Receiver.new Sessions.new listed find contains_key
  start-IsLossless id now send_bound receive_bound = record {
    sending_keys = refl;
    receiving_keys = refl;
    sender_valid = SendBuffer.Bytes.new-IsValid send_bound;
    receiver_valid = new-IsValid receive_bound;
    sent_small = omega arith;
    unsent = tt;
    content = λ k bytes e. absurd (ground (arith, e));
    retained_data = λ k e. absurd (ground (arith, e));
    kept = λ k e. absurd (ground (arith, e));
    silent = λ k e. ground arith;
    acks_true = tt;
  }

  pub send-IsLossless :
      (c : Channel) (now : ℕ) (bytes : List ℕ) (s : Session) (b : SendBuffer)
      → write_chunk prim c.sending c.sender
          (chunks c.sending.send_seq)
          is_client
          (padding c.sending.send_seq)
          now
        ≡ ok (bytes, s, b)
      → IsLossless prim shared is_client chunks padding c
      → IsLossless prim shared is_client chunks padding (record c {
        sending = s;
        sender = b;
        retained =
            if was_retained c.sender (chunks c.sending.send_seq) c.sending.send_seq bytes
            then c.sending.send_seq ∷ c.retained
            else c.retained;
      })
  unfolding listed
  send-IsLossless c now bytes s b e h =
      let k = c.sending.send_seq in
      let (sealed, same) =
        write_chunk-ok prim c.sending c.sender (chunks k) is_client (padding k) now e in
      let written =
        encrypt_outgoing-Sealed prim c.sending (chunks k) is_client (padding k) now sealed in
      let after =
        retain_data-Retained c.sender (chunks k) k bytes h.sender_valid
          (omega (arith, written.small)) h.unsent in
      record {
        sending_keys = written.same_keys ∙ h.sending_keys;
        receiving_keys = h.receiving_keys;
        sender_valid = rw same after.valid;
        receiver_valid = h.receiver_valid;
        sent_small = omega (arith, written.small, written.counted);
        unsent = rw (written.counted, same) after.within;
        content = λ j v there. elim (after.content j v (rw same at there)) [
          | inl old ↦ h.content j v old
          | inr (new, all) ↦ rw (new, all, ← h.sending_keys) written.sealed
        ];
        retained_data = λ j there. elim (Bool-cases (was_retained c.sender (chunks k) k bytes)) [
          | inr no_data ↦ h.retained_data j (rw no_data at there)
          | inl yes_data ↦ elim (Bool-cases (k == j)) [
            | inl same_k ↦
                let place : k ≡ j = ground (arith, same_k) in
                rw (← place) (was_retained-is_data c.sender (chunks k) k bytes yes_data)
            | inr other ↦ h.retained_data j (ground (arith, there, yes_data, other))
          ]
        ];
        kept =
            λ j there. let held = after.there j in rw same (ground (arith, held, there, h.kept j));
        silent = h.silent;
        acks_true = h.acks_true;
      }

  -- A chunk that is read makes no sequence count as received that was not given to data.
  still_silent :
      (c : Channel) (k : ℕ)
      → IsLossless prim shared is_client chunks padding c
      → (j : ℕ) → is_data (chunks j) ≡ false
      → let r' = (take_chunk c.receiver (renumber (chunks k) k)).1 in
        ((i : ℕ)
          → received i r' ≡ true
          → (received i c.receiver || (is_data (chunks k) && (k == i))) ≡ true)
        → received j r' ≡ false
  still_silent c k h j control only =
      elim (Bool-cases (received j (take_chunk c.receiver (renumber (chunks k) k)).1)) [
        | inr silent ↦ silent
        | inl got ↦ absurd (elim (Bool-cases (k == j)) [
          | inr differ ↦ ground (arith, differ, only j got, h.silent j control)
          | inl same ↦
              let place : k ≡ j = ground (arith, same) in
              ground (arith, rw place at (only j got), control, h.silent j control)
        ])
      ]

  pub arrive-IsLossless :
      (well : (k : ℕ) → IsChunk (chunks k))
      (sized : (k : ℕ) → length (padding k) ≡ (chunks k).header.padding_length) (c : Channel)
      (k now : ℕ) (bytes : List ℕ) (payloads : List (List ℕ)) (t : Session) (r : ReceiveBuffer)
      → k < c.sending.send_seq
      → WrittenAs prim shared is_client chunks padding k bytes
      → read_chunk prim c.receiving c.receiver bytes (not is_client) now ≡ ok (payloads, t, r)
      → IsLossless prim shared is_client chunks padding c
      → IsLossless prim shared is_client chunks padding (record c { receiving = t; receiver = r })
  unfolding is_data
  arrive-IsLossless well sized c k now bytes payloads t r sent written e h =
      let (t', keys', read) =
        read_chunk-WrittenAs prim shared is_client chunks padding well sized c.receiving c.receiver
          k now bytes h.receiving_keys (omega (arith, h.sent_small)) written in
      let chunk = renumber (chunks k) k in
      let taken =
        take_chunk-Taken c.receiver chunk h.receiver_valid (omega (arith, h.sent_small)) in
      let same_r : r ≡ (take_chunk c.receiver chunk).1 = cc in
      let same_t : t ≡ t' = cc in
      record {
        sending_keys = h.sending_keys;
        receiving_keys = rw same_t keys';
        sender_valid = h.sender_valid;
        receiver_valid = rw same_r taken.valid;
        sent_small = h.sent_small;
        unsent = h.unsent;
        content = h.content;
        retained_data = h.retained_data;
        kept = λ j there. rw same_r (ground (arith, h.kept j there, taken.more j));
        silent = λ j control. rw same_r (still_silent c k h j control taken.only);
        acks_true =
            rw same_r (
              IsTrue-mono c.receiver (take_chunk c.receiver chunk).1 c.acks taken.more h.acks_true);
      }

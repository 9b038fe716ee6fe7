-- ===== src/Protocol/Continuity/Link/NoLoss.antt =====
-- Nothing that was retained is lost, and nothing behind a control chunk is delivered.
use kanrin.Common.{ℕ, ◌≤◌, ◌≡◌, Bool, false, List, [], ◌∷◌, arith, length}
use kanrin.Common.SortedMap.{keys}
use kanrin.Protocol.Crypto.{Primitives, SessionKeys}
use kanrin.Protocol.Wire.Control.{SackRange}
use kanrin.Protocol.Wire.Chunk.{Chunk}
use kanrin.Protocol.Wire.Chunk.RoundTrip.{IsChunk}
use kanrin.Protocol.Continuity.SendBuffer
use kanrin.Protocol.Continuity.SendBuffer.Bytes.{apply_ack-Released}
use kanrin.Protocol.Continuity.SendBuffer.Acks.{find-apply_ack}
use kanrin.Protocol.Continuity.ReceiveBuffer.{sack_ranges}
use kanrin.Protocol.Continuity.ReceiveBuffer.Ack.{acked-received}
use kanrin.Protocol.Continuity.Carrying.{is_data}
use kanrin.Protocol.Continuity.Link.{
  Channel, Step, Reach, start, send, arrive, build, announce, apply, here, next,
}
use kanrin.Protocol.Continuity.Link.Invariant.{
  IsTrue, IsLossless, All-middle, contains_key-apply_ack, apply_ack-Within, start-IsLossless,
  send-IsLossless, arrive-IsLossless,
}

module _ (prim : Primitives) (shared : SessionKeys) (is_client : Bool) (chunks : ℕ → Chunk)
    (padding : ℕ → List ℕ) where
  build-IsLossless :
      (c : Channel)
      → IsLossless prim shared is_client chunks padding c
      → IsLossless prim shared is_client chunks padding (record c {
        acks = (c.receiver.next_expected, sack_ranges (keys c.receiver.pending)) ∷ c.acks;
      })
  build-IsLossless c h = record {
    sending_keys = h.sending_keys;
    receiving_keys = h.receiving_keys;
    sender_valid = h.sender_valid;
    receiver_valid = h.receiver_valid;
    sent_small = h.sent_small;
    unsent = h.unsent;
    content = h.content;
    retained_data = h.retained_data;
    kept = h.kept;
    silent = h.silent;
    acks_true = (
      record {
        small = omega (arith, h.receiver_valid.cursor);
        true_of = λ k e. acked-received c.receiver h.receiver_valid k e;
      },
      h.acks_true,
    );
  }

  announce-IsLossless :
      (c : Channel)
      → IsLossless prim shared is_client chunks padding c
      → IsLossless prim shared is_client chunks padding
          (record c { acks = (c.receiver.next_expected, []) ∷ c.acks })
  announce-IsLossless c h = record {
    sending_keys = h.sending_keys;
    receiving_keys = h.receiving_keys;
    sender_valid = h.sender_valid;
    receiver_valid = h.receiver_valid;
    sent_small = h.sent_small;
    unsent = h.unsent;
    content = h.content;
    retained_data = h.retained_data;
    kept = h.kept;
    silent = h.silent;
    acks_true = (
      record { small = omega (arith, h.receiver_valid.cursor); true_of = λ k e. ground (arith, e) },
      h.acks_true,
    );
  }

  apply-IsLossless :
      (c : Channel) (n : ℕ) (ranges : List SackRange)
      → IsTrue c.receiver (n, ranges)
      → IsLossless prim shared is_client chunks padding c
      → IsLossless prim shared is_client chunks padding
          (record c { sender = (SendBuffer.apply_ack c.sender n ranges).1 })
  apply-IsLossless c n ranges genuine h = record {
    sending_keys = h.sending_keys;
    receiving_keys = h.receiving_keys;
    sender_valid = (apply_ack-Released c.sender n ranges h.sender_valid).valid;
    receiver_valid = h.receiver_valid;
    sent_small = h.sent_small;
    unsent =
        apply_ack-Within c.sender n ranges h.sender_valid genuine.small c.sending.send_seq h.unsent;
    content = λ k v there.
        h.content k v
          (ground (arith, there, find-apply_ack c.sender n ranges k h.sender_valid genuine.small));
    retained_data = h.retained_data;
    kept = λ k there. ground (
      arith,
      h.kept k there,
      genuine.true_of k,
      contains_key-apply_ack c.sender n ranges h.sender_valid genuine.small k,
    );
    silent = h.silent;
    acks_true = h.acks_true;
  }

  module _ (well : (k : ℕ) → IsChunk (chunks k))
      (sized : (k : ℕ) → length (padding k) ≡ (chunks k).header.padding_length) where
    Step-IsLossless :
        {c d : Channel}
        → Step prim shared is_client chunks padding c d
        → IsLossless prim shared is_client chunks padding c
        → IsLossless prim shared is_client chunks padding d
    Step-IsLossless {c} (send now bytes s b d e eq) h =
        rw eq (send-IsLossless prim shared is_client chunks padding c now bytes s b e h)
    Step-IsLossless {c} (arrive k now bytes payloads t r d sent written e eq) h = rw eq (
        arrive-IsLossless prim shared is_client chunks padding well sized c k now bytes payloads t r
          sent written e h)
    Step-IsLossless {c} (build d eq) h = rw eq (build-IsLossless c h)
    Step-IsLossless {c} (announce d eq) h = rw eq (announce-IsLossless c h)
    Step-IsLossless {c} (apply older newer n ranges d e eq) h = rw eq (
        apply-IsLossless c n ranges
          (All-middle (IsTrue c.receiver) newer (n, ranges) older (rw e at h.acks_true)) h)

    Reach-IsLossless :
        {c d : Channel}
        → Reach prim shared is_client chunks padding c d
        → IsLossless prim shared is_client chunks padding c
        → IsLossless prim shared is_client chunks padding d
    Reach-IsLossless here h = h
    Reach-IsLossless (next reach step) h = Step-IsLossless step (Reach-IsLossless reach h)

    -- In every state that a channel reaches, in which data and control chunks, well formed and
    -- padded as their headers say, take their sequences from one counter and only data is retained
    -- and reaches the receive buffer, both buffers are valid, the send buffer holds what was
    -- written, each sequence that was retained has been received or is still in the send buffer,
    -- every ack that was built names only received sequences, and no sequence of a chunk that is
    -- not data counts as received, so that the cursor of the receiver never passes it.
    pub reachable-IsLossless :
        (id : List ℕ) (now send_bound receive_bound : ℕ) {c : Channel}
        → Reach prim shared is_client chunks padding
            (start id shared now send_bound receive_bound)
            c
        → IsLossless prim shared is_client chunks padding c
          × ((k : ℕ) → is_data (chunks k) ≡ false → c.receiver.next_expected ≤ k)
    reachable-IsLossless id now send_bound receive_bound reach =
        let h =
          Reach-IsLossless reach (
            start-IsLossless prim shared is_client chunks padding id now send_bound
              receive_bound) in
        (h, λ k control. ground (arith, h.silent k control))

-- ===== src/Protocol/Continuity/Link/Resume.antt =====
-- A replay of the send buffer brings the receiver up to the first sequence that was not retained.
use kanrin.Common.{ℕ, ◌≤◌, ◌<◌, ◌≡◌, Bool, true, not, ◌||◌, List, [], ◌∷◌, some, arith, length}
use kanrin.Common.SortedMap.{Map, IsSorted, Within, contains_key, find}
use kanrin.Common.SortedMap.Laws.{Above-IsSorted, contains_key-Above, find-Above}
use kanrin.Common.SortedMap.Bounds.{Within-upper}
use kanrin.Protocol.Error.{ok, err, panic}
use kanrin.Protocol.Crypto.{Primitives, SessionKeys}
use kanrin.Protocol.Wire.Chunk.{Chunk}
use kanrin.Protocol.Wire.Chunk.RoundTrip.{IsChunk, renumber}
use kanrin.Protocol.Session.{Session}
use kanrin.Protocol.Continuity.ReceiveBuffer.{ReceiveBuffer}
use kanrin.Protocol.Continuity.ReceiveBuffer.Inv.{IsValid, max_sequence}
use kanrin.Protocol.Continuity.ReceiveBuffer.Progress.{received, next_expected_caught_up}
use kanrin.Protocol.Continuity.Carrying.{is_data, take_chunk, read_chunk}
use kanrin.Protocol.Continuity.Carrying.Receiving.{take_chunk-Taken}
use kanrin.Protocol.Continuity.Link.{Channel, Reach, WrittenAs, start, listed}
use kanrin.Protocol.Continuity.Link.Ends.{read_chunk-WrittenAs}
use kanrin.Protocol.Continuity.Link.NoLoss.{reachable-IsLossless}

module _ (prim : Primitives) (is_client : Bool) (now : ℕ) where
  -- The receiver when the entries of a send buffer are written once more, in order, and read; a chunk
  -- that does not decrypt ends the connection.
  pub replayed : Session → ReceiveBuffer → Map (List ℕ) → ReceiveBuffer
  replayed t r [] = r
  replayed t r ((k, bytes) ∷ m) = elim (read_chunk prim t r bytes (not is_client) now) [
    | ok (payloads, t', r') ↦ replayed t' r' m
    | err e ↦ r
    | panic ↦ r
  ]

module _ (prim : Primitives) (shared : SessionKeys) (is_client : Bool) (chunks : ℕ → Chunk)
    (padding : ℕ → List ℕ) (well : (k : ℕ) → IsChunk (chunks k))
    (sized : (k : ℕ) → length (padding k) ≡ (chunks k).header.padding_length) (now : ℕ) where
  replayed_completes :
      (goal : ℕ) (m : Map (List ℕ)) (t : Session) (r : ReceiveBuffer)
      → t.keys ≡ shared
      → IsSorted m
      → Within max_sequence m
      → IsValid r
      → ((k : ℕ) (bytes : List ℕ)
          → find k m ≡ some bytes
          → WrittenAs prim shared is_client chunks padding k bytes)
      → ((k : ℕ) → k < goal → is_data (chunks k) ≡ true)
      → ((k : ℕ) → k < goal → (received k r || contains_key k m) ≡ true)
      → goal ≤ (replayed prim is_client now t r m).next_expected
  unfolding replayed contains_key find is_data
  replayed_completes goal [] t r same sorted small h content datas kept =
      next_expected_caught_up goal r h (λ k p. ground (arith, kept k p))
  replayed_completes goal ((k, bytes) ∷ m) t r same sorted small h content datas kept =
      let written : WrittenAs prim shared is_client chunks padding k bytes =
        content k bytes (ground arith) in
      let (t', same', read) =
        read_chunk-WrittenAs prim shared is_client chunks padding well sized t r k now bytes same
          (omega (arith, small.0)) written in
      let chunk = renumber (chunks k) k in
      let taken = take_chunk-Taken r chunk h small.0 in
      let arrived : k < goal → received k (take_chunk r chunk).1 ≡ true = λ p.
        taken.in_order (datas k p) (
          next_expected_caught_up k r h
            (λ i q. ground (arith, kept i (omega arith), contains_key-Above k i m sorted))) in
      rw (replayed, read)
        (replayed_completes goal m t' (take_chunk r chunk).1 same' (Above-IsSorted k m sorted)
          small.1 taken.valid
          (λ j v there. content j v (ground (arith, there, find-Above k j m sorted))) datas
          (λ j p. ground (arith, kept j p, taken.more j, arrived)))

  -- From every state that a channel reaches, in which data and control chunks, well formed and
  -- padded as their headers say, take their sequences from one counter and only data is retained
  -- and reaches the receive buffer, writing the bytes that the send buffer holds once more, in
  -- order, and reading them brings the receiver up to any number below which every sequence was
  -- retained, whatever the bounds of the two buffers and whatever else the send buffer holds.
  pub replay_completes :
      (id : List ℕ) (started send_bound receive_bound : ℕ) (goal : ℕ) {c : Channel}
      → Reach prim shared is_client chunks padding
          (start id shared started send_bound receive_bound)
          c
      → ((k : ℕ) → k < goal → listed k c.retained ≡ true)
      → goal ≤ (replayed prim is_client now c.receiving c.receiver c.sender.chunks).next_expected
  replay_completes id started send_bound receive_bound goal {c} reach all =
      let h =
        (reachable-IsLossless prim shared is_client chunks padding well sized id started send_bound
          receive_bound reach).0 in
      replayed_completes goal c.sender.chunks c.receiving c.receiver h.receiving_keys
        h.sender_valid.sorted
        (Within-upper c.sending.send_seq max_sequence c.sender.chunks h.unsent
          (omega (arith, h.sent_small)))
        h.receiver_valid h.content (λ k p. h.retained_data k (all k p)) (λ k p. h.kept k (all k p))

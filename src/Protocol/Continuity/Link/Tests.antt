-- ===== src/Protocol/Continuity/Link/Tests.antt =====
-- A run of two ends over the toy primitives: data, a control chunk and data again are written, and the
-- last of them arrives.
use kanrin.Common.{
  ℕ, ◌*◌, ◌≡◌, ◌≤◌, ◌<◌, refl, true, false, ◌==◌, List, [], ◌∷◌, if◌then◌else◌, arith,
}
use kanrin.Common.Bytes.{to_be, slice?, get_elem?, of_be}
use kanrin.Common.SortedMap.{find, insert, contains_key}
use kanrin.Protocol.Error.{Result, ok, err, panic}
use kanrin.Protocol.Crypto.{SessionKeys, encrypt, decrypt}
use kanrin.Protocol.Crypto.Tests.{toy}
use kanrin.Protocol.Wire.Header
use kanrin.Protocol.Wire.Header.{ChunkType, to_byte, body_size}
use kanrin.Protocol.Wire.Chunk.{
  Chunk, encode_sequenced, encode_encrypted, decode_sequenced, decode_encrypted,
}
use kanrin.Protocol.Wire.Chunk.RoundTrip.{IsChunk}
use kanrin.Protocol.Session as Sessions
use kanrin.Protocol.Session.{Session, encrypt_outgoing, decrypt_incoming}
use kanrin.Protocol.Continuity.SendBuffer as Sender
use kanrin.Protocol.Continuity.SendBuffer.{SendBuffer, push, is_empty}
use kanrin.Protocol.Continuity.ReceiveBuffer as Receiver
use kanrin.Protocol.Continuity.ReceiveBuffer.{ReceiveBuffer, accept, hold, drain_ready}
use kanrin.Protocol.Continuity.Carrying.{
  is_data, write_chunk, read_chunk, retain_data, after_push, take_chunk, after_accept,
}
use kanrin.Protocol.Continuity.Carrying.Sending.{was_retained, is_refused}
use kanrin.Protocol.Continuity.Link.{Channel, Reach, start, listed, send, arrive, here, next}
use kanrin.Protocol.Continuity.Link.Invariant.{IsLossless}
use kanrin.Protocol.Continuity.Link.NoLoss.{reachable-IsLossless}
use kanrin.Protocol.Continuity.Link.Resume.{replayed, replay_completes}

abbrev keys : SessionKeys
keys = record { client_write_key = 1 ∷ []; server_write_key = 2 ∷ [] }

abbrev kind : ℕ → ChunkType
kind k = if k == 1 then ChunkType.control else ChunkType.data_chunk

-- The chunk of sequence one is control, and the others are data.
abbrev mixed : ℕ → Chunk
mixed k = record {
  header = record {
    version = 1;
    chunk_type = kind k;
    sequence = 0;
    payload_length = 1;
    padding_length = 0;
  };
  payload = k ∷ [];
}

abbrev unpadded : ℕ → List ℕ
unpadded k = []

mixed-IsChunk : (k : ℕ) → IsChunk (mixed k)
mixed-IsChunk k = record {
  header = record {
    version_byte = omega arith;
    sequence_u64 = omega arith;
    payload_u16 = omega arith;
    padding_u8 = omega arith;
  };
  version = refl;
  payload_length = refl;
}

abbrev bytes_of : Result (List ℕ) → List ℕ
bytes_of (ok bs) = bs
bytes_of (err e) = []
bytes_of panic = []

abbrev written : ℕ → List ℕ
written k = bytes_of (encode_sequenced toy (mixed k) (1 ∷ []) k [])

abbrev sending_after : ℕ → Session
sending_after n = record (Sessions.new (9 ∷ []) keys 0) {
  send_seq = n;
  bytes_sent = n * 30;
  last_activity = n;
}

abbrev buffer_one : SendBuffer
buffer_one = record { chunks = (0, written 0) ∷ []; buffered_bytes = 30; max_bytes = 100 }

abbrev buffer_two : SendBuffer
buffer_two = record {
  chunks = (0, written 0) ∷ (2, written 2) ∷ [];
  buffered_bytes = 60;
  max_bytes = 100;
}

abbrev holding : ReceiveBuffer
holding = record {
  next_expected = 0;
  pending = (2, 2 ∷ []) ∷ [];
  ready = [];
  buffered_bytes = 1;
  max_bytes = 100;
}

abbrev receiving : Session
receiving = record (Sessions.new (9 ∷ []) keys 0) {
  recv_count = 1;
  bytes_received = 30;
  last_activity = 4;
}

write-data :
    write_chunk toy (Sessions.new (9 ∷ []) keys 0) (Sender.new 100) (mixed 0) true [] 1
    ≡ ok (written 0, sending_after 1, buffer_one)
unfolding write_chunk encrypt_outgoing encode_sequenced encode_encrypted encrypt slice? to_be
    to_byte Header.encode retain_data after_push is_data push is_empty insert find Sender.new
    Sessions.new
write-data = refl

write-control :
    write_chunk toy (sending_after 1) buffer_one (mixed 1) true [] 2
    ≡ ok (written 1, sending_after 2, buffer_one)
unfolding write_chunk encrypt_outgoing encode_sequenced encode_encrypted encrypt slice? to_be
    to_byte Header.encode retain_data after_push is_data push is_empty insert find Sender.new
    Sessions.new
write-control = refl

write-more :
    write_chunk toy (sending_after 2) buffer_one (mixed 2) true [] 3
    ≡ ok (written 2, sending_after 3, buffer_two)
unfolding write_chunk encrypt_outgoing encode_sequenced encode_encrypted encrypt slice? to_be
    to_byte Header.encode retain_data after_push is_data push is_empty insert find Sender.new
    Sessions.new
write-more = refl

read-more :
    read_chunk toy (Sessions.new (9 ∷ []) keys 0) (Receiver.new 100) (written 2) false 4
    ≡ ok ([], receiving, holding)
unfolding read_chunk decrypt_incoming decode_sequenced decode_encrypted decrypt body_size
    Header.decode encode_sequenced encode_encrypted encrypt slice? to_be to_byte of_be get_elem?
    Header.encode take_chunk after_accept is_data accept hold drain_ready insert contains_key
    Receiver.new Sessions.new
read-more = refl

written-more : encode_sequenced toy (mixed 2) (1 ∷ []) 2 [] ≡ ok (written 2)
unfolding encode_sequenced encode_encrypted encrypt slice? to_be to_byte Header.encode
written-more = refl

abbrev gap : Channel
gap = record {
  sending = sending_after 3;
  sender = buffer_two;
  receiving = receiving;
  receiver = holding;
  retained = 2 ∷ 0 ∷ [];
  acks = [];
}

gap-Reach : Reach toy keys true mixed unpadded (start (9 ∷ []) keys 0 100 100) gap
unfolding start was_retained is_refused is_data push is_empty insert find Sender.new Sessions.new
    encode_sequenced encode_encrypted slice? Header.encode to_be
gap-Reach =
    next
      (next
        (next (next here (send 1 (written 0) (sending_after 1) buffer_one _ write-data refl))
          (send 2 (written 1) (sending_after 2) buffer_one _ write-control refl))
        (send 3 (written 2) (sending_after 3) buffer_two _ write-more refl))
      (arrive 2 4 (written 2) [] receiving holding gap (omega arith) written-more read-more refl)

-- The sequence zero was retained, and the sequence one is a control chunk.
first_retained : (k : ℕ) → k < 1 → listed k (2 ∷ 0 ∷ []) ≡ true
unfolding listed
first_retained k h = ground arith

replay_completes_example :
    1 ≤ (replayed toy true 5 receiving holding buffer_two.chunks).next_expected
replay_completes_example =
    replay_completes toy keys true mixed unpadded mixed-IsChunk (λ k. refl) 5 (9 ∷ []) 0 100 100 1
      {c = gap} gap-Reach first_retained

reachable-IsLossless_example :
    IsLossless toy keys true mixed unpadded gap
    × ((k : ℕ) → is_data (mixed k) ≡ false → holding.next_expected ≤ k)
reachable-IsLossless_example =
    reachable-IsLossless toy keys true mixed unpadded mixed-IsChunk (λ k. refl) (9 ∷ []) 0 100 100
      {c = gap} gap-Reach

-- ===== src/Protocol/Continuity/Carrying.antt =====
-- How the two ends of a tunnel use a session and its buffers: the writing and the reading of chunks in
-- `serve` of crates/kanrin-server/src/session.rs, which pipeline.rs of crates/kanrin-client does as
-- well. `is_client` says which end it is.
pub mod Sending
pub mod Receiving
use kanrin.Common.{ℕ, Bool, true, false, List, [], if◌then◌else◌}
use kanrin.Protocol.Error.{Result, ok, err, panic, ◌>>=◌}
use kanrin.Protocol.Crypto.{Primitives}
use kanrin.Protocol.Wire.Header.{ChunkType}
use kanrin.Protocol.Wire.Chunk.{Chunk}
use kanrin.Protocol.Session.{Session, encrypt_outgoing, decrypt_incoming}
use kanrin.Protocol.Continuity.SendBuffer.{SendBuffer, push}
use kanrin.Protocol.Continuity.ReceiveBuffer.{
  ReceiveBuffer, Received, ready, buffered, duplicate, accept, drain_ready,
}

-- `chunk.header.chunk_type == ChunkType::Data`
unfoldable pub is_data : Chunk → Bool
is_data c = elim c.header.chunk_type [
  | ChunkType.handshake ↦ false
  | ChunkType.data_chunk ↦ true
  | ChunkType.control ↦ false
  | ChunkType.padding ↦ false
  | ChunkType.resume ↦ false
]

-- A push that is refused is logged, and the chunk is written all the same.
unfoldable pub after_push : SendBuffer → Result SendBuffer → SendBuffer
after_push b (ok b') = b'
after_push b (err e) = b
after_push b panic = b

-- Only data is retained.
unfoldable pub retain_data : SendBuffer → Chunk → (sequence : ℕ) (bytes : List ℕ) → SendBuffer
retain_data b c sequence bytes = if is_data c then after_push b (push b sequence bytes) else b

-- What the buffer gives and how it is after a data chunk; a chunk that is refused is dropped.
unfoldable pub after_accept :
    ReceiveBuffer → Result (Received × ReceiveBuffer) → List (List ℕ) × ReceiveBuffer
after_accept r (ok (duplicate, r')) = ([], r')
after_accept r (ok (ready, r')) = drain_ready r'
after_accept r (ok (buffered, r')) = drain_ready r'
after_accept r (err e) = ([], r)
after_accept r panic = ([], r)

-- A control chunk never reaches the buffer.
unfoldable pub take_chunk : ReceiveBuffer → Chunk → List (List ℕ) × ReceiveBuffer
take_chunk r c =
    if is_data c then after_accept r (accept r c.header.sequence c.payload) else ([], r)

module _ (prim : Primitives) where
  -- The bytes that are written.
  unfoldable pub write_chunk :
      Session
      → SendBuffer
      → Chunk
      → (is_client : Bool) (padding : List ℕ) (now : ℕ) → Result (List ℕ × Session × SendBuffer)
  write_chunk s b c is_client padding now = do
    (bytes, s') ← encrypt_outgoing prim s c is_client padding now
    ok (bytes, s', retain_data b c s.send_seq bytes)

  -- The payloads that are forwarded.
  unfoldable pub read_chunk :
      Session
      → ReceiveBuffer
      → (bytes : List ℕ) (is_client : Bool) (now : ℕ)
      → Result (List (List ℕ) × Session × ReceiveBuffer)
  read_chunk t r bytes is_client now = do
    (c, t') ← decrypt_incoming prim t bytes is_client now
    let (payloads, r') = take_chunk r c
    ok (payloads, t', r')

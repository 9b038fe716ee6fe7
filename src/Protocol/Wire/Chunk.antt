-- ===== src/Protocol/Wire/Chunk.antt =====
-- `Chunk` of crates/kanrin-protocol/src/wire.rs: a header and a payload, sealed by the AEAD of
-- `Crypto`. Random bytes that the code draws are arguments.
pub mod RoundTrip
pub mod Safety
use kanrin.Common.{
  ℕ, ◌+◌, ◌%◌, ◌^◌, ◌<◌, ◌≡◌, Bool, not, List, [], ◌∷◌, ◌++◌, ltb, ◌==◌, if◌then◌else◌, length,
}
use kanrin.Protocol.Error.{Result, ok, err, ◌>>=◌, ◌>>◌, fail_if, slice, buffer_too_short}
use kanrin.Protocol.Crypto.{Primitives, encrypt, decrypt, nonce_from_sequence}
use kanrin.Protocol.Wire.Header
use kanrin.Protocol.Wire.Header.{
  ChunkHeader, ChunkType, header_size, tag_size, protocol_version, body_size,
}

pub record Chunk : Type 0 where
  pub header : ChunkHeader
  pub payload : List ℕ

-- The header that the constructors share: sequence 0, and `payload.len() as u16`.
abbrev fresh_header : ChunkType → (size padding : ℕ) → ChunkHeader
fresh_header type size padding = record {
  version = protocol_version;
  chunk_type = type;
  sequence = 0;
  payload_length = size % 2 ^ 16;
  padding_length = padding;
}

-- `random` is the byte that `rand::random::<u8>()` gives.
new_data : List ℕ → (random : ℕ) → Chunk
new_data payload random = record {
  header = fresh_header ChunkType.data_chunk (length payload) (random % 64);
  payload = payload;
}

new_handshake : List ℕ → Chunk
new_handshake payload = record {
  header = fresh_header ChunkType.handshake (length payload) 0;
  payload = payload;
}

new_resume : List ℕ → Chunk
new_resume payload = record {
  header = fresh_header ChunkType.resume (length payload) 0;
  payload = payload;
}

new_control : List ℕ → (random : ℕ) → Chunk
new_control payload random = record {
  header = fresh_header ChunkType.control (length payload) (random % 32);
  payload = payload;
}

new_padding : ℕ → Chunk
new_padding size = record { header = fresh_header ChunkType.padding 0 size; payload = [] }

pub wire_size : Chunk → ℕ
wire_size c = header_size + length c.payload + c.header.padding_length + tag_size

module _ (prim : Primitives) where
  -- `padding` is what `random_bytes_vec(padding_length)` gives.
  unfoldable pub encode_encrypted : Chunk → (key nonce padding : List ℕ) → Result (List ℕ)
  unfolding encrypt
  encode_encrypted c key nonce padding = do
    let buf = Header.encode c.header
    aad ← slice buf 0 header_size
    ciphertext ← encrypt prim key nonce (c.payload ++ padding) aad
    ok (buf ++ ciphertext)

  unfoldable pub decode_encrypted : (bytes key nonce : List ℕ) → Result Chunk
  unfolding decrypt body_size
  decode_encrypted bytes key nonce = do
    fail_if (ltb (length bytes) header_size) (buffer_too_short header_size (length bytes))
    header_slice ← slice bytes 0 header_size
    (header, _) ← Header.decode header_slice
    let expected_total = header_size + body_size header
    fail_if (ltb (length bytes) expected_total) (buffer_too_short expected_total (length bytes))
    aad ← slice bytes 0 header_size
    ciphertext ← slice bytes header_size expected_total
    plaintext ← decrypt prim key nonce ciphertext aad
    payload ← slice plaintext 0 header.payload_length
    ok (record { header = header; payload = payload })

  unfoldable pub encode_sequenced : Chunk → (key : List ℕ) (sequence : ℕ) → List ℕ → Result (List ℕ)
  encode_sequenced c key sequence padding =
      encode_encrypted (record c { header = record c.header { sequence = sequence } }) key
        (nonce_from_sequence sequence) padding

  unfoldable pub decode_sequenced : (bytes key : List ℕ) → Result Chunk
  decode_sequenced bytes key = do
    fail_if (ltb (length bytes) header_size) (buffer_too_short header_size (length bytes))
    header_slice ← slice bytes 0 header_size
    (header, _) ← Header.decode header_slice
    decode_encrypted bytes key (nonce_from_sequence header.sequence)

-- ===== src/Protocol/Wire/Header.antt =====
-- The chunk header: `ChunkType` and `ChunkHeader` of crates/kanrin-protocol/src/wire.rs.
use kanrin.Common.{
  ℕ, ◌+◌, ◌^◌, ◌<◌, ◌≡◌, Bool, not, List, [], ◌∷◌, ◌++◌, ltb, ◌==◌, if◌then◌else◌, length, drop,
}
use kanrin.Common.Bytes.{to_be, of_be, IsByte}
use kanrin.Protocol.Error.{
  Result, ok, err, ◌>>=◌, ◌>>◌, fail_if, index, slice, invalid_chunk, unknown_chunk_type,
  buffer_too_short, unsupported_version,
}
pub mod RoundTrip

abbrev pub protocol_version : ℕ
protocol_version = 1

abbrev pub header_size : ℕ
header_size = 13

-- `crypto::TAG_SIZE`
abbrev pub tag_size : ℕ
tag_size = 16

pub data ChunkType : Type 0 where
  handshake data_chunk control padding resume : ChunkType

-- `chunk_type as u8`
unfoldable pub to_byte : ChunkType → ℕ
to_byte handshake = 0x01
to_byte data_chunk = 0x02
to_byte control = 0x03
to_byte padding = 0x04
to_byte resume = 0x05

unfoldable pub from_byte : ℕ → Result ChunkType
from_byte b =
    if b == 0x01
    then ok handshake
    else if b == 0x02
    then ok data_chunk
    else if b == 0x03
    then ok control
    else if b == 0x04
    then ok padding
    else if b == 0x05
    then ok resume
    else err (invalid_chunk (unknown_chunk_type b))

pub record ChunkHeader : Type 0 where
  pub version : ℕ
  pub chunk_type : ChunkType
  pub sequence : ℕ
  pub payload_length : ℕ
  pub padding_length : ℕ

-- The fields fit the widths of their Rust types.
pub record IsHeader (h : ChunkHeader) : Type 0 where
  pub version_byte : h.version < 256
  pub sequence_u64 : h.sequence < 2 ^ 64
  pub payload_u16 : h.payload_length < 2 ^ 16
  pub padding_u8 : h.padding_length < 256

unfoldable pub encode : ChunkHeader → List ℕ
unfolding to_byte
encode h =
    h.version
    ∷ to_byte h.chunk_type
    ∷ (to_be 8 h.sequence ++ (to_be 2 h.payload_length ++ (h.padding_length ∷ [])))

-- `decode` takes the header off the front of the buffer.
unfoldable pub decode : List ℕ → Result (ChunkHeader × List ℕ)
unfolding from_byte
decode buf = do
  fail_if (ltb (length buf) header_size) (buffer_too_short header_size (length buf))
  version ← index buf 0
  fail_if (not (version == protocol_version)) (unsupported_version version)
  type_byte ← index buf 1
  chunk_type ← from_byte type_byte
  sequence ← slice buf 2 10
  payload_length ← slice buf 10 12
  padding_length ← index buf 12
  ok (
    record {
      version = version;
      chunk_type = chunk_type;
      sequence = of_be sequence;
      payload_length = of_be payload_length;
      padding_length = padding_length;
    },
    drop header_size buf,
  )

unfoldable pub body_size : ChunkHeader → ℕ
body_size h = h.payload_length + h.padding_length + tag_size

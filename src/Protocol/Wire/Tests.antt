-- ===== src/Protocol/Wire/Tests.antt =====
-- Runs of the wire formats on small inputs.
use kanrin.Common.{ℕ, ◌≡◌, ◌≢◌, ◌<◌, ◌≤◌, refl, List, [], ◌∷◌, ◌++◌, arith, length, All}
use kanrin.Common.Bytes.{IsByte, to_be, of_be, slice?, get_elem?}
use kanrin.Common.Utf8.{IsUtf8, is_utf8}
use kanrin.Protocol.Error.{Result, ok, panic}
use kanrin.Protocol.Crypto.{encrypt}
use kanrin.Protocol.Crypto.Tests.{toy}
use kanrin.Protocol.Wire.Header
use kanrin.Protocol.Wire.Header.{
  ChunkHeader, ChunkType, IsHeader, header_size, to_byte, from_byte, body_size,
}
use kanrin.Protocol.Wire.Chunk.{Chunk, encode_encrypted, encode_sequenced, decode_sequenced}
use kanrin.Protocol.Wire.Chunk.RoundTrip.{IsChunk, decode_sequenced-encode_sequenced}
use kanrin.Protocol.Wire.Chunk.Safety.{decode_sequenced-ne-panic}
use kanrin.Protocol.Wire.Control
use kanrin.Protocol.Wire.Control.{
  SackRange, ControlMessage, ack, config_update, score_report, session_migrate,
}
use kanrin.Protocol.Wire.Control.Ranges.{IsCanonical}
use kanrin.Protocol.Wire.Control.RoundTrip.{decode-encode_control, decode-IsCanonical}
use kanrin.Protocol.Wire.Proxy
use kanrin.Protocol.Wire.Proxy.{ProxyRequest, tcp_connect, udp_datagram}
use kanrin.Protocol.Wire.Proxy.RoundTrip.{decode-encode_proxy}
use kanrin.Protocol.Wire.Frame.{frame_chunk}

abbrev header : ChunkHeader
header = record {
  version = 1;
  chunk_type = ChunkType.data_chunk;
  sequence = 513;
  payload_length = 2;
  padding_length = 3;
}

header-IsHeader : IsHeader header
header-IsHeader = record {
  version_byte = omega arith;
  sequence_u64 = omega arith;
  payload_u16 = omega arith;
  padding_u8 = omega arith;
}

abbrev key : List ℕ
key = 1 ∷ 2 ∷ 3 ∷ []

abbrev drawn : List ℕ
drawn = 7 ∷ 8 ∷ 9 ∷ []

abbrev chunk : Chunk
chunk = record { header = header; payload = 104 ∷ 105 ∷ [] }

chunk-IsChunk : IsChunk chunk
chunk-IsChunk = record { header = header-IsHeader; version = refl; payload_length = refl }

-- The bytes that a successful run gives.
abbrev bytes_of : Result (List ℕ) → List ℕ
bytes_of (Result.ok bs) = bs
bytes_of (Result.err e) = []
bytes_of Result.panic = []

abbrev sealed : List ℕ
sealed = bytes_of (encode_encrypted toy chunk key [] drawn)

abbrev numbered : List ℕ
numbered = bytes_of (encode_sequenced toy chunk key 70000 drawn)

encode_sequenced-numbered : encode_sequenced toy chunk key 70000 drawn ≡ ok numbered
unfolding encode_sequenced encode_encrypted encrypt slice? to_be to_byte Header.encode
encode_sequenced-numbered = refl

decode_sequenced-encode_sequenced_example :
    decode_sequenced toy (numbered ++ []) key
    ≡ ok (record chunk { header = record header { sequence = 70000 } })
decode_sequenced-encode_sequenced_example =
    decode_sequenced-encode_sequenced toy chunk key drawn numbered [] 70000 chunk-IsChunk
      (omega arith) refl encode_sequenced-numbered

decode_sequenced-ne-panic_example : decode_sequenced toy (1 ∷ 2 ∷ 3 ∷ []) key ≢ panic
decode_sequenced-ne-panic_example = decode_sequenced-ne-panic toy (1 ∷ 2 ∷ 3 ∷ []) key

abbrev header_bytes : List ℕ
header_bytes = 1 ∷ 2 ∷ 0 ∷ 0 ∷ 0 ∷ 0 ∷ 0 ∷ 0 ∷ 2 ∷ 1 ∷ 0 ∷ 2 ∷ 3 ∷ 7 ∷ []

header_bytes-IsByte : All IsByte header_bytes
header_bytes-IsByte = ground arith

decode-header_bytes : Header.decode header_bytes ≡ ok (header, 7 ∷ [])
unfolding Header.decode from_byte slice? get_elem? of_be
decode-header_bytes = refl

abbrev ranges : List SackRange
ranges = record { start = 5; end = 6 } ∷ record { start = 9; end = 9 } ∷ []

decode-encode_control_example :
    Control.decode (Control.encode (ack 3 ranges) ++ []) ≡ ok (ack 3 ranges)
decode-encode_control_example = decode-encode_control (ack 3 ranges) [] (ground arith)

decode-ranges : Control.decode (Control.encode (ack 3 ranges) ++ []) ≡ ok (ack 3 ranges)
decode-ranges = decode-encode_control (ack 3 ranges) [] (ground arith)

decode-IsCanonical_example : IsCanonical 3 ranges × (length ranges ≤ 32)
decode-IsCanonical_example =
    decode-IsCanonical (Control.encode (ack 3 ranges) ++ []) 3 ranges decode-ranges

abbrev request : ProxyRequest
request = udp_datagram 9 (97 ∷ 46 ∷ 98 ∷ []) 53 (1 ∷ 2 ∷ [])

request-IsUtf8 : IsUtf8 (97 ∷ 46 ∷ 98 ∷ [])
unfolding is_utf8
request-IsUtf8 = refl

decode-encode_proxy_example : Proxy.decode (Proxy.encode request ++ drawn) ≡ ok request
decode-encode_proxy_example =
    decode-encode_proxy request drawn
      (request-IsUtf8, omega arith, omega arith, omega arith, omega arith)

frame_chunk-drawn : frame_chunk drawn ≡ (0 ∷ 0 ∷ 0 ∷ 3 ∷ 7 ∷ []) ++ (8 ∷ 9 ∷ [])
unfolding frame_chunk to_be
frame_chunk-drawn = refl

length-frame_chunk-drawn : 5 < length (frame_chunk drawn)
length-frame_chunk-drawn = rw frame_chunk-drawn (omega arith)

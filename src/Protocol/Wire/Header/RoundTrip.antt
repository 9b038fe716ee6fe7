-- ===== src/Protocol/Wire/Header/RoundTrip.antt =====
-- The header reads back what was written, and only that.
use kanrin.Common.{All, ℕ, ◌≡◌, ◌≢◌, List, ◌∷◌, ◌++◌, arith}
use kanrin.Common.Bytes.{
  to_be, of_be, get_elem?, slice?, IsByte, get_elem?_total, slice?_total, of_be-to_be,
}
use kanrin.Protocol.Error.{ok, panic}
use kanrin.Protocol.Wire.Header.{
  ChunkType, ChunkHeader, IsHeader, protocol_version, to_byte, from_byte, encode, decode,
}

from_byte-to_byte : (t : ChunkType) → from_byte (to_byte t) ≡ ok t
unfolding to_byte from_byte
from_byte-to_byte t = ground arith

-- Every header of this protocol version whose fields fit their types reads back as itself, whatever
-- bytes follow it.
pub decode-encode_header :
    (h : ChunkHeader) (rest : List ℕ)
    → IsHeader h
    → h.version ≡ protocol_version
    → decode (encode h ++ rest) ≡ ok (h, rest)
unfolding decode encode slice? get_elem? to_be
decode-encode_header h rest v e = ground (
  arith,
  of_be-to_be 8 h.sequence,
  of_be-to_be 2 h.payload_length,
  from_byte-to_byte h.chunk_type,
)

-- Whatever bytes arrive, decoding a header never indexes out of range.
pub decode_header-ne-panic : (buf : List ℕ) → decode buf ≢ panic
unfolding decode
decode_header-ne-panic buf = ground (
  arith,
  get_elem?_total buf 0,
  get_elem?_total buf 1,
  slice?_total 2 10 buf,
  slice?_total 10 12 buf,
  get_elem?_total buf 12,
)

to_byte-from_byte : (b : ℕ) (t : ChunkType) → from_byte b ≡ ok t → to_byte t ≡ b
unfolding to_byte from_byte
to_byte-from_byte b t e = ground arith

-- A header that is decoded from bytes is of this protocol version, fits the widths of its types,
-- and encodes to the bytes that it was read from.
pub encode-decode_header :
    (buf : List ℕ) (h : ChunkHeader) (rest : List ℕ)
    → All IsByte buf
    → decode buf ≡ ok (h, rest)
    → IsHeader h × (h.version ≡ protocol_version) × (encode h ++ rest ≡ buf)
unfolding decode encode slice? get_elem? to_be of_be
encode-decode_header (a ∷ b ∷ c ∷ d ∷ e ∷ f ∷ g ∷ i ∷ j ∷ k ∷ l ∷ m ∷ n ∷ buf) h rest bytes p =
    ground (arith, to_byte-from_byte b h.chunk_type)
encode-decode_header buf h rest bytes p = ground arith

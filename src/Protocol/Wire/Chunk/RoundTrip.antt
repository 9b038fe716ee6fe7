-- ===== src/Protocol/Wire/Chunk/RoundTrip.antt =====
-- A chunk that was sealed opens to itself, whatever follows it in the buffer.
use kanrin.Common.{
  ℕ, ◌+◌, ◌^◌, ◌≡◌, ◌<◌, refl, sym, List, [], ◌++◌, length, arith, some, length-append,
  append_assoc, append-nil, Option-cases, inl, inr,
}
use kanrin.Common.Bytes.{to_be, slice?, slice?-append}
use kanrin.Protocol.Error.{ok}
use kanrin.Protocol.Crypto.{Primitives, nonce_from_sequence}
use kanrin.Protocol.Wire.Header
use kanrin.Protocol.Wire.Header.{ChunkHeader, IsHeader, header_size, protocol_version, body_size}
use kanrin.Protocol.Wire.Header.RoundTrip.{decode-encode_header}
use kanrin.Protocol.Wire.Chunk.{
  Chunk, encode_encrypted, decode_encrypted, encode_sequenced, decode_sequenced, wire_size,
}

length-encode : (h : ChunkHeader) → length (Header.encode h) ≡ header_size
unfolding Header.encode to_be
length-encode h = refl

encode_slice :
    (h : ChunkHeader) (tail : List ℕ)
    → slice? 0 header_size (Header.encode h ++ tail) ≡ some (Header.encode h)
encode_slice h tail =
    slice?-append [] (Header.encode h) tail 0 header_size refl (omega (arith, length-encode h))

decode_whole :
    (h : ChunkHeader)
    → IsHeader h
    → h.version ≡ protocol_version
    → Header.decode (Header.encode h) ≡ ok (h, [])
decode_whole h v e = rw append-nil at (decode-encode_header h [] v e)

-- The fields of a chunk agree: version 1, and the payload length in the header is that of the payload.
pub record IsChunk (c : Chunk) : Type 0 where
  pub header : IsHeader c.header
  pub version : c.header.version ≡ protocol_version
  pub payload_length : c.header.payload_length ≡ length c.payload

abbrev pub renumber : Chunk → ℕ → Chunk
renumber c sequence = record c { header = record c.header { sequence = sequence } }

renumber-IsChunk :
    (c : Chunk) (sequence : ℕ) → IsChunk c → sequence < 2 ^ 64 → IsChunk (renumber c sequence)
renumber-IsChunk c sequence v small = omega arith

module _ (prim : Primitives) where
  -- What a successful encoding consists of.
  pub encode_encrypted-ok :
      (c : Chunk) (key nonce padding bytes : List ℕ)
      → encode_encrypted prim c key nonce padding ≡ ok bytes
      → (sealed : List ℕ) × (prim.seal key nonce (c.payload ++ padding) (Header.encode c.header)
          ≡ some sealed)
        × (bytes ≡ Header.encode c.header ++ sealed)
  unfolding encode_encrypted
  encode_encrypted-ok c key nonce padding bytes e =
      let sliced = rw append-nil at (encode_slice c.header []) in
      let whole = Header.encode c.header in
      elim (Option-cases (prim.seal key nonce (c.payload ++ padding) whole)) [
        | inl failed ↦ ground (arith, sliced)
        | inr (sealed, done) ↦ (sealed, done, ground (arith, sliced))
      ]

  decode_encrypted-sealed :
      (c : Chunk) (key nonce padding sealed rest : List ℕ)
      → IsChunk c
      → length padding ≡ c.header.padding_length
      → prim.seal key nonce (c.payload ++ padding) (Header.encode c.header) ≡ some sealed
      → decode_encrypted prim (Header.encode c.header ++ (sealed ++ rest)) key nonce ≡ ok c
  unfolding decode_encrypted
  decode_encrypted-sealed c key nonce padding sealed rest v p e =
      let front = Header.encode c.header in
      let size = prim.length-seal key nonce (c.payload ++ padding) front sealed e in
      let tail = length-append sealed rest in
      let total = length-append front (sealed ++ rest) in
      let plain = length-append c.payload padding in
      ground (
        arith,
        size,
        tail,
        total,
        plain,
        length-encode c.header,
        encode_slice c.header (sealed ++ rest),
        decode_whole c.header v.header v.version,
        slice?-append front sealed rest header_size (header_size + body_size c.header)
            (sym (length-encode c.header)),
        prim.unseal-seal key nonce (c.payload ++ padding) front sealed e,
        slice?-append [] c.payload padding 0 c.header.payload_length refl,
      )

  -- `decode_encrypted` reads back the chunk that `encode_encrypted` sealed under the same key and
  -- nonce, and ignores what follows it, if the payload length in the header is that of the payload
  -- and as much padding was drawn as the header says.
  decode_encrypted-encode_encrypted :
      (c : Chunk) (key nonce padding bytes rest : List ℕ)
      → IsChunk c
      → length padding ≡ c.header.padding_length
      → encode_encrypted prim c key nonce padding ≡ ok bytes
      → decode_encrypted prim (bytes ++ rest) key nonce ≡ ok c
  decode_encrypted-encode_encrypted c key nonce padding bytes rest v p e =
      let (sealed, done, whole) = encode_encrypted-ok c key nonce padding bytes e in
      rw (whole, append_assoc) (decode_encrypted-sealed c key nonce padding sealed rest v p done)

  -- A sealed chunk has the size that `wire_size` says.
  length-encode_encrypted :
      (c : Chunk) (key nonce padding bytes : List ℕ)
      → length padding ≡ c.header.padding_length
      → encode_encrypted prim c key nonce padding ≡ ok bytes
      → length bytes ≡ wire_size c
  unfolding wire_size
  length-encode_encrypted c key nonce padding bytes p e =
      let (sealed, done, whole) = encode_encrypted-ok c key nonce padding bytes e in
      rw whole (
        omega (
          arith,
          length-append (Header.encode c.header) sealed,
          length-encode c.header,
          prim.length-seal key nonce (c.payload ++ padding) (Header.encode c.header) sealed done,
          length-append c.payload padding,
        ))

  -- A well-formed chunk of this protocol version sealed under a sequence number below 2^64 opens by
  -- the header alone, whatever bytes follow it, and carries that number, if as much padding was
  -- drawn as the header says.
  pub decode_sequenced-encode_sequenced :
      (c : Chunk) (key padding bytes rest : List ℕ) (sequence : ℕ)
      → IsChunk c
      → sequence < 2 ^ 64
      → length padding ≡ c.header.padding_length
      → encode_sequenced prim c key sequence padding ≡ ok bytes
      → decode_sequenced prim (bytes ++ rest) key
        ≡ ok (record c { header = record c.header { sequence = sequence } })
  unfolding encode_sequenced decode_sequenced
  decode_sequenced-encode_sequenced c key padding bytes rest sequence v small p e =
      let c' = renumber c sequence in
      let v' = renumber-IsChunk c sequence v small in
      let nonce = nonce_from_sequence sequence in
      let (sealed, done, whole) = encode_encrypted-ok c' key nonce padding bytes e in
      rw (whole, append_assoc)
        (ground (
          arith,
          length-append (Header.encode c'.header) (sealed ++ rest),
          length-encode c'.header,
          encode_slice c'.header (sealed ++ rest),
          decode_whole c'.header v'.header v'.version,
          decode_encrypted-sealed c' key nonce padding sealed rest v' p done,
        ))

-- ===== src/Protocol/Session/Outgoing.antt =====
-- What a session seals, its peer opens, and under a nonce that is never used again.
use kanrin.Common.{
  ℕ, ◌+◌, ◌-◌, ◌≡◌, ◌≢◌, ◌≤◌, ◌<◌, ◌^◌, Bool, true, false, not, refl, List, [], ◌++◌, some,
  append-nil, arith, length,
}
use kanrin.Protocol.Error.{ok}
use kanrin.Protocol.Crypto.{Primitives, SessionKeys, nonce_from_sequence}
use kanrin.Protocol.Wire.Header
use kanrin.Protocol.Wire.Header.{ChunkHeader}
use kanrin.Protocol.Crypto.Nonce.{nonce_from_sequence_injective}
use kanrin.Protocol.Wire.Chunk.{Chunk, encode_sequenced, decode_sequenced}
use kanrin.Protocol.Wire.Chunk.RoundTrip.{
  IsChunk, renumber, encode_encrypted-ok, decode_sequenced-encode_sequenced,
}
use kanrin.Protocol.Session.{Session, write_key, after_incoming, encrypt_outgoing, decrypt_incoming}

pub not-not : (b : Bool) → not (not b) ≡ b
not-not true = refl
not-not false = refl

module _ (prim : Primitives) where
  -- A success tells what was sealed, and that the counter went up by one.
  pub record Sealed (s : Session) (c : Chunk) (is_client : Bool) (padding bytes : List ℕ)
      (s' : Session) : Type 0 where
    pub sealed : encode_sequenced prim c (write_key s.keys is_client) s.send_seq padding ≡ ok bytes
    pub small : s.send_seq < 2 ^ 64 - 2
    pub counted : s'.send_seq ≡ s.send_seq + 1
    pub same_keys : s'.keys ≡ s.keys

  pub encrypt_outgoing-Sealed :
      (s : Session) (c : Chunk) (is_client : Bool) (padding : List ℕ) (now : ℕ) {bytes : List ℕ}
      {s' : Session}
      → encrypt_outgoing prim s c is_client padding now ≡ ok (bytes, s')
      → Sealed s c is_client padding bytes s'
  unfolding encrypt_outgoing
  encrypt_outgoing-Sealed s c is_client padding now e = ground arith

  decrypt_incoming-ok :
      (t : Session) (bytes : List ℕ) (is_client : Bool) (now : ℕ) {c : Chunk}
      → decode_sequenced prim bytes (write_key t.keys (not is_client)) ≡ ok c
      → (t' : Session) × (decrypt_incoming prim t bytes is_client now ≡ ok (c, t'))
  unfolding decrypt_incoming
  decrypt_incoming-ok t bytes is_client now e = (after_incoming t (length bytes) now, rw e refl)

  -- A well-formed chunk that one end of a session encrypts, with as much padding drawn as its
  -- header says, is decrypted by any session with the same keys and the other role, whatever its
  -- counters are, and carries the sequence number of the sender.
  pub decrypt_incoming-encrypt_outgoing :
      (s t : Session) (c : Chunk) (is_client : Bool) (padding : List ℕ) (now later : ℕ)
      {bytes : List ℕ} {s' : Session}
      → t.keys ≡ s.keys
      → IsChunk c
      → length padding ≡ c.header.padding_length
      → encrypt_outgoing prim s c is_client padding now ≡ ok (bytes, s')
      → (t' : Session) × (decrypt_incoming prim t bytes (not is_client) later
          ≡ ok (record c { header = record c.header { sequence = s.send_seq } }, t'))
  decrypt_incoming-encrypt_outgoing s t c is_client padding now later {bytes = bytes} same v p e =
      let opened =
        decode_sequenced-encode_sequenced prim c (write_key s.keys is_client) padding bytes []
          s.send_seq v (omega (arith, (encrypt_outgoing-Sealed s c is_client padding now e).small))
          p (encrypt_outgoing-Sealed s c is_client padding now e).sealed in
      decrypt_incoming-ok t bytes (not is_client) later
        (rw (same, not-not is_client) (rw (append-nil bytes) at opened))

  -- The states that successful calls lead to.
  pub data Sends (s : Session) : Session → Type 0 where
    here : Sends s s
    again :
        {t u : Session} (c : Chunk) (is_client : Bool) (padding : List ℕ) (now : ℕ) {bytes : List ℕ}
        → Sends s t
        → encrypt_outgoing prim t c is_client padding now ≡ ok (bytes, u)
        → Sends s u

  Sends-le : {s t : Session} → Sends s t → s.send_seq ≤ t.send_seq
  Sends-le here = omega arith
  Sends-le (again c is_client padding now more e) =
      omega (arith, Sends-le more, (encrypt_outgoing-Sealed _ c is_client padding now e).counted)

  -- How some bytes were made: the encoded header, and behind it what the AEAD made of the payload
  -- and the padding under a nonce.
  pub record SealedUnder (keys : SessionKeys) (c : Chunk) (is_client : Bool)
      (padding bytes nonce : List ℕ) : Type 0 where
    pub header : ChunkHeader
    pub ciphertext : List ℕ
    pub sealed :
        prim.seal (write_key keys is_client) nonce (c.payload ++ padding) (Header.encode header)
        ≡ some ciphertext
    pub laid_out : bytes ≡ Header.encode header ++ ciphertext

  encrypt_outgoing-SealedUnder :
      (s : Session) (c : Chunk) (is_client : Bool) (padding : List ℕ) (now : ℕ) {bytes : List ℕ}
      {s' : Session}
      → encrypt_outgoing prim s c is_client padding now ≡ ok (bytes, s')
      → SealedUnder s.keys c is_client padding bytes (nonce_from_sequence s.send_seq)
  unfolding encode_sequenced
  encrypt_outgoing-SealedUnder s c is_client padding now {bytes} e =
      let (ciphertext, sealed, laid_out) =
        encode_encrypted-ok prim (renumber c s.send_seq) (write_key s.keys is_client)
          (nonce_from_sequence s.send_seq) padding bytes
          (encrypt_outgoing-Sealed s c is_client padding now e).sealed in
      record {
        header = (renumber c s.send_seq).header;
        ciphertext = ciphertext;
        sealed = sealed;
        laid_out = laid_out;
      }

  -- Two chunks that one session encrypts, with any number of successful calls between them, are
  -- sealed by the AEAD under two nonces that differ.
  pub encrypt_outgoing_nonces_differ :
      (s t : Session) (c d : Chunk) (is_client : Bool) (padding padding' : List ℕ) (now later : ℕ)
      {bytes bytes' : List ℕ} {s' t' : Session}
      → encrypt_outgoing prim s c is_client padding now ≡ ok (bytes, s')
      → Sends s' t
      → encrypt_outgoing prim t d is_client padding' later ≡ ok (bytes', t')
      → (nonce : List ℕ) × (nonce' : List ℕ) × SealedUnder s.keys c is_client padding bytes nonce
        × SealedUnder t.keys d is_client padding' bytes' nonce'
        × (nonce ≢ nonce')
  encrypt_outgoing_nonces_differ s t c d is_client padding padding' now later e more e' = (
    nonce_from_sequence s.send_seq,
    nonce_from_sequence t.send_seq,
    encrypt_outgoing-SealedUnder s c is_client padding now e,
    encrypt_outgoing-SealedUnder t d is_client padding' later e',
    λ same.
        let first = encrypt_outgoing-Sealed s c is_client padding now e in
        let second = encrypt_outgoing-Sealed t d is_client padding' later e' in
        absurd (
          omega (
            arith,
            first.counted,
            first.small,
            second.small,
            Sends-le more,
            nonce_from_sequence_injective s.send_seq t.send_seq (omega (arith, first.small))
                (omega (arith, second.small)) same,
          )),
  )

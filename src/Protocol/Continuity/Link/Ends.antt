-- ===== src/Protocol/Continuity/Link/Ends.antt =====
-- What one end writes, the other end reads.
use kanrin.Common.{ℕ, ◌≡◌, ◌<◌, ◌^◌, refl, Bool, not, List, [], arith, length, append-nil}
use kanrin.Protocol.Error.{ok}
use kanrin.Protocol.Crypto.{Primitives, SessionKeys}
use kanrin.Protocol.Wire.Chunk.{Chunk}
use kanrin.Protocol.Wire.Chunk.RoundTrip.{IsChunk, renumber, decode_sequenced-encode_sequenced}
use kanrin.Protocol.Session.{Session, write_key, after_incoming, encrypt_outgoing, decrypt_incoming}
use kanrin.Protocol.Session.Outgoing.{not-not}
use kanrin.Protocol.Continuity.SendBuffer.{SendBuffer}
use kanrin.Protocol.Continuity.ReceiveBuffer.{ReceiveBuffer}
use kanrin.Protocol.Continuity.Carrying.{retain_data, take_chunk, write_chunk, read_chunk}
use kanrin.Protocol.Continuity.Link.{WrittenAs}

-- What a successful write is made of.
pub write_chunk-ok :
    (prim : Primitives) (s : Session) (b : SendBuffer) (c : Chunk) (is_client : Bool)
    (padding : List ℕ) (now : ℕ) {bytes : List ℕ} {s' : Session} {b' : SendBuffer}
    → write_chunk prim s b c is_client padding now ≡ ok (bytes, s', b')
    → (encrypt_outgoing prim s c is_client padding now ≡ ok (bytes, s'))
      × (b' ≡ retain_data b c s.send_seq bytes)
unfolding write_chunk
write_chunk-ok prim s b c is_client padding now {bytes} {s'} {b'} e = ground arith

module _ (prim : Primitives) (shared : SessionKeys) (is_client : Bool) (chunks : ℕ → Chunk)
    (padding : ℕ → List ℕ) (well : (k : ℕ) → IsChunk (chunks k))
    (sized : (k : ℕ) → length (padding k) ≡ (chunks k).header.padding_length) where
  -- What is read of a chunk that was written.
  pub read_chunk-WrittenAs :
      (t : Session) (r : ReceiveBuffer) (k now : ℕ) (bytes : List ℕ)
      → t.keys ≡ shared
      → k < 2 ^ 64
      → WrittenAs prim shared is_client chunks padding k bytes
      → let taken = take_chunk r (renumber (chunks k) k) in
        (t' : Session) × (t'.keys ≡ shared)
        × (read_chunk prim t r bytes (not is_client) now ≡ ok (taken.0, t', taken.1))
  unfolding read_chunk decrypt_incoming
  read_chunk-WrittenAs t r k now bytes same small written =
      let opened =
        decode_sequenced-encode_sequenced prim (chunks k) (write_key shared is_client) (padding k)
          bytes [] k (well k) small (sized k) written in
      (
        after_incoming t (length bytes) now,
        same,
        rw (same, not-not is_client, rw (append-nil bytes) at opened) refl,
      )

-- ===== src/Protocol/Wire/Chunk/Safety.antt =====
-- Decoding ends without a panic on every input.
use kanrin.Common.{ℕ, ◌+◌, ◌≢◌, List, length, arith, Option-cases, inl, inr}
use kanrin.Protocol.Error.{panic}
use kanrin.Protocol.Error.Safety.{long_enough-then, slice-then, bind-then}
use kanrin.Protocol.Crypto.{Primitives, nonce_from_sequence}
use kanrin.Protocol.Wire.Header
use kanrin.Protocol.Wire.Header.{ChunkHeader, header_size, body_size}
use kanrin.Protocol.Wire.Header.RoundTrip.{decode_header-ne-panic}
use kanrin.Protocol.Wire.Chunk.{decode_encrypted, decode_sequenced}

module _ (prim : Primitives) where
  -- Whatever bytes arrive, `decode_encrypted` never indexes out of range.
  decode_encrypted-ne-panic :
      (bytes key nonce : List ℕ) → decode_encrypted prim bytes key nonce ≢ panic
  unfolding decode_encrypted
  decode_encrypted-ne-panic bytes key nonce =
      long_enough-then (length bytes) header_size _ _ λ long.
        slice-then bytes 0 header_size _ (omega arith) long λ front _.
          bind-then (Header.decode front) _ (decode_header-ne-panic front) λ found _.
            let total = header_size + body_size found.0 in
            long_enough-then (length bytes) total _ _ λ whole.
              slice-then bytes 0 header_size _ (omega arith) long λ aad _.
                slice-then bytes header_size total _ (unfold body_size in omega arith) whole
                  λ ciphertext size. elim (Option-cases (prim.unseal key nonce ciphertext aad)) [
                    | inl failed ↦ rw failed (λ p. cc)
                    | inr (plain, opened) ↦ rw opened (
                        slice-then plain 0 found.0.payload_length _ (omega arith)
                          (unfold body_size in
                            omega (arith, prim.length-unseal key nonce ciphertext aad plain opened))
                          λ payload _ p. cc)
                  ]

  -- Whatever bytes arrive, decoding a sequenced chunk gives a chunk or an error and never indexes
  -- out of range.
  pub decode_sequenced-ne-panic : (bytes key : List ℕ) → decode_sequenced prim bytes key ≢ panic
  unfolding decode_sequenced
  decode_sequenced-ne-panic bytes key = long_enough-then (length bytes) header_size _ _ λ long.
      slice-then bytes 0 header_size _ (omega arith) long λ front _.
        bind-then (Header.decode front) _ (decode_header-ne-panic front)
          λ found _. decode_encrypted-ne-panic bytes key (nonce_from_sequence found.0.sequence)

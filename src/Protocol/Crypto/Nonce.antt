-- ===== src/Protocol/Crypto/Nonce.antt =====
-- Nonces are never used twice under one key.
use kanrin.Common.{ℕ, ◌^◌, ◌≡◌, ◌<◌, sym, ap, ◌∙◌, drop}
use kanrin.Common.Bytes.{to_be, of_be, of_be-to_be}
use kanrin.Protocol.Crypto.{nonce_from_sequence}

to_be_injective : (w a b : ℕ) → a < 256 ^ w → b < 256 ^ w → to_be w a ≡ to_be w b → a ≡ b
to_be_injective w a b ha hb e = sym (of_be-to_be w a ha) ∙ ap of_be e ∙ of_be-to_be w b hb

-- Two sequence numbers below 2^64 that give one nonce are equal.
pub nonce_from_sequence_injective :
    (a b : ℕ) → a < 2 ^ 64 → b < 2 ^ 64 → nonce_from_sequence a ≡ nonce_from_sequence b → a ≡ b
unfolding nonce_from_sequence
nonce_from_sequence_injective a b ha hb e = to_be_injective 8 a b ha hb (ap (drop 4) e)

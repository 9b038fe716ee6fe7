-- ===== src/Protocol/Handshake/Safety.antt =====
-- Decoding a handshake message ends without a panic on every input.
use kanrin.Common.{ℕ, ◌+◌, ◌≢◌, ltb, Bool-cases, inl, inr, List, length, arith}
use kanrin.Protocol.Error.{panic}
use kanrin.Protocol.Error.Safety.{long_enough-then, index-then, slice-then, bind-then}
use kanrin.Protocol.Error.Words.{read_u16-then}
use kanrin.Protocol.Handshake.{
  from_byte, decode_token, decode_client_hello, decode_server_hello, decode_client_finished,
  decode_server_finished,
}

module _ (bytes : List ℕ) where
  client_hello_safe : decode_client_hello bytes ≢ panic
  unfolding decode_client_hello
  client_hello_safe = long_enough-then (length bytes) 73 _ _ λ long.
      index-then bytes 0 _ (omega arith) λ version.
        slice-then bytes 1 33 _ (omega arith) (omega arith) λ key _.
          slice-then bytes 33 41 _ (omega arith) (omega arith)
            λ stamp _. slice-then bytes 41 73 _ (omega arith) long λ random _ p. cc

  server_hello_safe : decode_server_hello bytes ≢ panic
  unfolding decode_server_hello
  server_hello_safe = long_enough-then (length bytes) 66 _ _ λ long.
      slice-then bytes 0 32 _ (omega arith) (omega arith) λ key _.
        read_u16-then bytes 32 _ (omega arith) λ n.
          long_enough-then (length bytes) (34 + n + 32) _ _ λ whole.
            slice-then bytes 34 (34 + n) _ (omega arith) (omega arith) λ token _.
              slice-then bytes (34 + n) (66 + n) _ (omega arith) (omega arith) λ random _ p. cc

  client_finished_safe : decode_client_finished bytes ≢ panic
  unfolding decode_client_finished
  client_finished_safe = long_enough-then (length bytes) 2 _ _ λ long.
      read_u16-then bytes 0 _ (omega arith) λ n.
        long_enough-then (length bytes) (2 + n) _ _
          λ whole. slice-then bytes 2 (2 + n) _ (omega arith) whole λ auth _ p. cc

  decode_token-ne-panic : (n : ℕ) → decode_token bytes n ≢ panic
  unfolding decode_token
  decode_token-ne-panic n = elim (Bool-cases (ltb 0 n)) [
    | inl some_token ↦ rw some_token (
        long_enough-then (length bytes) (3 + n) _ _
          λ whole. slice-then bytes 3 (3 + n) _ (omega arith) whole λ token _ p. cc)
    | inr no_token ↦ rw no_token (λ p. cc)
  ]

  server_finished_safe : decode_server_finished bytes ≢ panic
  unfolding decode_server_finished from_byte
  server_finished_safe = long_enough-then (length bytes) 3 _ _ λ long.
      index-then bytes 0 _ (omega arith) λ byte.
        bind-then (from_byte byte) _ (ground arith) λ status _.
          read_u16-then bytes 1 _ (omega arith)
            λ n. bind-then (decode_token bytes n) _ (decode_token-ne-panic n) λ token _ p. cc

  pub decode_messages-ne-panic :
      (decode_client_hello bytes ≢ panic)
      × (decode_server_hello bytes ≢ panic)
      × (decode_client_finished bytes ≢ panic)
      × (decode_server_finished bytes ≢ panic)
  decode_messages-ne-panic =
      (client_hello_safe, server_hello_safe, client_finished_safe, server_finished_safe)

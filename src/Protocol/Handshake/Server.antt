-- ===== src/Protocol/Handshake/Server.antt =====
-- `ServerHandshake` of crates/kanrin-protocol/src/handshake.rs. A key pair is its secret; the clock
-- and the random bytes are arguments.
use kanrin.Common.{ℕ, ◌-◌, List, Option, none, some, not, ltb, ◌==◌, if◌then◌else◌, length}
use kanrin.Protocol.Error.{
  Result, ok, err, panic, ◌>>=◌, slice, handshake_failed, keypair_consumed, replay_detected,
  unsupported_version,
}
use kanrin.Protocol.Crypto.{
  Primitives, Exchange, SessionKeys, decrypt, derive_session_keys, constant_time_eq,
}
use kanrin.Protocol.Wire.Header.{protocol_version}
use kanrin.Protocol.Handshake.{
  HandshakePhase, initial, hello_received, ClientHello, ServerHello, ClientFinished, AuthStatus,
  authenticated, invalid_credentials, max_timestamp_drift_secs,
}
use kanrin.Protocol.Handshake.Client.{auth_label}

pub record ServerHandshake : Type 0 where
  pub phase : HandshakePhase
  pub keypair : Option (List ℕ)
  pub shared_secret : Option (List ℕ)
  pub server_random : List ℕ

-- `secret` is what `KeyPair::generate` draws, `random` what `random_bytes` does.
unfoldable pub new_server : (secret random : List ℕ) → ServerHandshake
new_server secret random = record {
  phase = initial;
  keypair = some secret;
  shared_secret = none;
  server_random = random;
}

-- How far the two clocks are apart.
unfoldable pub clock_drift : (now timestamp : ℕ) → ℕ
clock_drift now timestamp = if ltb timestamp now then now - timestamp else timestamp - now

module _ (prim : Primitives) (dh : Exchange) where
  -- The rest of `process_client_hello`, behind its two checks.
  unfoldable pub answer_client_hello :
      ServerHandshake
      → ClientHello
      → (token : List ℕ) → Result (ServerHello × SessionKeys) × ServerHandshake
  answer_client_hello hs hello token = elim hs.keypair [
    | none ↦ (err (handshake_failed keypair_consumed), hs)
    | some secret ↦
        let shared = dh.diffie_hellman secret hello.ephemeral_public in
        let taken : ServerHandshake = record hs { keypair = none } in
        let reply : ServerHello = record {
          ephemeral_public = dh.public_bytes secret;
          encrypted_session_token = token;
          server_random = hs.server_random;
        } in
        elim (derive_session_keys prim shared hs.server_random) [
          | ok keys ↦ (
            ok (reply, keys),
            record taken { shared_secret = some shared; phase = hello_received },
          )
          | err e ↦ (err e, taken)
          | panic ↦ (panic, taken)
        ]
  ]

  -- `token` is what `random_bytes::<32>` gives.
  unfoldable pub process_client_hello :
      ServerHandshake
      → ClientHello
      → (now : ℕ) (token : List ℕ) → Result (ServerHello × SessionKeys) × ServerHandshake
  unfolding answer_client_hello
  process_client_hello hs hello now token =
      if ltb max_timestamp_drift_secs (clock_drift now hello.timestamp)
      then (err replay_detected, hs)
      else if not (hello.protocol_version == protocol_version)
      then (err (unsupported_version hello.protocol_version), hs)
      else answer_client_hello hs hello token

module _ (prim : Primitives) where
  unfoldable pub verify_auth :
      ClientFinished → SessionKeys → (expected_password : List ℕ) → Result AuthStatus
  verify_auth finished keys expected_password =
      if ltb (length finished.encrypted_auth) 12 then ok invalid_credentials else do
        nonce ← slice finished.encrypted_auth 0 12
        ciphertext ← slice finished.encrypted_auth 12 (length finished.encrypted_auth)
        elim (decrypt prim keys.client_write_key nonce ciphertext auth_label) [
          | ok plaintext ↦ ok (
              if constant_time_eq prim plaintext expected_password
              then authenticated
              else invalid_credentials)
          | err e ↦ ok invalid_credentials
          | panic ↦ panic
        ]

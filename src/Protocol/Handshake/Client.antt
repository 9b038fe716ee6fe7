-- ===== src/Protocol/Handshake/Client.antt =====
-- `ClientHandshake` of crates/kanrin-protocol/src/handshake.rs. A key pair is its secret; the clock
-- and the random bytes are arguments.
use kanrin.Common.{ℕ, List, [], ◌∷◌, ◌++◌, Option, none, some}
use kanrin.Protocol.Error.{
  Result, ok, err, ◌>>=◌, handshake_failed, keypair_consumed, keypair_already_consumed,
}
use kanrin.Protocol.Crypto.{Primitives, Exchange, SessionKeys, encrypt, derive_session_keys}
use kanrin.Protocol.Wire.Header.{protocol_version}
use kanrin.Protocol.Handshake.{
  HandshakePhase, initial, hello_received, ClientHello, ServerHello, ClientFinished,
}

pub record ClientHandshake : Type 0 where
  pub phase : HandshakePhase
  pub keypair : Option (List ℕ)
  pub shared_secret : Option (List ℕ)
  pub session_token : Option (List ℕ)

-- `secret` is what `KeyPair::generate` draws.
unfoldable pub new_client : (secret : List ℕ) → ClientHandshake
new_client secret = record {
  phase = initial;
  keypair = some secret;
  shared_secret = none;
  session_token = none;
}

-- "kanrin-auth"
abbrev pub auth_label : List ℕ
auth_label = 107 ∷ 97 ∷ 110 ∷ 114 ∷ 105 ∷ 110 ∷ 45 ∷ 97 ∷ 117 ∷ 116 ∷ 104 ∷ []

module _ (dh : Exchange) where
  unfoldable pub client_hello : ClientHandshake → (now : ℕ) (random : List ℕ) → Result ClientHello
  client_hello hs now random = elim hs.keypair [
    | none ↦ err (handshake_failed keypair_consumed)
    | some secret ↦ ok (record {
      protocol_version = protocol_version;
      ephemeral_public = dh.public_bytes secret;
      timestamp = now;
      random = random;
    })
  ]

module _ (prim : Primitives) (dh : Exchange) where
  -- The key pair is taken, whether or not the derivation succeeds.
  unfoldable pub process_server_hello :
      ClientHandshake → ServerHello → Result SessionKeys × ClientHandshake
  process_server_hello hs hello = elim hs.keypair [
    | none ↦ (err (handshake_failed keypair_already_consumed), hs)
    | some secret ↦
        let shared = dh.diffie_hellman secret hello.ephemeral_public in
        let taken : ClientHandshake = record hs { keypair = none } in
        elim (derive_session_keys prim shared hello.server_random) [
          | ok keys ↦ (
            ok keys,
            record taken {
              shared_secret = some shared;
              session_token = some hello.encrypted_session_token;
              phase = hello_received;
            },
          )
          | failed ↦ (failed, taken)
        ]
  ]

module _ (prim : Primitives) where
  unfoldable pub client_finished :
      (password : List ℕ) → SessionKeys → (nonce : List ℕ) → Result ClientFinished
  client_finished password keys nonce = do
    encrypted ← encrypt prim keys.client_write_key nonce password auth_label
    ok (record { encrypted_auth = nonce ++ encrypted })

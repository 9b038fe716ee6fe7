-- ===== src/Protocol/Handshake/Agreement.antt =====
-- A client and a server that exchange the two hellos hold the same session keys.
use kanrin.Common.{
  ℕ, ◌≡◌, ◌≤◌, ◌<◌, ◌^◌, [], append-nil, refl, List, none, some, Option-cases, inl, inr, arith,
  length,
}
use kanrin.Protocol.Error.{ok}
use kanrin.Protocol.Error.Safety.{Result-cases}
use kanrin.Protocol.Crypto.{Primitives, Exchange, SessionKeys, derive_session_keys}
use kanrin.Protocol.Wire.Header.{protocol_version}
use kanrin.Protocol.Handshake.{
  hello_received, ClientHello, ServerHello, encode_client_hello, decode_client_hello,
  encode_server_hello, decode_server_hello, max_timestamp_drift_secs,
}
use kanrin.Protocol.Handshake.RoundTrip.{
  decode_client_hello-encode_client_hello, decode_server_hello-encode_server_hello,
}
use kanrin.Protocol.Handshake.Client.{
  ClientHandshake, new_client, client_hello, process_server_hello,
}
use kanrin.Protocol.Handshake.Server.{
  ServerHandshake, new_server, clock_drift, answer_client_hello, process_client_hello,
}

module _ (prim : Primitives) (dh : Exchange) where
  -- What the server does with a hello, on every branch.
  pub process_client_hello_cases :
      (hs : ServerHandshake) (hello : ClientHello) (now : ℕ) (token : List ℕ) {reply : ServerHello}
      {keys : SessionKeys} {hs' : ServerHandshake}
      → process_client_hello prim dh hs hello now token ≡ (ok (reply, keys), hs')
      → (clock_drift now hello.timestamp ≤ max_timestamp_drift_secs)
        × (hello.protocol_version ≡ protocol_version)
        × (hs'.keypair ≡ none)
        × (hs'.phase ≡ hello_received)
        × (reply.encrypted_session_token ≡ token)
        × (reply.server_random ≡ hs.server_random)
        × ((secret : List ℕ) × (hs.keypair ≡ some secret)
            × (reply.ephemeral_public ≡ dh.public_bytes secret)
            × (derive_session_keys prim
                  (dh.diffie_hellman secret hello.ephemeral_public)
                  hs.server_random
                ≡ ok keys))
  unfolding process_client_hello answer_client_hello
  process_client_hello_cases hs hello now token e = elim (Option-cases hs.keypair) [
    | inl gone ↦ ground (arith, gone)
    | inr (secret, held) ↦
        let shared = dh.diffie_hellman secret hello.ephemeral_public in
        elim (Result-cases (derive_session_keys prim shared hs.server_random)) [
          | inl (keys, f) ↦ (
            ground (arith, held, f),
            ground (arith, held, f),
            ground (arith, held, f),
            ground (arith, held, f),
            ground (arith, held, f),
            ground (arith, held, f),
            (secret, held, ground (arith, held, f), ground (arith, held, f)),
          )
          | inr (inl (x, f)) ↦ ground (arith, held, f)
          | inr (inr f) ↦ ground (arith, held, f)
        ]
  ]

  shared_secret_agrees :
      (client server server_random : List ℕ) (keys : SessionKeys)
      → derive_session_keys prim (dh.diffie_hellman server (dh.public_bytes client)) server_random
        ≡ ok keys
      → derive_session_keys prim (dh.diffie_hellman client (dh.public_bytes server)) server_random
        ≡ ok keys
  shared_secret_agrees client server server_random keys e =
      rw (dh.diffie_hellman_comm client server) e

  -- If the clocks of the two ends are at most thirty seconds apart and the key derivation succeeds
  -- for the server, the two hellos go through, each reading back from its bytes, and both ends come
  -- to the same session keys and the same secret, with the token of the server at the client.
  pub handshake_agrees :
      (client server random server_random token : List ℕ) (sent now : ℕ) (keys : SessionKeys)
      → length random ≡ 32
      → length server_random ≡ 32
      → length token ≡ 32
      → sent < 2 ^ 64
      → clock_drift now sent ≤ max_timestamp_drift_secs
      → derive_session_keys prim (dh.diffie_hellman server (dh.public_bytes client)) server_random
        ≡ ok keys
      → (hello : ClientHello) × (reply : ServerHello) × (hc : ClientHandshake)
        × (hs : ServerHandshake) × (client_hello dh (new_client client) sent random ≡ ok hello)
        × (decode_client_hello (encode_client_hello hello) ≡ ok hello)
        × (process_client_hello prim dh (new_server server server_random) hello now token
            ≡ (ok (reply, keys), hs))
        × (decode_server_hello (encode_server_hello reply) ≡ ok reply)
        × (process_server_hello prim dh (new_client client) reply ≡ (ok keys, hc))
        × (hc.shared_secret ≡ hs.shared_secret)
        × (hc.session_token ≡ some token)
  unfolding process_client_hello answer_client_hello client_hello process_server_hello new_client
      new_server
  handshake_agrees client server random server_random token sent now keys r s t u near e =
      let f = shared_secret_agrees client server server_random keys e in
      let hello : ClientHello = record {
        protocol_version = protocol_version;
        ephemeral_public = dh.public_bytes client;
        timestamp = sent;
        random = random;
      } in
      let reply : ServerHello = record {
        ephemeral_public = dh.public_bytes server;
        encrypted_session_token = token;
        server_random = server_random;
      } in
      let there =
        decode_client_hello-encode_client_hello hello [] (record {
          ephemeral_public = dh.length-public_bytes client;
          timestamp = u;
          random = r;
        }) in
      let back = decode_server_hello-encode_server_hello reply [] (record {
        ephemeral_public = dh.length-public_bytes server;
        token = ground arith;
        server_random = s;
      }) in
      let shared = dh.diffie_hellman client (dh.public_bytes server) in
      let hc : ClientHandshake = record {
        phase = hello_received;
        keypair = none;
        shared_secret = some shared;
        session_token = some token;
      } in
      let hs : ServerHandshake = record {
        phase = hello_received;
        keypair = none;
        shared_secret = some shared;
        server_random = server_random;
      } in
      (
        hello,
        reply,
        hc,
        hs,
        refl,
        rw append-nil at there,
        ground (arith, e, dh.diffie_hellman_comm client server),
        rw append-nil at back,
        ground (arith, f),
        refl,
        refl,
      )

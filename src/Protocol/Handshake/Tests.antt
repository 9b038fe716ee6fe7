-- ===== src/Protocol/Handshake/Tests.antt =====
-- Runs of the first handshake over the toy primitives.
use kanrin.Common.{ℕ, ◌≡◌, ◌↔◌, ◌≤◌, refl, List, [], ◌∷◌, ◌++◌, none, some, arith}
use kanrin.Protocol.Error.{ok}
use kanrin.Protocol.Crypto.{Exchange, SessionKeys, encrypt, derive_session_keys}
use kanrin.Protocol.Crypto.Tests.{toy, tag}
use kanrin.Protocol.Wire.Header.{protocol_version}
use kanrin.Protocol.Handshake.{
  hello_received, authenticated, ClientHello, ServerHello, ServerFinished, encode_client_hello,
  decode_client_hello, encode_server_hello, decode_server_hello, max_timestamp_drift_secs,
}
use kanrin.Protocol.Handshake.RoundTrip.{IsServerFinished}
use kanrin.Protocol.Handshake.Client.{
  ClientHandshake, new_client, client_hello, process_server_hello, client_finished,
}
use kanrin.Protocol.Handshake.Server.{
  ServerHandshake, new_server, clock_drift, answer_client_hello, process_client_hello, verify_auth,
}
use kanrin.Protocol.Handshake.Agreement.{handshake_agrees}
use kanrin.Protocol.Handshake.Auth.{verify_auth-client_finished}

-- A public key of zeros, and a secret of zeros with every peer.
abbrev exchange : Exchange
exchange = record {
  public_bytes = λ secret. tag ++ tag;
  diffie_hellman = λ secret peer_public. tag ++ tag;
  diffie_hellman_comm = λ a b. refl;
  length-public_bytes = λ secret. refl;
}

abbrev keys : SessionKeys
keys = record { client_write_key = tag ++ tag; server_write_key = tag ++ tag }

abbrev secret_text : List ℕ
secret_text = 115 ∷ 51 ∷ []

abbrev nonce : List ℕ
nonce = 0 ∷ 1 ∷ 2 ∷ 3 ∷ 4 ∷ 5 ∷ 6 ∷ 7 ∷ 8 ∷ 9 ∷ 10 ∷ 11 ∷ []

abbrev hello : ClientHello
hello = record {
  protocol_version = protocol_version;
  ephemeral_public = tag ++ tag;
  timestamp = 1000;
  random = tag ++ tag;
}

abbrev reply : ServerHello
reply = record {
  ephemeral_public = tag ++ tag;
  encrypted_session_token = tag ++ tag;
  server_random = tag ++ tag;
}

abbrev answered : ServerHandshake
answered = record {
  phase = hello_received;
  keypair = none;
  shared_secret = some (tag ++ tag);
  server_random = tag ++ tag;
}

abbrev last : ServerFinished
last = record { status = authenticated; session_token = some tag }

near : clock_drift 1020 1000 ≤ max_timestamp_drift_secs
unfolding clock_drift
near = omega arith

answer :
    process_client_hello toy exchange (new_server tag (tag ++ tag)) hello 1020 (tag ++ tag)
    ≡ (ok (reply, keys), answered)
unfolding process_client_hello answer_client_hello new_server derive_session_keys clock_drift
answer = refl

derived : derive_session_keys toy (tag ++ tag) (tag ++ tag) ≡ ok keys
unfolding derive_session_keys
derived = refl

finish :
    client_finished toy secret_text keys nonce
    ≡ ok (record { encrypted_auth = nonce ++ (secret_text ++ tag) })
unfolding client_finished encrypt
finish = refl

last-IsServerFinished : IsServerFinished last
unfolding IsServerFinished
last-IsServerFinished = λ token e. ground arith

handshake_agrees_example :
    (hello : ClientHello) × (reply : ServerHello) × (hc : ClientHandshake) × (hs : ServerHandshake)
    × (client_hello exchange (new_client tag) 1000 (tag ++ tag) ≡ ok hello)
    × (decode_client_hello (encode_client_hello hello) ≡ ok hello)
    × (process_client_hello toy exchange (new_server tag (tag ++ tag)) hello 1020 (tag ++ tag)
        ≡ (ok (reply, keys), hs))
    × (decode_server_hello (encode_server_hello reply) ≡ ok reply)
    × (process_server_hello toy exchange (new_client tag) reply ≡ (ok keys, hc))
    × (hc.shared_secret ≡ hs.shared_secret)
    × (hc.session_token ≡ some (tag ++ tag))
handshake_agrees_example =
    handshake_agrees toy exchange tag tag (tag ++ tag) (tag ++ tag) (tag ++ tag) 1000 1020 keys refl
      refl refl (omega arith) near derived

verify_auth-client_finished_example :
    (verify_auth toy (record { encrypted_auth = nonce ++ (secret_text ++ tag) }) keys secret_text
      ≡ ok authenticated)
    ↔ (secret_text ≡ secret_text)
verify_auth-client_finished_example =
    verify_auth-client_finished toy secret_text secret_text nonce keys refl finish

-- ===== src/Protocol/Handshake.antt =====
-- crates/kanrin-protocol/src/handshake.rs: the four messages of the first handshake. The two state
-- machines are the children `Client` and `Server`.
pub mod Client
pub mod Server
pub mod RoundTrip
pub mod Safety
pub mod Agreement
pub mod Auth
mod Tests
use kanrin.Common.{
  ℕ, ◌+◌, ◌%◌, ◌^◌, List, [], ◌∷◌, ◌++◌, Option, none, some, not, ltb, ◌==◌, if◌then◌else◌, length,
}
use kanrin.Common.Bytes.{to_be, of_be}
use kanrin.Protocol.Error.{
  Result, ok, err, ◌>>=◌, ◌>>◌, fail_if, slice, index, read_u16, buffer_too_short, handshake_failed,
  unknown_auth_status,
}

abbrev pub max_timestamp_drift_secs : ℕ
max_timestamp_drift_secs = 30

pub data HandshakePhase : Type 0 where
  initial hello_sent hello_received finished : HandshakePhase

pub data AuthStatus : Type 0 where
  authenticated invalid_credentials rate_limited server_full : AuthStatus

-- `status as u8`
pub auth_byte : AuthStatus → ℕ
auth_byte authenticated = 0x00
auth_byte invalid_credentials = 0x01
auth_byte rate_limited = 0x02
auth_byte server_full = 0x03

pub from_byte : ℕ → Result AuthStatus
from_byte b =
    if b == 0x00
    then ok authenticated
    else if b == 0x01
    then ok invalid_credentials
    else if b == 0x02
    then ok rate_limited
    else if b == 0x03
    then ok server_full
    else err (handshake_failed (unknown_auth_status b))

pub record ClientHello : Type 0 where
  pub protocol_version : ℕ
  pub ephemeral_public : List ℕ
  pub timestamp : ℕ
  pub random : List ℕ

pub record ServerHello : Type 0 where
  pub ephemeral_public : List ℕ
  pub encrypted_session_token : List ℕ
  pub server_random : List ℕ

pub record ClientFinished : Type 0 where
  pub encrypted_auth : List ℕ

pub record ServerFinished : Type 0 where
  pub status : AuthStatus
  pub session_token : Option (List ℕ)

pub encode_client_hello : ClientHello → List ℕ
encode_client_hello h =
    h.protocol_version ∷ (h.ephemeral_public ++ (to_be 8 h.timestamp ++ h.random))

pub decode_client_hello : List ℕ → Result ClientHello
decode_client_hello bytes = do
  fail_if (ltb (length bytes) 73) (buffer_too_short 73 (length bytes))
  version ← index bytes 0
  ephemeral ← slice bytes 1 33
  stamp ← slice bytes 33 41
  random ← slice bytes 41 73
  ok (record {
    protocol_version = version;
    ephemeral_public = ephemeral;
    timestamp = of_be stamp;
    random = random;
  })

-- `(len() as u16).to_be_bytes()` and the bytes.
pub prefixed : List ℕ → List ℕ
prefixed bytes = to_be 2 (length bytes % 2 ^ 16) ++ bytes

pub encode_server_hello : ServerHello → List ℕ
unfolding prefixed
encode_server_hello h =
    h.ephemeral_public ++ (prefixed h.encrypted_session_token ++ h.server_random)

pub decode_server_hello : List ℕ → Result ServerHello
decode_server_hello bytes = do
  fail_if (ltb (length bytes) 66) (buffer_too_short 66 (length bytes))
  ephemeral ← slice bytes 0 32
  token_len ← read_u16 bytes 32
  fail_if (ltb (length bytes) (34 + token_len + 32))
      (buffer_too_short (34 + token_len + 32) (length bytes))
  token ← slice bytes 34 (34 + token_len)
  random ← slice bytes (34 + token_len) (66 + token_len)
  ok (record {
    ephemeral_public = ephemeral;
    encrypted_session_token = token;
    server_random = random;
  })

pub encode_client_finished : ClientFinished → List ℕ
unfolding prefixed
encode_client_finished f = prefixed f.encrypted_auth

pub decode_client_finished : List ℕ → Result ClientFinished
decode_client_finished bytes = do
  fail_if (ltb (length bytes) 2) (buffer_too_short 2 (length bytes))
  auth_len ← read_u16 bytes 0
  fail_if (ltb (length bytes) (2 + auth_len)) (buffer_too_short (2 + auth_len) (length bytes))
  auth ← slice bytes 2 (2 + auth_len)
  ok (record { encrypted_auth = auth })

pub encode_server_finished : ServerFinished → List ℕ
unfolding prefixed
encode_server_finished f =
    auth_byte f.status ∷ elim f.session_token [ some token ↦ prefixed token | none ↦ to_be 2 0 ]

-- The token behind its length; no length means no token.
decode_token : List ℕ → (token_len : ℕ) → Result (Option (List ℕ))
decode_token bytes token_len = if not (ltb 0 token_len) then ok none else do
  fail_if (ltb (length bytes) (3 + token_len)) (buffer_too_short (3 + token_len) (length bytes))
  token ← slice bytes 3 (3 + token_len)
  ok (some token)

pub decode_server_finished : List ℕ → Result ServerFinished
unfolding decode_token
decode_server_finished bytes = do
  fail_if (ltb (length bytes) 3) (buffer_too_short 3 (length bytes))
  byte ← index bytes 0
  status ← from_byte byte
  token_len ← read_u16 bytes 1
  token ← decode_token bytes token_len
  ok (record { status = status; session_token = token })

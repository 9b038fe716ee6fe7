-- ===== src/Protocol/Session.antt =====
-- `Session` of crates/kanrin-protocol/src/session.rs. `now` is what `Instant::now()` gives, in
-- nanoseconds; random bytes that the code draws are arguments. A method returns the new session
-- beside its result; where it fails, the session is as it was.
pub mod Outgoing
pub mod Migration
pub mod Manager
mod Tests
use kanrin.Common.{
  ℕ, ◌-◌, Bool, true, false, not, List, Option, none, some, ltb, if◌then◌else◌, length,
}
use kanrin.Common.Word.{add_u64}
use kanrin.Protocol.Error.{Result, ok, ◌>>=◌, ◌>>◌, fail_if, nonce_exhausted}
use kanrin.Protocol.Crypto.{Primitives, SessionKeys, max_nonce, constant_time_eq}
use kanrin.Protocol.Wire.Chunk.{Chunk, encode_sequenced, decode_sequenced}

pub data SessionState : Type 0 where
  handshaking active migrating suspended closed : SessionState

pub record Session : Type 0 where
  pub id : List ℕ
  pub state : SessionState
  pub keys : SessionKeys
  pub send_seq : ℕ
  pub recv_count : ℕ
  pub created_at : ℕ
  pub last_activity : ℕ
  pub bytes_sent : ℕ
  pub bytes_received : ℕ
  pub migration_token : Option (List ℕ)

unfoldable pub new : (id : List ℕ) (keys : SessionKeys) (now : ℕ) → Session
new id keys now = record {
  id = id;
  state = SessionState.active;
  keys = keys;
  send_seq = 0;
  recv_count = 0;
  created_at = now;
  last_activity = now;
  bytes_sent = 0;
  bytes_received = 0;
  migration_token = none;
}

-- The key of the direction away from the client, or towards it.
abbrev pub write_key : SessionKeys → (from_client : Bool) → List ℕ
write_key keys from_client = if from_client then keys.client_write_key else keys.server_write_key

-- The counters behind a chunk that was decrypted; they wrap.
abbrev pub after_incoming : Session → (size now : ℕ) → Session
after_incoming s size now = record s {
  recv_count = add_u64 s.recv_count 1;
  bytes_received = add_u64 s.bytes_received size;
  last_activity = now;
}

module _ (prim : Primitives) where
  -- `padding` is drawn inside `encode_sequenced`. The byte counter wraps.
  unfoldable pub encrypt_outgoing :
      Session → Chunk → (is_client : Bool) (padding : List ℕ) (now : ℕ) → Result (List ℕ × Session)
  encrypt_outgoing s chunk is_client padding now = do
    fail_if (not (ltb s.send_seq max_nonce)) nonce_exhausted
    encoded ← encode_sequenced prim chunk (write_key s.keys is_client) s.send_seq padding
    ok (
      encoded,
      record s {
        send_seq = add_u64 s.send_seq 1;
        bytes_sent = add_u64 s.bytes_sent (length encoded);
        last_activity = now;
      },
    )

  unfoldable pub decrypt_incoming :
      Session → (bytes : List ℕ) (is_client : Bool) (now : ℕ) → Result (Chunk × Session)
  decrypt_incoming s bytes is_client now = do
    chunk ← decode_sequenced prim bytes (write_key s.keys (not is_client))
    ok (chunk, after_incoming s (length bytes) now)

  pub validate_migration_token : Session → (token : List ℕ) → Bool
  validate_migration_token s token = elim s.migration_token [
    | some expected ↦ constant_time_eq prim expected token
    | none ↦ false
  ]

-- `token` is the 32 random bytes.
pub generate_migration_token : Session → (token : List ℕ) → List ℕ × Session
generate_migration_token s token = (token, record s { migration_token = some token })

-- `Instant` differences stop at zero.
age : Session → (now : ℕ) → ℕ
age s now = now - s.created_at

idle_time : Session → (now : ℕ) → ℕ
idle_time s now = now - s.last_activity

pub is_idle : Session → (timeout now : ℕ) → Bool
unfolding idle_time
is_idle s timeout now = ltb timeout (idle_time s now)

pub begin_migration : Session → Session
begin_migration s = record s { state = SessionState.migrating }

pub complete_migration : Session → Session
complete_migration s = record s { state = SessionState.active; migration_token = none }

close : Session → Session
close s = record s { state = SessionState.closed }

-- ===== src/Protocol/Session/Tests.antt =====
-- Runs of sessions over the toy primitives.
use kanrin.Common.{
  ℕ, ◌≡◌, ◌≢◌, ◌≤◌, ◌<◌, ◌⊎◌, refl, true, false, List, [], ◌∷◌, some, Option, arith, length,
}
use kanrin.Common.Bytes.{to_be, slice?}
use kanrin.Common.Table.{retain}
use kanrin.Protocol.Error.{Result, ok, err, session, max_sessions_reached}
use kanrin.Protocol.Crypto.{SessionKeys, encrypt}
use kanrin.Protocol.Crypto.Tests.{toy}
use kanrin.Protocol.Wire.Header
use kanrin.Protocol.Wire.Header.{ChunkType, IsHeader, to_byte}
use kanrin.Protocol.Wire.Chunk.{Chunk, encode_encrypted, encode_sequenced}
use kanrin.Protocol.Wire.Chunk.RoundTrip.{IsChunk}
use kanrin.Protocol.Session as Sessions
use kanrin.Protocol.Session.{
  Session, SessionState, encrypt_outgoing, decrypt_incoming, generate_migration_token,
  validate_migration_token, begin_migration, complete_migration,
}
use kanrin.Protocol.Session.Outgoing.{
  SealedUnder, here, decrypt_incoming-encrypt_outgoing, encrypt_outgoing_nonces_differ,
}
use kanrin.Protocol.Session.Manager.{
  SessionManager, create_session, cleanup_idle, is_live, get_session, total_count,
}
use kanrin.Protocol.Session.Manager.Bound.{create_session_cases}

abbrev keys : SessionKeys
keys = record { client_write_key = 1 ∷ []; server_write_key = 2 ∷ [] }

abbrev chunk : Chunk
chunk = record {
  header = record {
    version = 1;
    chunk_type = ChunkType.data_chunk;
    sequence = 0;
    payload_length = 2;
    padding_length = 1;
  };
  payload = 104 ∷ 105 ∷ [];
}

chunk-IsChunk : IsChunk chunk
chunk-IsChunk = record {
  header = record {
    version_byte = omega arith;
    sequence_u64 = omega arith;
    payload_u16 = omega arith;
    padding_u8 = omega arith;
  };
  version = refl;
  payload_length = refl;
}

-- A session that has sent four chunks, and its peer, which has received seven.
abbrev client : Session
client = record {
  id = 9 ∷ [];
  state = SessionState.active;
  keys = keys;
  send_seq = 4;
  recv_count = 0;
  created_at = 0;
  last_activity = 0;
  bytes_sent = 0;
  bytes_received = 0;
  migration_token = Option.none;
}

abbrev server : Session
server = record client { send_seq = 0; recv_count = 7 }

abbrev bytes_of : Result (List ℕ) → List ℕ
bytes_of (Result.ok bs) = bs
bytes_of (Result.err e) = []
bytes_of Result.panic = []

abbrev first_bytes : List ℕ
first_bytes = bytes_of (encode_sequenced toy chunk (1 ∷ []) 4 (0 ∷ []))

abbrev second_bytes : List ℕ
second_bytes = bytes_of (encode_sequenced toy chunk (1 ∷ []) 5 (0 ∷ []))

abbrev client_after : Session
client_after = record client { send_seq = 5; bytes_sent = 32; last_activity = 3 }

abbrev client_last : Session
client_last = record client { send_seq = 6; bytes_sent = 64; last_activity = 8 }

encrypt-first : encrypt_outgoing toy client chunk true (0 ∷ []) 3 ≡ ok (first_bytes, client_after)
unfolding encrypt_outgoing encode_sequenced encode_encrypted encrypt slice? to_be to_byte
    Header.encode
encrypt-first = refl

encrypt-second :
    encrypt_outgoing toy client_after chunk true (0 ∷ []) 8 ≡ ok (second_bytes, client_last)
unfolding encrypt_outgoing encode_sequenced encode_encrypted encrypt slice? to_be to_byte
    Header.encode
encrypt-second = refl

decrypt_incoming-encrypt_outgoing_example :
    (t' : Session) × (decrypt_incoming toy server first_bytes false 10
      ≡ ok (record chunk { header = record chunk.header { sequence = 4 } }, t'))
decrypt_incoming-encrypt_outgoing_example =
    decrypt_incoming-encrypt_outgoing toy client server chunk true (0 ∷ []) 3 10
      {bytes = first_bytes} {s' = client_after} refl chunk-IsChunk refl encrypt-first

encrypt_outgoing_nonces_differ_example :
    (nonce : List ℕ) × (nonce' : List ℕ) × SealedUnder toy keys chunk true
      (0 ∷ [])
      first_bytes
      nonce
    × SealedUnder toy keys chunk true (0 ∷ []) second_bytes nonce'
    × (nonce ≢ nonce')
encrypt_outgoing_nonces_differ_example =
    encrypt_outgoing_nonces_differ toy client client_after chunk chunk true (0 ∷ []) (0 ∷ []) 3 8
      {bytes = first_bytes} {bytes' = second_bytes} {s' = client_after} {t' = client_last}
      encrypt-first here encrypt-second

abbrev token : List ℕ
token = 1 ∷ 2 ∷ []

abbrev guess : List ℕ
guess = 1 ∷ 3 ∷ []

abbrev full : SessionManager
full = record { sessions = (9 ∷ [], client) ∷ []; max_sessions = 1; idle_timeout = 60 }

full-fits : total_count full ≤ 1
unfolding total_count
full-fits = omega arith

create_session_cases_example :
    ((1 ≤ length (retain (is_live 60 100) full.sessions))
      × (create_session full keys (8 ∷ []) 100
          ≡ (err (session max_sessions_reached), cleanup_idle full 100)))
    ⊎ ((length (retain (is_live 60 100) full.sessions) < 1)
        × (m' : SessionManager) × (create_session full keys (8 ∷ []) 100 ≡ (ok (8 ∷ []), m'))
        × (get_session m' (8 ∷ []) ≡ some (Sessions.new (8 ∷ []) keys 100))
        × (total_count m' ≤ 1))
create_session_cases_example = create_session_cases full keys (8 ∷ []) 100 full-fits

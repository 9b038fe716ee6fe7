-- ===== src/Protocol/Error.antt =====
-- crates/kanrin-protocol/src/error.rs, and the outcome of a fallible function.
-- A message text is kept as the constant or the number that it is made of.
pub mod Safety
pub mod Words
use kanrin.Common.{ℕ, ◌+◌, ◌≡◌, ◌≢◌, refl, Bool, true, false, Option, none, some, List, [], ◌∷◌}
use kanrin.Common.Bytes.{get_elem?, slice?, of_be}

-- The texts of `InvalidChunk`.
pub data ChunkFault : Type 0 where
  unknown_chunk_type : ℕ → ChunkFault
  empty_control_message : ChunkFault
  unknown_disconnect_reason : ChunkFault
  too_many_sack_ranges : ℕ → ChunkFault
  sack_start_after_end : ChunkFault
  sack_not_ascending : ChunkFault
  unknown_control_message_type : ℕ → ChunkFault
  empty_proxy_request : ChunkFault
  unknown_proxy_request_type : ℕ → ChunkFault

-- The texts of `HandshakeFailed` and `Session` that this development meets.
pub data Failure : Type 0 where
  unknown_resume_status : ℕ → Failure
  unknown_auth_status : ℕ → Failure
  keypair_consumed : Failure
  keypair_already_consumed : Failure
  max_sessions_reached : Failure

pub data ProtocolError : Type 0 where
  crypto : ProtocolError
  invalid_chunk : ChunkFault → ProtocolError
  handshake_failed : Failure → ProtocolError
  session : Failure → ProtocolError
  auth_failed : ProtocolError
  replay_detected : ProtocolError
  nonce_exhausted : ProtocolError
  send_buffer_full : (buffered max : ℕ) → ProtocolError
  receive_buffer_full : (buffered max : ℕ) → ProtocolError
  buffer_too_short : (need got : ℕ) → ProtocolError
  unsupported_version : ℕ → ProtocolError
  rate_limited : ProtocolError
  io : ProtocolError

-- `Result<A, ProtocolError>`; `panic` is a slice or an index out of range, which ends the thread.
pub data Result {ℓ} (A : Type ℓ) : Type ℓ where
  ok : A → Result A
  err : ProtocolError → Result A
  panic : Result A

infixl 5 ◌>>=◌ ◌>>◌
abbrev pub ◌>>=◌ {ℓ κ} : {A : Type ℓ} {B : Type κ} → Result A → (A → Result B) → Result B
ok a >>= f = f a
err e >>= f = err e
panic >>= f = panic

abbrev pub ◌>>◌ {ℓ} : {B : Type ℓ} → Result (Unit {0}) → Result B → Result B
m >> k = m >>= λ _. k

-- `if test { return Err(e) }`
abbrev pub fail_if : Bool → ProtocolError → Result (Unit {0})
fail_if true e = err e
fail_if false e = ok tt

abbrev pub or_panic {ℓ} : {A : Type ℓ} → Option A → Result A
or_panic none = panic
or_panic (some a) = ok a

-- `xs[i]`
abbrev pub index : List ℕ → ℕ → Result ℕ
index xs i = or_panic (get_elem? xs i)

-- `xs[a..b]`
abbrev pub slice : List ℕ → ℕ → ℕ → Result (List ℕ)
slice xs a b = or_panic (slice? a b xs)

-- `u16::from_be_bytes([xs[i], xs[i + 1]])`
unfoldable pub read_u16 : List ℕ → ℕ → Result ℕ
read_u16 xs i = do high ← index xs i; low ← index xs (i + 1); ok (of_be (high ∷ low ∷ []))

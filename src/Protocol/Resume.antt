-- ===== src/Protocol/Resume.antt =====
-- crates/kanrin-protocol/src/resume.rs: the two messages of the resumption handshake. The clock
-- and the random bytes are arguments, and arrays are lists of their length.
pub mod RoundTrip
pub mod Proof
mod Tests
use kanrin.Common.{
  ℕ, ◌-◌, ◌+◌, List, [], ◌∷◌, ◌++◌, Bool, true, false, ltb, ◌==◌, if◌then◌else◌, length,
}
use kanrin.Common.Bytes.{to_be, of_be}
use kanrin.Protocol.Error.{
  Result, ok, err, ◌>>=◌, ◌>>◌, fail_if, slice, index, buffer_too_short, handshake_failed,
  unknown_resume_status,
}
use kanrin.Protocol.Crypto.{
  Primitives, SessionKeys, mac_sha256, derive_resumption_key, constant_time_eq, concatenate,
}

abbrev pub max_resume_drift_secs : ℕ
max_resume_drift_secs = 30

abbrev pub resume_request_size : ℕ
resume_request_size = 96

abbrev pub resume_response_size : ℕ
resume_response_size = 73

pub data ResumeStatus : Type 0 where
  accepted unknown_session proof_invalid stale not_resumable : ResumeStatus

-- `status as u8`
pub status_byte : ResumeStatus → ℕ
status_byte accepted = 0x00
status_byte unknown_session = 0x01
status_byte proof_invalid = 0x02
status_byte stale = 0x03
status_byte not_resumable = 0x04

pub status_of_byte : ℕ → Result ResumeStatus
status_of_byte b =
    if b == 0x00
    then ok accepted
    else if b == 0x01
    then ok unknown_session
    else if b == 0x02
    then ok proof_invalid
    else if b == 0x03
    then ok stale
    else if b == 0x04
    then ok not_resumable
    else err (handshake_failed (unknown_resume_status b))

pub record ResumeRequest : Type 0 where
  pub session_id : List ℕ
  pub timestamp : ℕ
  pub client_random : List ℕ
  pub next_expected : ℕ
  pub proof : List ℕ

pub record ResumeResponse : Type 0 where
  pub status : ResumeStatus
  pub server_random : List ℕ
  pub next_expected : ℕ
  pub proof : List ℕ

-- "kanrin-resume-request"
abbrev request_label : List ℕ
request_label =
    107 ∷ 97 ∷ 110 ∷ 114 ∷ 105 ∷ 110 ∷ 45 ∷ 114 ∷ 101 ∷ 115 ∷ 117 ∷ 109 ∷ 101 ∷ 45 ∷ 114 ∷ 101 ∷ 113
    ∷ 117 ∷ 101 ∷ 115 ∷ 116 ∷ []

-- "kanrin-resume-response"
abbrev response_label : List ℕ
response_label =
    107 ∷ 97 ∷ 110 ∷ 114 ∷ 105 ∷ 110 ∷ 45 ∷ 114 ∷ 101 ∷ 115 ∷ 117 ∷ 109 ∷ 101 ∷ 45 ∷ 114 ∷ 101 ∷ 115
    ∷ 112 ∷ 111 ∷ 110 ∷ 115 ∷ 101 ∷ []

-- The parts that the proof of a request covers.
pub request_parts : ResumeRequest → List (List ℕ)
request_parts r =
    request_label
    ∷ r.session_id
    ∷ to_be 8 r.timestamp
    ∷ r.client_random
    ∷ to_be 8 r.next_expected
    ∷ []

pub response_parts : ResumeResponse → ResumeRequest → List (List ℕ)
response_parts r request =
    response_label
    ∷ request.client_random
    ∷ (status_byte r.status ∷ [])
    ∷ r.server_random
    ∷ to_be 8 r.next_expected
    ∷ []

-- `now.abs_diff(timestamp)`
abbrev pub abs_diff : ℕ → ℕ → ℕ
abs_diff a b = (a - b) + (b - a)

module _ (prim : Primitives) where
  pub request_proof : ResumeRequest → (resumption_key : List ℕ) → List ℕ
  request_proof r resumption_key = mac_sha256 prim resumption_key (request_parts r)

  pub response_proof : ResumeResponse → (resumption_key : List ℕ) → ResumeRequest → List ℕ
  response_proof r resumption_key request =
      mac_sha256 prim resumption_key (response_parts r request)

  -- `now` and `random` are what the clock and the generator give.
  pub new_request :
      (session_id : List ℕ) (next_expected : ℕ)
      → SessionKeys
      → (now : ℕ) (random : List ℕ) → Result ResumeRequest
  new_request session_id next_expected keys now random = do
    let req : ResumeRequest = record {
      session_id = session_id;
      timestamp = now;
      client_random = random;
      next_expected = next_expected;
      proof = [];
    }
    key ← derive_resumption_key prim keys
    ok (record req { proof = request_proof req key })

  pub verify_request : ResumeRequest → SessionKeys → (now : ℕ) → Result ResumeStatus
  verify_request r keys now =
      if ltb max_resume_drift_secs (abs_diff now r.timestamp) then ok stale else do
        key ← derive_resumption_key prim keys
        ok (if constant_time_eq prim (request_proof r key) r.proof then accepted else proof_invalid)

  pub new_response :
      ResumeStatus
      → (next_expected : ℕ) → ResumeRequest
      → SessionKeys
      → (random : List ℕ) → Result ResumeResponse
  new_response status next_expected request keys random = do
    let resp : ResumeResponse = record {
      status = status;
      server_random = random;
      next_expected = next_expected;
      proof = [];
    }
    key ← derive_resumption_key prim keys
    ok (record resp { proof = response_proof resp key request })

  pub verify_response : ResumeResponse → ResumeRequest → SessionKeys → Result Bool
  verify_response r request keys = do
    key ← derive_resumption_key prim keys
    ok (constant_time_eq prim (response_proof r key request) r.proof)

pub encode_request : ResumeRequest → List ℕ
encode_request r =
    r.session_id
    ++ (to_be 8 r.timestamp ++ (r.client_random ++ (to_be 8 r.next_expected ++ r.proof)))

pub decode_request : List ℕ → Result ResumeRequest
decode_request bytes = do
  fail_if (ltb (length bytes) resume_request_size)
      (buffer_too_short resume_request_size (length bytes))
  session_id ← slice bytes 0 16
  timestamp ← slice bytes 16 24
  client_random ← slice bytes 24 56
  next_expected ← slice bytes 56 64
  proof ← slice bytes 64 96
  ok (record {
    session_id = session_id;
    timestamp = of_be timestamp;
    client_random = client_random;
    next_expected = of_be next_expected;
    proof = proof;
  })

pub encode_response : ResumeResponse → List ℕ
encode_response r = status_byte r.status ∷ (r.server_random ++ (to_be 8 r.next_expected ++ r.proof))

pub decode_response : List ℕ → Result ResumeResponse
decode_response bytes = do
  fail_if (ltb (length bytes) resume_response_size)
      (buffer_too_short resume_response_size (length bytes))
  byte ← index bytes 0
  status ← status_of_byte byte
  server_random ← slice bytes 1 33
  next_expected ← slice bytes 33 41
  proof ← slice bytes 41 73
  ok (record {
    status = status;
    server_random = server_random;
    next_expected = of_be next_expected;
    proof = proof;
  })

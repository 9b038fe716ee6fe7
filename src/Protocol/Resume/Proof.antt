-- ===== src/Protocol/Resume/Proof.antt =====
-- What the proofs of the resumption handshake establish.
use kanrin.Common.{inl, inr, ℕ, ◌↔◌, ◌≡◌, ◌≤◌, ◌<◌, ◌^◌, refl, sym, ◌∙◌, ap, List, true, arith}
use kanrin.Common.Bytes.{to_be, of_be, length-to_be, of_be-to_be, append_injective}
use kanrin.Protocol.Error.{ok}
use kanrin.Protocol.Error.Safety.{Result-cases}
use kanrin.Protocol.Crypto.{Primitives, SessionKeys, derive_resumption_key, concatenate}
use kanrin.Protocol.Crypto.Compare.{constant_time_eq_iff}
use kanrin.Protocol.Resume.{
  ResumeRequest, ResumeResponse, ResumeStatus, accepted, request_label, request_parts,
  request_proof, response_proof, response_parts, abs_diff, max_resume_drift_secs, new_request,
  verify_request, new_response, verify_response,
}
use kanrin.Protocol.Resume.RoundTrip.{IsRequest}

to_be_injective : (a b : ℕ) → a < 2 ^ 64 → b < 2 ^ 64 → to_be 8 a ≡ to_be 8 b → a ≡ b
to_be_injective a b h k e = sym (of_be-to_be 8 a h) ∙ ap of_be e ∙ of_be-to_be 8 b k

-- Two well-formed resume requests whose proofs are computed over the same bytes agree in session,
-- time, nonce and position.
pub request_parts_injective :
    (a b : ResumeRequest)
    → IsRequest a
    → IsRequest b
    → concatenate (request_parts a) ≡ concatenate (request_parts b)
    → (a.session_id ≡ b.session_id)
      × (a.timestamp ≡ b.timestamp)
      × (a.client_random ≡ b.client_random)
      × (a.next_expected ≡ b.next_expected)
unfolding concatenate request_parts
request_parts_injective a b v w e =
    let body = (append_injective request_label request_label _ _ refl e).1 in
    let (id, stamped) =
      append_injective a.session_id b.session_id _ _ (v.session_id ∙ sym w.session_id) body in
    let (stamp, drawn) =
      append_injective (to_be 8 a.timestamp) (to_be 8 b.timestamp) _ _
        (length-to_be 8 a.timestamp ∙ sym (length-to_be 8 b.timestamp)) stamped in
    let (random, placed) =
      append_injective a.client_random b.client_random _ _ (v.client_random ∙ sym w.client_random)
        drawn in
    let position =
      (append_injective (to_be 8 a.next_expected) (to_be 8 b.next_expected) _ _
        (length-to_be 8 a.next_expected ∙ sym (length-to_be 8 b.next_expected)) placed).0 in
    (
      id,
      to_be_injective a.timestamp b.timestamp v.timestamp w.timestamp stamp,
      random,
      to_be_injective a.next_expected b.next_expected v.next_expected w.next_expected position,
    )

module _ (prim : Primitives) where
  -- For the resumption key that the session keys give, the server accepts a resume request if and
  -- only if its time is within the drift and its proof is the one computed under that key.
  pub verify_request_iff :
      (r : ResumeRequest) (keys : SessionKeys) (now : ℕ) (key : List ℕ)
      → derive_resumption_key prim keys ≡ ok key
      → (verify_request prim r keys now ≡ ok accepted) ↔ (
          (abs_diff now r.timestamp ≤ max_resume_drift_secs) × (request_proof prim r key ≡ r.proof))
  unfolding verify_request
  verify_request_iff r keys now key e =
      ground (arith, e, constant_time_eq_iff prim (request_proof prim r key) r.proof)

  new_request-ok :
      (session_id random : List ℕ) (next_expected now : ℕ) (keys : SessionKeys) {r : ResumeRequest}
      → new_request prim session_id next_expected keys now random ≡ ok r
      → (key : List ℕ) × (derive_resumption_key prim keys ≡ ok key)
        × (r.timestamp ≡ now)
        × (request_proof prim r key ≡ r.proof)
  unfolding new_request request_proof request_parts
  new_request-ok session_id random next_expected now keys e =
      elim (Result-cases (derive_resumption_key prim keys)) [
        | inl (key, f) ↦ (key, f, ground (arith, f), ground (arith, f))
        | inr (inl (x, f)) ↦ ground (arith, f)
        | inr (inr f) ↦ ground (arith, f)
      ]

  -- A resume request that the client makes is accepted by a server with the same keys, if it
  -- arrives within the drift.
  pub verify_request-new_request :
      (session_id random : List ℕ) (next_expected now later : ℕ) (keys : SessionKeys)
      {r : ResumeRequest}
      → abs_diff later now ≤ max_resume_drift_secs
      → new_request prim session_id next_expected keys now random ≡ ok r
      → verify_request prim r keys later ≡ ok accepted
  verify_request-new_request session_id random next_expected now later keys near e =
      let (key, derived, stamp, proved) =
        new_request-ok session_id random next_expected now keys e in
      (verify_request_iff _ keys later key derived).1 (ground arith, proved)

  -- A resume response that the server makes verifies against the request that it answers.
  pub verify_response-new_response :
      (status : ResumeStatus) (next_expected : ℕ) (request : ResumeRequest) (keys : SessionKeys)
      (random : List ℕ) {r : ResumeResponse}
      → new_response prim status next_expected request keys random ≡ ok r
      → verify_response prim r request keys ≡ ok true
  unfolding new_response verify_response response_proof response_parts
  verify_response-new_response status next_expected request keys random {r = r} e =
      elim (Result-cases (derive_resumption_key prim keys)) [
        | inl (key, f) ↦
            ground (arith, f, constant_time_eq_iff prim (response_proof prim r key request) r.proof)
        | inr (inl (x, f)) ↦ ground (arith, f)
        | inr (inr f) ↦ ground (arith, f)
      ]

-- ===== src/Protocol/Resume/Tests.antt =====
-- Runs of the resumption handshake over the toy primitives.
use kanrin.Common.{◌≡◌, ◌≤◌, ◌↔◌, refl, [], ◌∷◌, ◌++◌, arith}
use kanrin.Protocol.Error.{ok}
use kanrin.Protocol.Crypto.{SessionKeys, derive_resumption_key, mac_sha256}
use kanrin.Protocol.Crypto.Tests.{toy, tag}
use kanrin.Protocol.Resume.{
  ResumeRequest, ResumeResponse, accepted, request_proof, response_proof, abs_diff, new_request,
  verify_request, new_response, encode_request, decode_request, encode_response, decode_response,
}
use kanrin.Protocol.Resume.RoundTrip.{IsRequest, IsResponse, decode_resume-encode_resume}
use kanrin.Protocol.Resume.Proof.{request_parts_injective, verify_request_iff}

abbrev keys : SessionKeys
keys = record { client_write_key = tag ++ tag; server_write_key = tag ++ tag }

abbrev request : ResumeRequest
request = record {
  session_id = tag;
  timestamp = 1000;
  client_random = tag ++ tag;
  next_expected = 42;
  proof = tag ++ tag;
}

abbrev response : ResumeResponse
response = record {
  status = accepted;
  server_random = tag ++ tag;
  next_expected = 17;
  proof = tag ++ tag;
}

request-IsRequest : IsRequest request
request-IsRequest = record {
  session_id = refl;
  timestamp = omega arith;
  client_random = refl;
  next_expected = omega arith;
  proof = refl;
}

response-IsResponse : IsResponse response
response-IsResponse = record { server_random = refl; next_expected = omega arith; proof = refl }

derive-keys : derive_resumption_key toy keys ≡ ok (tag ++ tag)
unfolding derive_resumption_key
derive-keys = refl

new-request : new_request toy tag 42 keys 1000 (tag ++ tag) ≡ ok request
unfolding new_request derive_resumption_key request_proof mac_sha256
new-request = refl

new-response : new_response toy accepted 17 request keys (tag ++ tag) ≡ ok response
unfolding new_response derive_resumption_key response_proof mac_sha256
new-response = refl

decode_resume-encode_resume_example :
    (decode_request (encode_request request ++ (7 ∷ [])) ≡ ok request)
    × (decode_response (encode_response response ++ (7 ∷ [])) ≡ ok response)
decode_resume-encode_resume_example =
    decode_resume-encode_resume request response (7 ∷ []) request-IsRequest response-IsResponse

request_parts_injective_example :
    (tag ≡ tag)
    × (request.timestamp ≡ 1000)
    × (tag ++ tag ≡ tag ++ tag)
    × (request.next_expected ≡ 42)
request_parts_injective_example =
    request_parts_injective request request request-IsRequest request-IsRequest refl

verify_request_iff_example :
    (verify_request toy request keys 1010 ≡ ok accepted)
    ↔ ((abs_diff 1010 1000 ≤ 30) × (request_proof toy request (tag ++ tag) ≡ tag ++ tag))
verify_request_iff_example = verify_request_iff toy request keys 1010 (tag ++ tag) derive-keys

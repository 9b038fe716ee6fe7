-- ===== src/Protocol/Resume/RoundTrip.antt =====
-- The resumption messages read back what was written.
use kanrin.Common.{
  ℕ, ◌≡◌, ◌≢◌, ◌<◌, ◌^◌, refl, List, [], ◌∷◌, ◌++◌, arith, length, length-append, append_assoc,
}
use kanrin.Common.Bytes.{
  to_be, slice?-append, slice?-behind, slice?_total, get_elem?, get_elem?_total, length-to_be,
  of_be-to_be,
}
use kanrin.Protocol.Error.{ok, panic}
use kanrin.Protocol.Resume.{
  ResumeRequest, ResumeResponse, ResumeStatus, status_byte, status_of_byte, encode_request,
  decode_request, encode_response, decode_response,
}

-- The arrays have their lengths, and the numbers fit their types.
pub record IsRequest (r : ResumeRequest) : Type 0 where
  pub session_id : length r.session_id ≡ 16
  pub timestamp : r.timestamp < 2 ^ 64
  pub client_random : length r.client_random ≡ 32
  pub next_expected : r.next_expected < 2 ^ 64
  pub proof : length r.proof ≡ 32

pub record IsResponse (r : ResumeResponse) : Type 0 where
  pub server_random : length r.server_random ≡ 32
  pub next_expected : r.next_expected < 2 ^ 64
  pub proof : length r.proof ≡ 32

status_of_byte-status_byte : (s : ResumeStatus) → status_of_byte (status_byte s) ≡ ok s
unfolding status_of_byte status_byte
status_of_byte-status_byte s = ground arith

-- Every well-formed resume request reads back as itself, whatever bytes follow it.
pub decode_request-encode_request :
    (r : ResumeRequest) (rest : List ℕ)
    → IsRequest r
    → decode_request (encode_request r ++ rest) ≡ ok r
unfolding decode_request encode_request
decode_request-encode_request r rest v =
    let stamp = to_be 8 r.timestamp in
    let position = to_be 8 r.next_expected in
    let last = r.proof ++ rest in
    let fourth = position ++ last in
    let third = r.client_random ++ fourth in
    let stamped = length-to_be 8 r.timestamp in
    let placed = length-to_be 8 r.next_expected in
    rw (append_assoc, append_assoc, append_assoc, append_assoc)
      (ground (
        arith,
        v.session_id,
        length-append r.session_id (stamp ++ third),
        length-append stamp third,
        length-append r.client_random fourth,
        length-append position last,
        length-append r.proof rest,
        slice?-append [] r.session_id (stamp ++ third) 0 16 refl,
        slice?-append r.session_id stamp third 16 24,
        slice?-behind r.session_id (stamp ++ third) 8 40 24 56,
        slice?-behind r.session_id (stamp ++ third) 40 48 56 64,
        slice?-behind r.session_id (stamp ++ third) 48 80 64 96,
        slice?-append stamp r.client_random fourth 8 40,
        slice?-behind stamp third 32 40 40 48,
        slice?-behind stamp third 40 72 48 80,
        slice?-append r.client_random position last 32 40,
        slice?-behind r.client_random fourth 8 40 40 72,
        slice?-append position r.proof rest 8 40,
        stamped,
        placed,
        of_be-to_be 8 r.timestamp,
        of_be-to_be 8 r.next_expected,
      ))

-- Every well-formed resume response reads back as itself, whatever bytes follow it.
pub decode_response-encode_response :
    (r : ResumeResponse) (rest : List ℕ)
    → IsResponse r
    → decode_response (encode_response r ++ rest) ≡ ok r
unfolding decode_response encode_response get_elem?
decode_response-encode_response r rest v =
    let position = to_be 8 r.next_expected in
    let last = r.proof ++ rest in
    let front : List ℕ = status_byte r.status ∷ [] in
    rw (append_assoc, append_assoc)
      (ground (
        arith,
        status_of_byte-status_byte r.status,
        length-append r.server_random (position ++ last),
        length-append position last,
        length-append r.proof rest,
        slice?-append front r.server_random (position ++ last) 1 33,
        slice?-behind front (r.server_random ++ (position ++ last)) 32 40 33 41,
        slice?-behind front (r.server_random ++ (position ++ last)) 40 72 41 73,
        slice?-append r.server_random position last 32 40,
        slice?-behind r.server_random (position ++ last) 8 40 40 72,
        slice?-append position r.proof rest 8 40,
        length-to_be 8 r.next_expected,
        of_be-to_be 8 r.next_expected,
      ))

-- Whatever bytes arrive, decoding a resume request gives a request or an error: it never indexes out
-- of range.
pub decode_request-ne-panic : (bytes : List ℕ) → decode_request bytes ≢ panic
unfolding decode_request
decode_request-ne-panic bytes = ground (
  arith,
  slice?_total 0 16 bytes,
  slice?_total 16 24 bytes,
  slice?_total 24 56 bytes,
  slice?_total 56 64 bytes,
  slice?_total 64 96 bytes,
)

-- Whatever bytes arrive, decoding a resume response gives a response or an error: it never indexes
-- out of range.
pub decode_response-ne-panic : (bytes : List ℕ) → decode_response bytes ≢ panic
unfolding decode_response status_of_byte
decode_response-ne-panic bytes = ground (
  arith,
  get_elem?_total bytes 0,
  slice?_total 1 33 bytes,
  slice?_total 33 41 bytes,
  slice?_total 41 73 bytes,
)

-- Every well-formed resume request and response reads back as itself, whatever bytes follow it.
pub decode_resume-encode_resume :
    (r : ResumeRequest) (s : ResumeResponse) (rest : List ℕ)
    → IsRequest r
    → IsResponse s
    → (decode_request (encode_request r ++ rest) ≡ ok r)
      × (decode_response (encode_response s ++ rest) ≡ ok s)
decode_resume-encode_resume r s rest v w =
    (decode_request-encode_request r rest v, decode_response-encode_response s rest w)

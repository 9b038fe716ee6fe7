-- ===== src/Protocol/Handshake/RoundTrip.antt =====
-- The messages of the first handshake read back what was written.
use kanrin.Common.{
  ℕ, ◌≡◌, ◌<◌, ◌%◌, ◌^◌, ◌+◌, refl, List, [], ◌∷◌, ◌++◌, Option, none, some, arith, length,
  length-append, append_assoc, Option-cases, inl, inr,
}
use kanrin.Common.Bytes.{to_be, slice?-append, slice?-behind, get_elem?, length-to_be, of_be-to_be}
use kanrin.Protocol.Error.{ok}
use kanrin.Protocol.Error.Words.{read_u16-append}
use kanrin.Protocol.Handshake.{
  ClientHello, ServerHello, ClientFinished, ServerFinished, AuthStatus, auth_byte, from_byte,
  prefixed, encode_client_hello, decode_client_hello, encode_server_hello, decode_server_hello,
  encode_client_finished, decode_client_finished, encode_server_finished, decode_server_finished,
  decode_token,
}

-- The arrays have their lengths, and the numbers fit their types.
pub record IsClientHello (h : ClientHello) : Type 0 where
  pub ephemeral_public : length h.ephemeral_public ≡ 32
  pub timestamp : h.timestamp < 2 ^ 64
  pub random : length h.random ≡ 32

pub record IsServerHello (h : ServerHello) : Type 0 where
  pub ephemeral_public : length h.ephemeral_public ≡ 32
  pub token : length h.encrypted_session_token < 2 ^ 16
  pub server_random : length h.server_random ≡ 32

from_byte-auth_byte : (s : AuthStatus) → from_byte (auth_byte s) ≡ ok s
unfolding from_byte auth_byte
from_byte-auth_byte s = ground arith

pub decode_client_hello-encode_client_hello :
    (h : ClientHello) (rest : List ℕ)
    → IsClientHello h
    → decode_client_hello (encode_client_hello h ++ rest) ≡ ok h
unfolding decode_client_hello encode_client_hello get_elem?
decode_client_hello-encode_client_hello h rest v =
    let stamp = to_be 8 h.timestamp in
    let last = h.random ++ rest in
    let front : List ℕ = h.protocol_version ∷ [] in
    rw (append_assoc, append_assoc)
      (ground (
        arith,
        v.ephemeral_public,
        v.random,
        length-append h.ephemeral_public (stamp ++ last),
        length-append stamp last,
        length-append h.random rest,
        slice?-append front h.ephemeral_public (stamp ++ last) 1 33,
        slice?-behind front (h.ephemeral_public ++ (stamp ++ last)) 32 40 33 41,
        slice?-behind front (h.ephemeral_public ++ (stamp ++ last)) 40 72 41 73,
        slice?-append h.ephemeral_public stamp last 32 40,
        slice?-behind h.ephemeral_public (stamp ++ last) 8 40 40 72,
        slice?-append stamp h.random rest 8 40,
        length-to_be 8 h.timestamp,
        of_be-to_be 8 h.timestamp,
      ))

pub decode_server_hello-encode_server_hello :
    (h : ServerHello) (rest : List ℕ)
    → IsServerHello h
    → decode_server_hello (encode_server_hello h ++ rest) ≡ ok h
unfolding decode_server_hello encode_server_hello prefixed
decode_server_hello-encode_server_hello h rest v =
    let key = h.ephemeral_public in
    let token = h.encrypted_session_token in
    let n = length token in
    let size = to_be 2 n in
    let last = h.server_random ++ rest in
    let whole : n % 2 ^ 16 ≡ n = omega (arith, v.token) in
    rw (whole, append_assoc, append_assoc, append_assoc)
      (ground (
        arith,
        v.ephemeral_public,
        v.token,
        v.server_random,
        length-append key (size ++ (token ++ last)),
        length-append size (token ++ last),
        length-append token last,
        length-append h.server_random rest,
        read_u16-append key (token ++ last) n 32,
        slice?-append [] key (size ++ (token ++ last)) 0 32 refl,
        slice?-behind key (size ++ (token ++ last)) 2 (2 + n) 34 (34 + n),
        slice?-behind key (size ++ (token ++ last)) (2 + n) (34 + n) (34 + n) (66 + n),
        slice?-append size token last 2 (2 + n),
        slice?-behind size (token ++ last) n (32 + n) (2 + n) (34 + n),
        slice?-append token h.server_random rest n (32 + n),
        length-to_be 2 n,
      ))

pub decode_client_finished-encode_client_finished :
    (f : ClientFinished) (rest : List ℕ)
    → length f.encrypted_auth < 2 ^ 16
    → decode_client_finished (encode_client_finished f ++ rest) ≡ ok f
unfolding decode_client_finished encode_client_finished prefixed
decode_client_finished-encode_client_finished f rest fits =
    let auth = f.encrypted_auth in
    let n = length auth in
    let whole : n % 2 ^ 16 ≡ n = omega (arith, fits) in
    rw (whole, append_assoc)
      (ground (
        arith,
        length-append (to_be 2 n) (auth ++ rest),
        length-append auth rest,
        length-to_be 2 n,
        read_u16-append [] (auth ++ rest) n 0 fits refl,
        slice?-append (to_be 2 n) auth rest 2 (2 + n),
      ))

-- The token that `decode` gives back: an empty one is read as none.
unfoldable pub normal_token : Option (List ℕ) → Option (List ℕ)
normal_token none = none
normal_token (some []) = none
normal_token (some (b ∷ bs)) = some (b ∷ bs)

decode-encode_finished_none :
    (s : AuthStatus) (rest : List ℕ)
    → decode_server_finished (auth_byte s ∷ (to_be 2 0 ++ rest))
      ≡ ok (record { status = s; session_token = none })
unfolding decode_server_finished decode_token get_elem?
decode-encode_finished_none s rest = ground (
  arith,
  from_byte-auth_byte s,
  length-append (to_be 2 0) rest,
  length-to_be 2 0,
  read_u16-append (auth_byte s ∷ []) rest 0 1 (omega arith) refl,
)

decode-encode_finished_some :
    (s : AuthStatus) (token rest : List ℕ)
    → length token < 2 ^ 16
    → decode_server_finished (auth_byte s ∷ (to_be 2 (length token) ++ (token ++ rest)))
      ≡ ok (record { status = s; session_token = normal_token (some token) })
unfolding decode_server_finished decode_token normal_token get_elem?
decode-encode_finished_some s [] rest fits = decode-encode_finished_none s rest
decode-encode_finished_some s (b ∷ bs) rest fits =
    let token : List ℕ = b ∷ bs in
    let n = length token in
    ground (
      arith,
      from_byte-auth_byte s,
      length-append (to_be 2 n) (token ++ rest),
      length-append token rest,
      length-to_be 2 n,
      read_u16-append (auth_byte s ∷ []) (token ++ rest) n 1 fits refl,
      slice?-append (auth_byte s ∷ to_be 2 n) token rest 3 (3 + n),
    )

-- Its token, if it has one, has at most 65535 bytes.
unfoldable pub IsServerFinished : ServerFinished → Type 0
IsServerFinished f = (token : List ℕ) → f.session_token ≡ some token → length token < 2 ^ 16

pub decode_server_finished-encode_server_finished :
    (f : ServerFinished) (rest : List ℕ)
    → IsServerFinished f
    → decode_server_finished (encode_server_finished f ++ rest)
      ≡ ok (record { status = f.status; session_token = normal_token f.session_token })
unfolding encode_server_finished prefixed normal_token IsServerFinished
decode_server_finished-encode_server_finished f rest fits = elim (Option-cases f.session_token) [
  | inl absent ↦ rw absent (decode-encode_finished_none f.status rest)
  | inr (token, present) ↦
      let small = fits token present in
      let whole : length token % 2 ^ 16 ≡ length token = omega (arith, small) in
      rw (present, whole, append_assoc) (decode-encode_finished_some f.status token rest small)
]

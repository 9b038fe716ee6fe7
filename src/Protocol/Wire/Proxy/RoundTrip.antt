-- ===== src/Protocol/Wire/Proxy/RoundTrip.antt =====
-- A proxy request reads back, whatever follows it.
use kanrin.Common.{
  ℕ, ◌+◌, ◌^◌, ◌<◌, ◌≡◌, some, List, [], ◌∷◌, ◌++◌, length, arith, ◌%◌, append_assoc, length-append,
}
use kanrin.Common.Bytes.{to_be, of_be-to_be, slice?, get_elem?, slice?-append, length-to_be}
use kanrin.Common.Utf8.{IsUtf8, from_utf8_lossy_valid}
use kanrin.Protocol.Error.{ok}
use kanrin.Protocol.Wire.Proxy.{
  ProxyRequest, tcp_connect, udp_datagram, dns_query, encode, decode, decode_tcp, decode_udp,
  decode_dns,
}

-- The address is a string of at most 255 bytes, a payload has at most 65535, and the numbers have the widths of their types.
abbrev pub IsRequest : ProxyRequest → Type 0
IsRequest (tcp_connect address port) = IsUtf8 address × (length address < 256) × (port < 2 ^ 16)
IsRequest (udp_datagram session_id address port payload) =
    IsUtf8 address
    × (length address < 256)
    × (port < 2 ^ 16)
    × (session_id < 2 ^ 32)
    × (length payload < 2 ^ 16)
IsRequest (dns_query id query) = (id < 2 ^ 16) × (length query < 2 ^ 16)

decode-encode_tcp :
    (address : List ℕ) (port : ℕ) (rest : List ℕ)
    → IsRequest (tcp_connect address port)
    → decode (encode (tcp_connect address port) ++ rest) ≡ ok (tcp_connect address port)
unfolding decode decode_tcp encode get_elem?
decode-encode_tcp a p rest (utf8, short, small) =
    let front : List ℕ = 0x01 ∷ length a ∷ [] in
    rw append_assoc (
      ground (
        arith,
        of_be-to_be 2 p small,
        length-to_be 2 p,
        length-append a (to_be 2 p ++ rest),
        length-append (to_be 2 p) rest,
        from_utf8_lossy_valid a utf8,
        slice?-append front a (to_be 2 p ++ rest) 2 (2 + length a),
        slice?-append (front ++ a) (to_be 2 p) rest (2 + length a) (2 + length a + 2),
      ))

-- A slice behind three pieces.
slice_behind :
    (front a b ys zs : List ℕ) (i j : ℕ)
    → i ≡ length front + length a + length b
    → j ≡ i + length ys
    → slice? i j (front ++ (a ++ (b ++ (ys ++ zs)))) ≡ some ys
slice_behind front a b ys zs i j h k =
    let size : i ≡ length (front ++ (a ++ b)) =
      omega (arith, length-append front (a ++ b), length-append a b) in
    rw (append_assoc, append_assoc) at (slice?-append (front ++ (a ++ b)) ys zs i j size k)

decode-encode_udp :
    (session_id : ℕ) (address : List ℕ) (port : ℕ) (payload rest : List ℕ)
    → IsRequest (udp_datagram session_id address port payload)
    → decode (encode (udp_datagram session_id address port payload) ++ rest)
      ≡ ok (udp_datagram session_id address port payload)
unfolding decode decode_udp encode get_elem? to_be
decode-encode_udp s a p d rest (utf8, short, small, id, fits) =
    let n = length a in
    let front : List ℕ = 0x02 ∷ (to_be 4 s ++ (n % 256 ∷ [])) in
    let size = to_be 2 (length d) in
    let tail = to_be 2 p ++ (size ++ (d ++ rest)) in
    simp append_assoc (
      ground (
        arith,
        of_be-to_be 4 s id,
        of_be-to_be 2 p small,
        of_be-to_be 2 (length d) fits,
        from_utf8_lossy_valid a utf8,
        length-append a tail,
        length-append d rest,
        slice?-append (0x02 ∷ []) (to_be 4 s) (n % 256 ∷ (a ++ tail)) 1 5,
        slice?-append front a tail 6 (6 + n),
        slice_behind front a [] (to_be 2 p) (size ++ (d ++ rest)) (6 + n) (6 + n + 2),
        slice_behind front a (to_be 2 p) size (d ++ rest) (6 + n + 2) (6 + n + 4),
        slice_behind front a (to_be 2 p ++ size) d rest (6 + n + 4) (6 + n + 4 + length d),
      ))

decode-encode_dns :
    (id : ℕ) (query rest : List ℕ)
    → IsRequest (dns_query id query)
    → decode (encode (dns_query id query) ++ rest) ≡ ok (dns_query id query)
unfolding decode decode_dns encode get_elem? to_be
decode-encode_dns id q rest (small, fits) = ground (
  arith,
  of_be-to_be 2 id small,
  of_be-to_be 2 (length q) fits,
  length-append q rest,
  slice?-append (0x03 ∷ []) (to_be 2 id) (to_be 2 (length q) ++ (q ++ rest)) 1 3,
  slice?-append (0x03 ∷ to_be 2 id) (to_be 2 (length q)) (q ++ rest) 3 5,
  slice?-append (0x03 ∷ (to_be 2 id ++ to_be 2 (length q))) q rest 5 (5 + length q),
)

-- Every proxy request within the limits (an address of at most 255 bytes, at most 65535 bytes of
-- payload, numbers of the widths of their types) reads back as itself, whatever bytes follow it.
pub decode-encode_proxy :
    (r : ProxyRequest) (rest : List ℕ) → IsRequest r → decode (encode r ++ rest) ≡ ok r
decode-encode_proxy (tcp_connect address port) rest v = decode-encode_tcp address port rest v
decode-encode_proxy (udp_datagram session_id address port payload) rest v =
    decode-encode_udp session_id address port payload rest v
decode-encode_proxy (dns_query id query) rest v = decode-encode_dns id query rest v

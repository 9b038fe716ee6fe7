-- ===== src/Protocol/Wire/Proxy.antt =====
-- `ProxyRequest` of crates/kanrin-protocol/src/wire.rs. A string is its UTF-8 bytes.
pub mod RoundTrip
pub mod Safety
use kanrin.Common.{
  ℕ, ◌+◌, ◌%◌, ◌^◌, ◌≡◌, Bool, List, [], ◌∷◌, ◌++◌, ltb, ◌==◌, if◌then◌else◌, length,
}
use kanrin.Common.Bytes.{to_be, of_be}
use kanrin.Common.Utf8.{from_utf8_lossy}
use kanrin.Protocol.Error.{
  Result, ok, err, ◌>>=◌, ◌>>◌, fail_if, index, slice, buffer_too_short, invalid_chunk,
  empty_proxy_request, unknown_proxy_request_type,
}

pub data ProxyRequest : Type 0 where
  tcp_connect : (address : List ℕ) (port : ℕ) → ProxyRequest
  udp_datagram : (session_id : ℕ) (address : List ℕ) (port : ℕ) (payload : List ℕ) → ProxyRequest
  dns_query : (id : ℕ) (query : List ℕ) → ProxyRequest

-- `len() as u8` and `len() as u16` truncate.
pub encode : ProxyRequest → List ℕ
encode (tcp_connect address port) = 0x01 ∷ (length address % 256) ∷ (address ++ to_be 2 port)
encode (udp_datagram session_id address port payload) =
    0x02
    ∷ (to_be 4 session_id
        ++ ((length address % 256)
            ∷ (address ++ (to_be 2 port ++ (to_be 2 (length payload % 2 ^ 16) ++ payload)))))
encode (dns_query id query) = 0x03 ∷ (to_be 2 id ++ (to_be 2 (length query % 2 ^ 16) ++ query))

decode_tcp : List ℕ → Result ProxyRequest
decode_tcp bytes = do
  fail_if (ltb (length bytes) 4) (buffer_too_short 4 (length bytes))
  addr_len ← index bytes 1
  fail_if (ltb (length bytes) (2 + addr_len + 2))
      (buffer_too_short (2 + addr_len + 2) (length bytes))
  address ← slice bytes 2 (2 + addr_len)
  port ← slice bytes (2 + addr_len) (2 + addr_len + 2)
  ok (tcp_connect (from_utf8_lossy address) (of_be port))

decode_udp : List ℕ → Result ProxyRequest
decode_udp bytes = do
  fail_if (ltb (length bytes) 8) (buffer_too_short 8 (length bytes))
  session_id ← slice bytes 1 5
  addr_len ← index bytes 5
  let offset = 6 + addr_len
  fail_if (ltb (length bytes) (offset + 4)) (buffer_too_short (offset + 4) (length bytes))
  address ← slice bytes 6 (6 + addr_len)
  port ← slice bytes offset (offset + 2)
  len_bytes ← slice bytes (offset + 2) (offset + 4)
  let payload_start = offset + 4
  let payload_end = payload_start + of_be len_bytes
  fail_if (ltb (length bytes) payload_end) (buffer_too_short payload_end (length bytes))
  payload ← slice bytes payload_start payload_end
  ok (udp_datagram (of_be session_id) (from_utf8_lossy address) (of_be port) payload)

decode_dns : List ℕ → Result ProxyRequest
decode_dns bytes = do
  fail_if (ltb (length bytes) 5) (buffer_too_short 5 (length bytes))
  id ← slice bytes 1 3
  len_bytes ← slice bytes 3 5
  let query_end = 5 + of_be len_bytes
  fail_if (ltb (length bytes) query_end) (buffer_too_short query_end (length bytes))
  query ← slice bytes 5 query_end
  ok (dns_query (of_be id) query)

-- The arms of the match on the first byte.
decode_kind : ℕ → List ℕ → Result ProxyRequest
decode_kind kind bytes =
    if kind == 0x01
    then decode_tcp bytes
    else if kind == 0x02
    then decode_udp bytes
    else if kind == 0x03
    then decode_dns bytes
    else err (invalid_chunk (unknown_proxy_request_type kind))

pub decode : List ℕ → Result ProxyRequest
unfolding decode_kind
decode bytes = do
  fail_if (length bytes == 0) (invalid_chunk empty_proxy_request)
  kind ← index bytes 0
  decode_kind kind bytes

-- ===== src/Decoders.antt =====
-- The decoders of crates/kanrin-protocol and crates/kanrin-tun, taken together: what a peer or the
-- device sends is read by them first.
mod Tests
use kanrin.Common.{ℕ, ◌≢◌, List, ◌≡◌, inl, inr, arith}
use kanrin.Protocol.Error.{panic}
use kanrin.Protocol.Wire.Control
use kanrin.Protocol.Wire.Control.Safety.{decode_control-ne-panic}
use kanrin.Protocol.Wire.Proxy
use kanrin.Protocol.Wire.Proxy.Safety.{decode_proxy-ne-panic}
use kanrin.Protocol.Resume.{decode_request, decode_response}
use kanrin.Protocol.Resume.RoundTrip.{decode_request-ne-panic, decode_response-ne-panic}
use kanrin.Protocol.Handshake.{
  decode_client_hello, decode_server_hello, decode_client_finished, decode_server_finished,
}
use kanrin.Protocol.Handshake.Safety.{decode_messages-ne-panic}
use kanrin.Tun.Packet
use kanrin.Tun.Packet.Fields.{parse_total}
use kanrin.Tun.Dns.{parse_dns_query_domain}
use kanrin.Tun.Dns.Question.{parse_dns_query_domain-ne-panic}

parse_packet-ne-panic : (bytes : List ℕ) → Packet.parse bytes ≢ panic
parse_packet-ne-panic bytes = elim (parse_total bytes) [
  | inl read ↦ λ p. cc
  | inr (packet, read, _) ↦ λ p. cc
]

-- Whatever bytes arrive, decoding a control message, a proxy request, a message of either
-- handshake, an IP packet or a DNS query ends without an index out of range, and the loop over the
-- labels of a query within its fuel.
pub decoders-ne-panic :
    (bytes : List ℕ)
    → (Control.decode bytes ≢ panic)
      × (Proxy.decode bytes ≢ panic)
      × (decode_request bytes ≢ panic)
      × (decode_response bytes ≢ panic)
      × ((decode_client_hello bytes ≢ panic)
          × (decode_server_hello bytes ≢ panic)
          × (decode_client_finished bytes ≢ panic)
          × (decode_server_finished bytes ≢ panic))
      × (Packet.parse bytes ≢ panic)
      × (parse_dns_query_domain bytes ≢ panic)
decoders-ne-panic bytes = (
  decode_control-ne-panic bytes,
  decode_proxy-ne-panic bytes,
  decode_request-ne-panic bytes,
  decode_response-ne-panic bytes,
  decode_messages-ne-panic bytes,
  parse_packet-ne-panic bytes,
  parse_dns_query_domain-ne-panic bytes,
)

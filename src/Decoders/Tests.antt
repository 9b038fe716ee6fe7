-- ===== src/Decoders/Tests.antt =====
-- The decoders on a few zero bytes.
use kanrin.Common.{ℕ, ◌≢◌, List, [], ◌∷◌}
use kanrin.Protocol.Error.{panic}
use kanrin.Protocol.Wire.Control
use kanrin.Protocol.Wire.Proxy
use kanrin.Protocol.Resume.{decode_request, decode_response}
use kanrin.Protocol.Handshake.{
  decode_client_hello, decode_server_hello, decode_client_finished, decode_server_finished,
}
use kanrin.Tun.Packet
use kanrin.Tun.Dns.{parse_dns_query_domain}
use kanrin.Decoders.{decoders-ne-panic}

abbrev few : List ℕ
few = 7 ∷ 0 ∷ 0 ∷ 9 ∷ []

decoders-ne-panic_example :
    (Control.decode few ≢ panic)
    × (Proxy.decode few ≢ panic)
    × (decode_request few ≢ panic)
    × (decode_response few ≢ panic)
    × ((decode_client_hello few ≢ panic)
        × (decode_server_hello few ≢ panic)
        × (decode_client_finished few ≢ panic)
        × (decode_server_finished few ≢ panic))
    × (Packet.parse few ≢ panic)
    × (parse_dns_query_domain few ≢ panic)
decoders-ne-panic_example = decoders-ne-panic few

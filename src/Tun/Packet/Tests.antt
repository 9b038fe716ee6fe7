-- ===== src/Tun/Packet/Tests.antt =====
-- Runs of the packet reader on a DNS query.
use kanrin.Common.{ℕ, ◌≡◌, refl, true, List, [], ◌∷◌, ◌++◌, some, arith}
use kanrin.Protocol.Error.{ok}
use kanrin.Tun.Packet.{v4, parse, src_port, dst_port, is_dns_query, payload}
use kanrin.Tun.Packet.Layout.{
  Ipv4Front, front_bytes, packet_of, source_of, target_of, asks_dns, parse-layout,
}

abbrev front : Ipv4Front
front = record {
  words = 5;
  service = 0;
  total_high = 0;
  total_low = 29;
  id_high = 0;
  id_low = 1;
  flags = 64;
  fragment = 0;
  ttl = 64;
  protocol_number = 17;
  sum_high = 0;
  sum_low = 0;
  s0 = 10;
  s1 = 0;
  s2 = 0;
  s3 = 2;
  t0 = 1;
  t1 = 1;
  t2 = 1;
  t3 = 1;
}

abbrev query_body : List ℕ
query_body = 16 ∷ 146 ∷ 0 ∷ 53 ∷ 0 ∷ 9 ∷ 0 ∷ 0 ∷ 7 ∷ []

parse-layout_example :
    (parse (front_bytes front ++ query_body) ≡ ok (some (v4 (packet_of front query_body))))
    × (payload (v4 (packet_of front query_body)) ≡ ok query_body)
    × (src_port (v4 (packet_of front query_body)) ≡ ok (some 4242))
    × (dst_port (v4 (packet_of front query_body)) ≡ ok (some 53))
    × (is_dns_query (v4 (packet_of front query_body)) ≡ ok true)
unfolding source_of target_of asks_dns
parse-layout_example = parse-layout front [] query_body (omega arith) (omega arith) refl

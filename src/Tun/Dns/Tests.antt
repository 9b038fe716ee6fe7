-- ===== src/Tun/Dns/Tests.antt =====
-- Runs of the interceptor on a query for "a.b".
use kanrin.Common.{ℕ, ◌≡◌, ◌+◌, ◌*◌, refl, true, List, [], ◌∷◌, ◌++◌, some, arith, length}
use kanrin.Common.Bytes.{length-to_be, slice?, get_elem?}
use kanrin.Common.Utf8.{is_utf8}
use kanrin.Common.Assoc.{get}
use kanrin.Protocol.Error.{ok}
use kanrin.Tun.FakeIp.Pool.{allocate_all}
use kanrin.Tun.Dns.{
  labels, next_label, label_at, turn_of, domain_of, IpAddr, v4, v6, DnsInterceptor, new_interceptor,
  parse_dns_query_domain, build_dns_response, intercept_query, resolve_fake_ip, fresh_addresses,
  address_of, ipv4_count, join,
}
use kanrin.Tun.Dns.Question.{question}
use kanrin.Tun.Dns.Answer.{build_dns_response-question}
use kanrin.Tun.Dns.Interception.{intercept_query-resolves}

abbrev header : List ℕ
header = 0x12 ∷ 0x34 ∷ 1 ∷ 0 ∷ 0 ∷ 1 ∷ 0 ∷ 0 ∷ 0 ∷ 0 ∷ 0 ∷ 0 ∷ []

abbrev name : List (List ℕ)
name = (97 ∷ []) ∷ (98 ∷ []) ∷ []

abbrev rest : List ℕ
rest = 0 ∷ 1 ∷ 0 ∷ 1 ∷ []

abbrev query : List ℕ
query = header ++ (1 ∷ 97 ∷ 1 ∷ 98 ∷ 0 ∷ rest)

abbrev mixed : List IpAddr
mixed = v4 (1 ∷ 2 ∷ 3 ∷ 4 ∷ []) ∷ v6 (query ++ []) ∷ []

asked : parse_dns_query_domain query ≡ ok (some (97 ∷ 46 ∷ 98 ∷ []))
unfolding parse_dns_query_domain join labels next_label label_at turn_of domain_of is_utf8 slice?
    get_elem?
asked = refl

build_dns_response-question_example :
    (parse_dns_query_domain (header ++ (question name ++ rest)) ≡ ok (some (join name)))
    × (parse_dns_query_domain
          (build_dns_response (header ++ (question name ++ rest)) (address_of 7 ∷ []))
        ≡ ok (some (join name)))
    × (length (build_dns_response (header ++ (question name ++ rest)) (address_of 7 ∷ []))
        ≡ length (header ++ (question name ++ rest)) + 16 * ipv4_count (address_of 7 ∷ []))
unfolding is_utf8
build_dns_response-question_example =
    build_dns_response-question header (97 ∷ []) ((98 ∷ []) ∷ []) rest (address_of 7 ∷ []) refl
      ((omega arith, refl), ((omega arith, refl), tt)) (length-to_be 4 7, tt)

intercept_query-resolves_example :
    (ip : ℕ) × (d : DnsInterceptor) × (intercept_query (new_interceptor true) query 0
      ≡ ok (some (build_dns_response query (address_of ip ∷ [])), d))
    × (resolve_fake_ip d ip ≡ some (97 ∷ 46 ∷ 98 ∷ []))
unfolding new_interceptor allocate_all fresh_addresses get
intercept_query-resolves_example =
    intercept_query-resolves (new_interceptor true) [] query (97 ∷ 46 ∷ 98 ∷ []) 0 refl
      (omega arith) refl asked refl

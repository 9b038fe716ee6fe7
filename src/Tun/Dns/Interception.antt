-- ===== src/Tun/Dns/Interception.antt =====
-- The fake address that answers a query leads back to the domain that was asked for.
use kanrin.Common.{
  ℕ, ◌-◌, ◌≡◌, ◌<◌, sym, ap, ◌∙◌, true, List, [], ◌∷◌, ◌++◌, none, some, arith, length,
  length-append,
}
use kanrin.Common.Table.{same_bytes}
use kanrin.Common.Assoc.{get}
use kanrin.Protocol.Error.{ok}
use kanrin.Tun.FakeIp.{new_pool, pool_first, pool_last, allocate}
use kanrin.Tun.FakeIp.Pool.{allocate_all, lookup_ip-allocate, allocate_all-append, get-allocate}
use kanrin.Tun.Dns.{
  DnsInterceptor, parse_dns_query_domain, fresh_addresses, address_of, answer_domain,
  build_dns_response, intercept_query, resolve_fake_ip,
}

-- With a pool that has given addresses to fewer domains than it has addresses less one, a query for
-- a domain that has no fresh entry in the cache is answered with an address that then leads back to
-- that domain, if fake addresses are on.
pub intercept_query-resolves :
    (d : DnsInterceptor) (domains : List (List ℕ)) (query domain : List ℕ) (now : ℕ)
    → d.fake_ip_pool ≡ allocate_all new_pool domains
    → length domains < pool_last - pool_first
    → d.fake_ip_enabled ≡ true
    → parse_dns_query_domain query ≡ ok (some domain)
    → fresh_addresses d domain now ≡ none
    → (ip : ℕ) × (d' : DnsInterceptor) × (intercept_query d query now
        ≡ ok (some (build_dns_response query (address_of ip ∷ [])), d'))
      × (resolve_fake_ip d' ip ≡ some domain)
unfolding intercept_query answer_domain resolve_fake_ip
intercept_query-resolves d domains query domain now pool room on asked missing =
    let (ip, pool') = allocate d.fake_ip_pool domain in
    let grown : pool' ≡ allocate_all new_pool (domains ++ (domain ∷ [])) =
      ap (λ p. (allocate p domain).1) pool ∙ sym (allocate_all-append new_pool domains domain) in
    let held : get same_bytes domain (allocate_all new_pool (domains ++ (domain ∷ []))).domain_to_ip
        ≡ some ip =
      rw grown at (get-allocate d.fake_ip_pool domain) in
    let back =
      lookup_ip-allocate (domains ++ (domain ∷ [])) domain ip
        (omega (arith, length-append domains (domain ∷ []))) held in
    (ip, record d { fake_ip_pool = pool' }, ground (arith, asked, missing, on), rw grown back)

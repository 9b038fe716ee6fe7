-- ===== src/Tun/Dns/Answer.antt =====
-- An answer asks the question of its query, and has one record for each IPv4 address.
use kanrin.Common.{
  ℕ, zero, suc, ◌+◌, ◌*◌, ◌/◌, ◌%◌, ◌^◌, ◌≡◌, ◌<◌, refl, ap, List, [], ◌∷◌, ◌++◌, some, arith,
  length, length-append, append_assoc, All,
}
use kanrin.Protocol.Error.{ok}
use kanrin.Tun.Dns.{
  IpAddr, v4, v6, ipv4_count, answers, set_elem, build_dns_response, parse_dns_query_domain, join,
}
use kanrin.Tun.Dns.Question.{IsLabel, question, parse_dns_query_domain-question}

set_elem-append :
    (i b : ℕ) (xs ys : List ℕ)
    → i < length xs
    → (set_elem i b (xs ++ ys) ≡ set_elem i b xs ++ ys) × (length (set_elem i b xs) ≡ length xs)
unfolding set_elem
set_elem-append i b [] ys h = absurd (omega arith)
set_elem-append zero b (x ∷ xs) ys h = (refl, refl)
set_elem-append (suc i) b (x ∷ xs) ys h = ground (arith, set_elem-append i b xs ys)

-- An IPv4 address has four octets.
abbrev pub IsAddress : IpAddr → Type 0
IsAddress (v4 octets) = length octets ≡ 4
IsAddress (v6 octets) = length octets ≡ 16

length-answers :
    (addresses : List IpAddr)
    → All IsAddress addresses
    → length (answers addresses) ≡ 16 * ipv4_count addresses
unfolding answers ipv4_count
length-answers [] h = refl
length-answers (v4 octets ∷ addresses) (four, h) =
    omega (arith, length-append octets (answers addresses), length-answers addresses h)
length-answers (v6 octets ∷ addresses) (sixteen, h) = length-answers addresses h

-- Only the header is written over.
build-header :
    (header body : List ℕ) (addresses : List IpAddr)
    → length header ≡ 12
    → (header' : List ℕ) × (length header' ≡ 12)
      × (build_dns_response (header ++ body) addresses ≡ header' ++ (body ++ answers addresses))
unfolding build_dns_response
build-header header body addresses twelve =
    let c = ipv4_count addresses % 2 ^ 16 in
    let (e, k) = set_elem-append 2 0x81 header body (omega arith) in
    let h1 = set_elem 2 0x81 header in
    let (f, l) = set_elem-append 3 0x80 h1 body (omega (arith, k)) in
    let h2 = set_elem 3 0x80 h1 in
    let (g, m) = set_elem-append 6 (c / 256 % 256) h2 body (omega (arith, k, l)) in
    let h3 = set_elem 6 (c / 256 % 256) h2 in
    let (j, n) = set_elem-append 7 (c % 256) h3 body (omega (arith, k, l, m)) in
    (
      set_elem 7 (c % 256) h3,
      omega (arith, k, l, m, n),
      ground (
        arith,
        length-append header body,
        e,
        f,
        g,
        j,
        append_assoc (set_elem 7 (c % 256) h3) body (answers addresses),
      ),
    )

-- For a query with a header of twelve bytes and some labels of UTF-8, none of them empty, the
-- domain read is the labels joined, the answer to any addresses asks for that domain too, and it
-- has sixteen bytes more for each IPv4 address.
pub build_dns_response-question :
    (header : List ℕ) (label : List ℕ) (more : List (List ℕ)) (rest : List ℕ)
    (addresses : List IpAddr)
    → length header ≡ 12
    → All IsLabel (label ∷ more)
    → All IsAddress addresses
    → let query = header ++ (question (label ∷ more) ++ rest) in
      (parse_dns_query_domain query ≡ ok (some (join (label ∷ more))))
      × (parse_dns_query_domain (build_dns_response query addresses)
          ≡ ok (some (join (label ∷ more))))
      × (length (build_dns_response query addresses) ≡ length query + 16 * ipv4_count addresses)
build_dns_response-question header label more rest addresses twelve h v =
    let asked = question (label ∷ more) in
    let (header', twelve', e) = build-header header (asked ++ rest) addresses twelve in
    let same : (asked ++ rest) ++ answers addresses ≡ asked ++ (rest ++ answers addresses) =
      append_assoc asked rest (answers addresses) in
    (
      parse_dns_query_domain-question header label more rest twelve h,
      rw (e, same)
          (parse_dns_query_domain-question header' label more (rest ++ answers addresses) twelve'
            h),
      omega (
        arith,
        ap length e,
        length-append header (asked ++ rest),
        length-append header' ((asked ++ rest) ++ answers addresses),
        length-append (asked ++ rest) (answers addresses),
        length-answers addresses v,
      ),
    )

-- ===== src/Tun/Dns.antt =====
-- crates/kanrin-tun/src/dns.rs: queries of the device, their cache and their answers. An `Instant`
-- is a number of seconds, `now` is what the clock gives, and text is its UTF-8 bytes.
pub mod Question
pub mod Answer
pub mod Interception
mod Tests
use kanrin.Common.{
  ℕ, zero, suc, ◌+◌, ◌*◌, ◌/◌, ◌%◌, ◌^◌, Bool, true, false, not, List, [], ◌∷◌, ◌++◌, Option, none,
  some, ltb, leb, ◌==◌, if◌then◌else◌, length,
}
use kanrin.Common.Utf8.{is_utf8}
use kanrin.Common.Table.{same_bytes}
use kanrin.Common.Bytes.{to_be}
use kanrin.Common.Assoc.{Assoc, get, insert, retain_entries}
use kanrin.Protocol.Error.{Result, ok, panic, ◌>>=◌, index, slice}
use kanrin.Tun.FakeIp.{FakeIpPool, new_pool, allocate, lookup_ip}

-- `std::str::from_utf8(&packet[pos..pos + label_len]).ok()`, behind the check of its end.
label_at : List ℕ → (pos label_len : ℕ) → Result (Option (List ℕ))
label_at packet pos label_len = if ltb (length packet) (pos + label_len) then ok none else do
  label ← slice packet pos (pos + label_len)
  ok (if is_utf8 label then some label else none)

-- One turn of the loop over the labels: no name, its end, or a label and where the next one starts.
data Turn : Type 0 where
  broken ended : Turn
  read : (label : List ℕ) (next : ℕ) → Turn

turn_of : (next : ℕ) → Option (List ℕ) → Turn
turn_of next none = broken
turn_of next (some label) = read label next

next_label : List ℕ → (pos : ℕ) → Result Turn
unfolding label_at
next_label packet pos = if leb (length packet) pos then ok broken else do
  label_len ← index packet pos
  if label_len == 0
      then ok ended
      else do label ← label_at packet (pos + 1) label_len; ok (turn_of (pos + 1 + label_len) label)

-- `panic` is an index out of range, or the fuel run out.
labels : (fuel : ℕ) → List ℕ → (pos : ℕ) → List (List ℕ) → Result (Option (List (List ℕ)))
labels zero packet pos parts = panic
labels (suc fuel) packet pos parts = next_label packet pos >>= λ turn. elim turn [
  | broken ↦ ok none
  | ended ↦ ok (some parts)
  | read label next ↦ labels fuel packet next (parts ++ (label ∷ []))
]

-- `join(".")`
pub join : List (List ℕ) → List ℕ
join [] = []
join (part ∷ []) = part
join (part ∷ (next ∷ parts)) = part ++ (46 ∷ join (next ∷ parts))

-- No parts are no domain.
domain_of : List (List ℕ) → Option (List ℕ)
domain_of [] = none
domain_of (part ∷ parts) = some (join (part ∷ parts))

pub parse_dns_query_domain : List ℕ → Result (Option (List ℕ))
unfolding domain_of
parse_dns_query_domain packet = if ltb (length packet) 12 then ok none else do
  found ← labels (length packet) packet 12 []
  ok (elim found [ none ↦ none | some parts ↦ domain_of parts ])

pub data IpAddr : Type 0 where
  v4 v6 : (octets : List ℕ) → IpAddr

pub ipv4_count : List IpAddr → ℕ
ipv4_count [] = 0
ipv4_count (v4 octets ∷ addresses) = suc (ipv4_count addresses)
ipv4_count (v6 octets ∷ addresses) = ipv4_count addresses

-- An A record that points at the question, for sixty seconds.
pub answers : List IpAddr → List ℕ
answers [] = []
answers (v4 octets ∷ addresses) =
    0xc0
    ∷ 0x0c
    ∷ 0x00
    ∷ 0x01
    ∷ 0x00
    ∷ 0x01
    ∷ 0x00
    ∷ 0x00
    ∷ 0x00
    ∷ 0x3c
    ∷ 0x00
    ∷ 0x04
    ∷ (octets ++ answers addresses)
answers (v6 octets ∷ addresses) = answers addresses

-- `xs[i] = b`
set_elem : ℕ → ℕ → List ℕ → List ℕ
set_elem i b [] = []
set_elem zero b (x ∷ xs) = b ∷ xs
set_elem (suc i) b (x ∷ xs) = x ∷ set_elem i b xs

-- The source also looks for the end of the question and does not use it.
pub build_dns_response : (query : List ℕ) → List IpAddr → List ℕ
unfolding set_elem
build_dns_response query addresses =
    if ltb (length query) 12
    then []
    else let answer_count = ipv4_count addresses % 2 ^ 16 in
      let flagged = set_elem 3 0x80 (set_elem 2 0x81 query) in
      let counted =
        set_elem 7 (answer_count % 256) (set_elem 6 (answer_count / 256 % 256) flagged) in
      counted ++ answers addresses

pub record DnsCacheEntry : Type 0 where
  pub addresses : List IpAddr
  pub expires_at : ℕ

pub record DnsInterceptor : Type 0 where
  pub cache : Assoc (List ℕ) DnsCacheEntry
  pub fake_ip_pool : FakeIpPool
  pub fake_ip_enabled : Bool
  pub max_cache_size : ℕ

new_interceptor : (fake_ip_enabled : Bool) → DnsInterceptor
new_interceptor fake_ip_enabled = record {
  cache = [];
  fake_ip_pool = new_pool;
  fake_ip_enabled = fake_ip_enabled;
  max_cache_size = 4096;
}

-- The cached addresses that have not expired.
pub fresh_addresses : DnsInterceptor → (domain : List ℕ) (now : ℕ) → Option (List IpAddr)
fresh_addresses d domain now = elim (get same_bytes domain d.cache) [
  | none ↦ none
  | some entry ↦ if ltb now entry.expires_at then some entry.addresses else none
]

-- `IpAddr::V4(Ipv4Addr::from(ip))`
abbrev pub address_of : ℕ → IpAddr
address_of ip = v4 (to_be 4 ip)

-- What is done for a domain: an answer, or none where the query goes through the tunnel.
answer_domain :
    DnsInterceptor → (query domain : List ℕ) (now : ℕ) → Option (List ℕ) × DnsInterceptor
unfolding fresh_addresses
answer_domain d query domain now = elim (fresh_addresses d domain now) [
  | some addresses ↦ (some (build_dns_response query addresses), d)
  | none ↦
      if not d.fake_ip_enabled
      then (none, d)
      else let (ip, pool) = allocate d.fake_ip_pool domain in
        (some (build_dns_response query (address_of ip ∷ [])), record d { fake_ip_pool = pool })
]

pub intercept_query :
    DnsInterceptor → (query : List ℕ) (now : ℕ) → Result (Option (List ℕ) × DnsInterceptor)
unfolding answer_domain
intercept_query d query now = parse_dns_query_domain query >>= λ found.
    ok (elim found [ none ↦ (none, d) | some domain ↦ answer_domain d query domain now ])

pub evict_expired : DnsInterceptor → (now : ℕ) → DnsInterceptor
evict_expired d now = record d {
  cache = retain_entries (λ entry. ltb now entry.expires_at) d.cache;
}

pub cache_response :
    DnsInterceptor → (domain : List ℕ) → List IpAddr → (ttl_secs now : ℕ) → DnsInterceptor
unfolding evict_expired
cache_response d domain addresses ttl_secs now =
    let roomy = if leb d.max_cache_size (length d.cache) then evict_expired d now else d in
    record roomy {
      cache =
          insert same_bytes domain (record { addresses = addresses; expires_at = now + ttl_secs })
            roomy.cache;
    }

pub resolve_fake_ip : DnsInterceptor → (ip : ℕ) → Option (List ℕ)
resolve_fake_ip d ip = lookup_ip d.fake_ip_pool ip

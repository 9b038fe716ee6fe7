-- ===== src/Tun/FakeIp.antt =====
-- `FakeIpPool` of crates/kanrin-tun/src/dns.rs: one address of 198.18.0.0/15 for each domain. An IPv4
-- address is its number, and a domain its bytes.
pub mod Pool
mod Tests
use kanrin.Common.{
  ℕ, ◌+◌, ◌*◌, ◌%◌, ◌^◌, List, [], ◌∷◌, Bool, Option, none, some, ltb, ◌==◌, if◌then◌else◌,
}
use kanrin.Common.Table.{same_bytes}
use kanrin.Common.Assoc.{Assoc, get, insert}

-- 198.18.0.1
abbrev pub pool_first : ℕ
pool_first = 198 * 2 ^ 24 + 18 * 2 ^ 16 + 1

-- 198.19.255.254
abbrev pub pool_last : ℕ
pool_last = 198 * 2 ^ 24 + 19 * 2 ^ 16 + 255 * 2 ^ 8 + 254

abbrev pub same_ip : ℕ → ℕ → Bool
same_ip a b = a == b

pub record FakeIpPool : Type 0 where
  pub domain_to_ip : Assoc (List ℕ) ℕ
  pub ip_to_domain : Assoc ℕ (List ℕ)
  pub next_ip : ℕ
  pub pool_start : ℕ
  pub pool_end : ℕ

pub new_pool : FakeIpPool
new_pool = record {
  domain_to_ip = [];
  ip_to_domain = [];
  next_ip = pool_first;
  pool_start = pool_first;
  pool_end = pool_last;
}

-- `next_ip + 1`, which starts again behind the end.
following : FakeIpPool → ℕ
following p =
    let next = (p.next_ip + 1) % 2 ^ 32 in if ltb p.pool_end next then p.pool_start else next

-- The address of a domain that has none yet is the next one.
unfoldable pub assign : FakeIpPool → (domain : List ℕ) → FakeIpPool
unfolding following
assign p domain = record p {
  domain_to_ip = insert same_bytes domain p.next_ip p.domain_to_ip;
  ip_to_domain = insert same_ip p.next_ip domain p.ip_to_domain;
  next_ip = following p;
}

pub allocate : FakeIpPool → (domain : List ℕ) → ℕ × FakeIpPool
unfolding assign
allocate p domain = elim (get same_bytes domain p.domain_to_ip) [
  | some ip ↦ (ip, p)
  | none ↦ (p.next_ip, assign p domain)
]

pub lookup_ip : FakeIpPool → (ip : ℕ) → Option (List ℕ)
lookup_ip p ip = get same_ip ip p.ip_to_domain

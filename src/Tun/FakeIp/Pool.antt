-- ===== src/Tun/FakeIp/Pool.antt =====
-- Every address that the pool gives lies in it, a domain keeps its address, and until the pool has
-- gone round once, an address leads back to its domain.
use kanrin.Common.{
  ℕ, suc, ◌+◌, ◌≡◌, ◌≤◌, ◌<◌, refl, ◌∙◌, List, [], ◌∷◌, ◌++◌, none, some, Option-cases, inl, inr,
  arith, length, All, All-impl, ◌-◌,
}
use kanrin.Common.Table.{same_bytes, same_bytes_refl, same_bytes_sound}
use kanrin.Common.Assoc.{IsEquality, get, insert-All, get-All, get-insert_same, get-insert_other}
use kanrin.Tun.FakeIp.{
  FakeIpPool, new_pool, pool_first, pool_last, same_ip, following, assign, allocate, lookup_ip,
}

pub same_bytes-IsEquality : IsEquality same_bytes
same_bytes-IsEquality a b = (same_bytes_sound a b, λ e. ground (arith, same_bytes_refl a))

same_ip-IsEquality : IsEquality same_ip
same_ip-IsEquality a b = ground arith

pub record InPool (p : FakeIpPool) : Type 0 where
  pub start : p.pool_start ≡ pool_first
  pub end : p.pool_end ≡ pool_last
  pub low : pool_first ≤ p.next_ip
  pub high : p.next_ip ≤ pool_last
  pub given : All (λ (d, ip). (pool_first ≤ ip) × (ip ≤ pool_last)) p.domain_to_ip

unfoldable pub allocate_all : FakeIpPool → List (List ℕ) → FakeIpPool
allocate_all p [] = p
allocate_all p (domain ∷ domains) = allocate_all (allocate p domain).1 domains

module _ (p : FakeIpPool) (domain : List ℕ) where
  allocate_fresh :
      get same_bytes domain p.domain_to_ip ≡ none → allocate p domain ≡ (p.next_ip, assign p domain)
  unfolding allocate
  allocate_fresh e = ground (arith, e)

  allocate_held :
      {ip : ℕ} → get same_bytes domain p.domain_to_ip ≡ some ip → allocate p domain ≡ (ip, p)
  unfolding allocate
  allocate_held e = ground (arith, e)

new_pool-InPool : InPool new_pool
unfolding new_pool
new_pool-InPool = record {
  start = refl;
  end = refl;
  low = omega arith;
  high = omega arith;
  given = tt;
}

allocate-InPool :
    (p : FakeIpPool) (domain : List ℕ)
    → InPool p
    → InPool (allocate p domain).1
      × (pool_first ≤ (allocate p domain).0)
      × ((allocate p domain).0 ≤ pool_last)
unfolding assign following
allocate-InPool p domain v = elim (Option-cases (get same_bytes domain p.domain_to_ip)) [
  | inl fresh ↦ rw (allocate_fresh p domain fresh) (
    record {
      start = v.start;
      end = v.end;
      low = ground (arith, v.start, v.end, v.low, v.high);
      high = ground (arith, v.start, v.end, v.low, v.high);
      given =
          insert-All same_bytes same_bytes-IsEquality _ domain p.next_ip p.domain_to_ip
            (λ j e. (v.low, v.high)) v.given;
    },
    v.low,
    v.high,
  )
  | inr (ip, held) ↦
      let (low, high) =
        get-All same_bytes same_bytes-IsEquality _ domain p.domain_to_ip v.given held in
      rw (allocate_held p domain held) (v, low, high)
]

allocate_all-InPool :
    (p : FakeIpPool) (domains : List (List ℕ)) → InPool p → InPool (allocate_all p domains)
unfolding allocate_all
allocate_all-InPool p [] v = v
allocate_all-InPool p (domain ∷ domains) v =
    allocate_all-InPool (allocate p domain).1 domains (allocate-InPool p domain v).0

-- Every address that the pool gives, after any number of domains, is one from 198.18.0.1 to
-- 198.19.255.254.
pub allocate-in_pool :
    (domains : List (List ℕ)) (domain : List ℕ)
    → (pool_first ≤ (allocate (allocate_all new_pool domains) domain).0)
      × ((allocate (allocate_all new_pool domains) domain).0 ≤ pool_last)
allocate-in_pool domains domain =
    let (_, low, high) =
      allocate-InPool (allocate_all new_pool domains) domain
        (allocate_all-InPool new_pool domains new_pool-InPool) in
    (low, high)

-- A domain that has an address keeps it.
pub allocate-allocate :
    (p : FakeIpPool) (domain : List ℕ) → allocate (allocate p domain).1 domain ≡ allocate p domain
unfolding assign
allocate-allocate p domain = elim (Option-cases (get same_bytes domain p.domain_to_ip)) [
  | inl fresh ↦ rw (allocate_fresh p domain fresh) (
      allocate_held (assign p domain) domain
        (get-insert_same same_bytes same_bytes-IsEquality domain p.next_ip p.domain_to_ip))
  | inr (ip, held) ↦ rw (allocate_held p domain held) (allocate_held p domain held)
]

-- The two tables are inverse, and `used` addresses are taken, none of them the next.
record Paired (used : ℕ) (p : FakeIpPool) : Type 0 where
  start : p.pool_start ≡ pool_first
  end : p.pool_end ≡ pool_last
  next : p.next_ip ≡ pool_first + used
  pairs : All (λ (d, ip). (ip < p.next_ip) × (lookup_ip p ip ≡ some d)) p.domain_to_ip

-- The address of a new domain is none of those that are taken.
assign-Paired :
    (used : ℕ) (p : FakeIpPool) (domain : List ℕ)
    → used < pool_last - pool_first
    → Paired used p
    → Paired (suc used) (assign p domain)
unfolding assign following lookup_ip
assign-Paired used p domain room v =
    let moved : following p ≡ p.next_ip + 1 = ground (arith, v.start, v.end, v.next) in
    record {
      start = v.start;
      end = v.end;
      next = omega (arith, moved, v.next);
      pairs =
          insert-All same_bytes same_bytes-IsEquality _ domain p.next_ip p.domain_to_ip
            (λ j e. (
              omega (arith, moved),
              rw e (get-insert_same same_ip same_ip-IsEquality p.next_ip domain p.ip_to_domain),
            ))
            (All-impl _ _ p.domain_to_ip
              (λ (d, ip) (below, found). (
                omega (arith, moved, below),
                get-insert_other same_ip same_ip-IsEquality ip p.next_ip domain p.ip_to_domain
                      (λ x. omega (arith, x, below))
                    ∙ found,
              ))
              v.pairs);
    }

allocate-Paired :
    (used : ℕ) (p : FakeIpPool) (domain : List ℕ)
    → used < pool_last - pool_first
    → Paired used p
    → (more : ℕ) × (more ≤ suc used) × Paired more (allocate p domain).1
allocate-Paired used p domain room v = elim (Option-cases (get same_bytes domain p.domain_to_ip)) [
  | inl fresh ↦ (
    suc used,
    omega arith,
    rw (allocate_fresh p domain fresh) (assign-Paired used p domain room v),
  )
  | inr (ip, held) ↦ (used, omega arith, rw (allocate_held p domain held) v)
]

allocate_all-Paired :
    (used : ℕ) (p : FakeIpPool) (domains : List (List ℕ))
    → used + length domains ≤ pool_last - pool_first
    → Paired used p
    → (more : ℕ) × Paired more (allocate_all p domains)
unfolding allocate_all
allocate_all-Paired used p [] room v = (used, v)
allocate_all-Paired used p (domain ∷ domains) room v =
    let (more, few, w) = allocate-Paired used p domain (omega arith) v in
    allocate_all-Paired more (allocate p domain).1 domains (omega (arith, few)) w

pub lookup_ip-allocate :
    (domains : List (List ℕ)) (domain : List ℕ) (ip : ℕ)
    → length domains ≤ pool_last - pool_first
    → get same_bytes domain (allocate_all new_pool domains).domain_to_ip ≡ some ip
    → lookup_ip (allocate_all new_pool domains) ip ≡ some domain
unfolding new_pool
lookup_ip-allocate domains domain ip room e =
    let (used, v) =
      allocate_all-Paired 0 new_pool domains (omega (arith, room))
        (record { start = refl; end = refl; next = refl; pairs = tt }) in
    (get-All same_bytes same_bytes-IsEquality _ domain (allocate_all new_pool domains).domain_to_ip
      v.pairs e).1

pub allocate_all-append :
    (p : FakeIpPool) (domains : List (List ℕ)) (domain : List ℕ)
    → allocate_all p (domains ++ (domain ∷ [])) ≡ (allocate (allocate_all p domains) domain).1
unfolding allocate_all
allocate_all-append p [] domain = refl
allocate_all-append p (d ∷ domains) domain = allocate_all-append (allocate p d).1 domains domain

-- The pool knows the address that it gave.
pub get-allocate :
    (p : FakeIpPool) (domain : List ℕ)
    → get same_bytes domain (allocate p domain).1.domain_to_ip ≡ some (allocate p domain).0
unfolding assign
get-allocate p domain = elim (Option-cases (get same_bytes domain p.domain_to_ip)) [
  | inl fresh ↦
      rw (allocate_fresh p domain fresh)
        (get-insert_same same_bytes same_bytes-IsEquality domain p.next_ip p.domain_to_ip)
  | inr (ip, held) ↦ rw (allocate_held p domain held) held
]

-- ===== src/Server/Addresses/Leases.antt =====
-- The addresses that sessions have, after any calls: who has which host, and which host is free.
use kanrin.Common.{
  ℕ, suc, ◌+◌, ◌*◌, ◌/◌, ◌%◌, ◌≤◌, ◌<◌, ◌≡◌, ◌⊎◌, refl, true, ◌||◌, not, List, [], ◌∷◌, ◌++◌, none,
  some, ltb, ◌==◌, if◌then◌else◌, Bool-cases, inl, inr, arith, length, length-append,
}
use kanrin.Server.Addresses.{IpAllocator, new_allocator, allocate, contains, release}

-- The allocators that calls lead to, with the addresses that sessions have: a call gives one, and a
-- session that ends gives its own back.
pub data Leased (base_ip : ℕ) : IpAllocator → List ℕ → Type 0 where
  fresh : Leased base_ip (new_allocator base_ip) []
  taken :
      {a after : IpAllocator} {leases : List ℕ} (ip : ℕ)
      → Leased base_ip a leases
      → allocate a ≡ (some ip, after)
      → Leased base_ip after (ip ∷ leases)
  ended :
      {a : IpAllocator} (front : List ℕ) (ip : ℕ) (rest : List ℕ)
      → Leased base_ip a (front ++ (ip ∷ rest))
      → Leased base_ip (release a ip) (front ++ rest)

-- How often a host is among some addresses.
pub times_held : (host : ℕ) → List ℕ → ℕ
times_held host [] = 0
times_held host (ip ∷ leases) =
    let rest = times_held host leases in if (ip % 256) == host then suc rest else rest

times_held-append :
    (host : ℕ) (front rest : List ℕ)
    → times_held host (front ++ rest) ≡ times_held host front + times_held host rest
unfolding times_held
times_held-append host [] rest = ground arith
times_held-append host (ip ∷ front) rest = ground (arith, times_held-append host front rest)

-- How often a host is free.
times_free : (host : ℕ) → List ℕ → ℕ
times_free host [] = 0
times_free host (h ∷ freed) =
    let rest = times_free host freed in if h == host then suc rest else rest

contains-free : (host : ℕ) (freed : List ℕ) → contains host freed ≡ true → 0 < times_free host freed
unfolding contains times_free
contains-free host [] e = ground arith
contains-free host (h ∷ freed) e = ground (arith, contains-free host freed)

-- Every host below `next` is free or held, and once.
record Accounts (base_ip : ℕ) (a : IpAllocator) (leases : List ℕ) : Type 0 where
  same_base : a.base ≡ base_ip / 256 * 256
  once : (host : ℕ) → times_free host a.freed + times_held host leases ≤ 1
  from_two : (host : ℕ) → host < 2 → times_free host a.freed + times_held host leases ≡ 0
  below_next : (host : ℕ) → a.next ≤ host → times_free host a.freed + times_held host leases ≡ 0
  total : length a.freed + length leases + 2 ≡ a.next
  most : a.next ≤ 254

new_allocator-Accounts : (base_ip : ℕ) → Accounts base_ip (new_allocator base_ip) []
unfolding new_allocator times_free times_held
new_allocator-Accounts base_ip = record {
  same_base = refl;
  once = λ host. omega arith;
  from_two = λ host _. refl;
  below_next = λ host _. refl;
  total = refl;
  most = omega arith;
}

host_of_address : (base_ip host : ℕ) → host < 256 → (base_ip / 256 * 256 + host) % 256 ≡ host
host_of_address base_ip host h = omega arith

-- What a call gives.
pub record Given (base_ip : ℕ) (leases : List ℕ) (ip : ℕ) : Type 0 where
  pub host : ℕ
  pub address : ip ≡ base_ip / 256 * 256 + host
  pub not_reserved : 2 ≤ host
  pub not_last : host < 254
  pub not_held : times_held host leases ≡ 0

-- None is given only if 252 addresses are held.
Outcome : (base_ip : ℕ) → IpAllocator → List ℕ → Type 0
Outcome base_ip a leases =
    ((allocate a ≡ (none, a)) × (length leases ≡ 252))
    ⊎ ((ip : ℕ) × (after : IpAllocator) × (allocate a ≡ (some ip, after))
        × Given base_ip leases ip
        × Accounts base_ip after (ip ∷ leases))

module _ (base_ip base next : ℕ) (leases : List ℕ) where
  next-Accounts :
      Accounts base_ip (record { base = base; next = next; freed = [] }) leases
      → next < 254
      → Given base_ip leases (base + next)
        × Accounts base_ip
            (record { base = base; next = next + 1; freed = [] })
            ((base + next) ∷ leases)
  unfolding times_free times_held
  next-Accounts acc room = (
    record {
      host = next;
      address = omega (arith, acc.same_base);
      not_reserved = omega (arith, acc.total);
      not_last = room;
      not_held = omega (arith, acc.below_next next (omega arith));
    },
    record {
      same_base = acc.same_base;
      once = λ k. ground (arith, octet, acc.once k, acc.below_next k);
      from_two = λ k h. ground (arith, octet, acc.from_two k h, acc.total);
      below_next = λ k h. ground (arith, octet, acc.below_next k (omega arith));
      total = omega (arith, acc.total);
      most = omega arith;
    },
  )
    where
      octet : (base + next) % 256 ≡ next
      octet = omega (arith, acc.same_base, acc.most)

  freed-Accounts :
      (h : ℕ) (freed : List ℕ)
      → Accounts base_ip (record { base = base; next = next; freed = h ∷ freed }) leases
      → Given base_ip leases (base + h)
        × Accounts base_ip
            (record { base = base; next = next; freed = freed })
            ((base + h) ∷ leases)
  unfolding times_free times_held
  freed-Accounts h freed acc = (
    record {
      host = h;
      address = omega (arith, acc.same_base);
      not_reserved = ground (arith, acc.from_two h);
      not_last = low;
      not_held = ground (arith, acc.once h);
    },
    record {
      same_base = acc.same_base;
      once = λ k. ground (arith, octet, acc.once k);
      from_two = λ k h. ground (arith, octet, acc.from_two k h);
      below_next = λ k h. ground (arith, octet, acc.below_next k h);
      total = omega (arith, acc.total);
      most = acc.most;
    },
  )
    where
      low : h < 254
      low = ground (arith, acc.below_next h, acc.most)

      octet : (base + h) % 256 ≡ h
      octet = omega (arith, acc.same_base, low)

allocate-Accounts :
    (base_ip : ℕ) (a : IpAllocator) (leases : List ℕ)
    → Accounts base_ip a leases
    → Outcome base_ip a leases
unfolding Outcome allocate
allocate-Accounts base_ip a leases acc = by_freed a.base a.next a.freed acc
  where
    by_freed :
        (base next : ℕ) (freed : List ℕ)
        → Accounts base_ip (record { base = base; next = next; freed = freed }) leases
        → Outcome base_ip (record { base = base; next = next; freed = freed }) leases
    by_freed base next (h ∷ freed) acc =
        let (given, kept) = freed-Accounts base_ip base next leases h freed acc in
        inr (base + h, _, refl, given, kept)
    by_freed base next [] acc = elim (Bool-cases (ltb next 254)) [
      | inl room ↦
          let (given, kept) = next-Accounts base_ip base next leases acc (ground (arith, room)) in
          inr (base + next, _, rw (room) refl, given, kept)
      | inr full ↦ inl (rw full refl, ground (arith, full, acc.total, acc.most))
    ]

release-Accounts :
    (base_ip : ℕ) (a : IpAllocator) (front : List ℕ) (ip : ℕ) (rest : List ℕ)
    → Accounts base_ip a (front ++ (ip ∷ rest))
    → Accounts base_ip (release a ip) (front ++ rest)
unfolding release times_free times_held
release-Accounts base_ip a front ip rest acc =
    elim (Bool-cases (ltb (ip % 256) 2 || not (ltb (ip % 256) 254))) [
      | inl outside ↦ absurd (
          ground (
            arith,
            outside,
            held_there,
            acc.from_two (ip % 256),
            acc.below_next (ip % 256),
            acc.most,
          ))
      | inr inside ↦ elim (Bool-cases (contains (ip % 256) a.freed)) [
        | inl free ↦
            absurd (
              ground
                (arith, held_there, acc.once (ip % 256), contains-free (ip % 256) a.freed free))
        | inr held ↦
            rw (inside, held)
              (record {
                same_base = acc.same_base;
                once = λ k. ground (
                  arith,
                  acc.once k,
                  times_held-append k front (ip ∷ rest),
                  times_held-append k front rest,
                );
                from_two = λ k h. ground (
                  arith,
                  acc.from_two k h,
                  times_held-append k front (ip ∷ rest),
                  times_held-append k front rest,
                );
                below_next = λ k h. ground (
                  arith,
                  acc.below_next k h,
                  times_held-append k front (ip ∷ rest),
                  times_held-append k front rest,
                );
                total =
                    omega
                      (arith, acc.total, length-append front (ip ∷ rest), length-append front rest);
                most = acc.most;
              })
      ]
    ]
  where
    held_there : 0 < times_held (ip % 256) (front ++ (ip ∷ rest))
    held_there = ground (arith, times_held-append (ip % 256) front (ip ∷ rest))

Leased-Accounts :
    (base_ip : ℕ) (a : IpAllocator) (leases : List ℕ)
    → Leased base_ip a leases
    → Accounts base_ip a leases
unfolding Outcome
Leased-Accounts base_ip _ _ fresh = new_allocator-Accounts base_ip
Leased-Accounts base_ip _ _ (ended {a} front ip rest l) =
    release-Accounts base_ip a front ip rest (Leased-Accounts base_ip a _ l)
Leased-Accounts base_ip _ _ (taken {a} {after} {leases} ip l given) =
    elim (allocate-Accounts base_ip a leases (Leased-Accounts base_ip a leases l)) [
      | inl (refused, _) ↦ absurd (ground (arith, given, refused))
      | inr (ip', after', e, _, kept) ↦
          let same_ip : ip' ≡ ip = cc in
          let same_after : after' ≡ after = cc in rw (same_ip, same_after) at kept
    ]

-- After any calls in which sessions take addresses and give their own back, a new address lies in
-- the /24 of the base, from .2 to .253, and no session has it; none is given only when sessions
-- have 252 addresses.
pub allocate-Leased :
    (base_ip : ℕ) (a : IpAllocator) (leases : List ℕ)
    → Leased base_ip a leases
    → ((allocate a ≡ (none, a)) × (length leases ≡ 252))
      ⊎ ((ip : ℕ) × (after : IpAllocator) × (allocate a ≡ (some ip, after))
          × Given base_ip leases ip)
unfolding Outcome
allocate-Leased base_ip a leases l =
    elim (allocate-Accounts base_ip a leases (Leased-Accounts base_ip a leases l)) [
      | inl refused ↦ inl refused
      | inr (ip, after, e, given, _) ↦ inr (ip, after, e, given)
    ]

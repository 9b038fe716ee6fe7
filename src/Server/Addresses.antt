-- ===== src/Server/Addresses.antt =====
-- `IpAllocator` of crates/kanrin-server/src/session.rs: the addresses of the clients, in one /24. The
-- freed hosts are a stack, whose top is the first of the list; the lock is held for a whole call.
pub mod Leases
mod Tests
use kanrin.Common.{
  ℕ, zero, suc, ◌+◌, ◌*◌, ◌/◌, ◌%◌, Bool, true, false, ◌||◌, not, List, [], ◌∷◌, Option, none, some,
  ltb, ◌==◌, if◌then◌else◌,
}

pub record IpAllocator : Type 0 where
  pub base : ℕ
  pub next : ℕ
  pub freed : List ℕ

pub new_allocator : (base_ip : ℕ) → IpAllocator
new_allocator base_ip = record { base = base_ip / 256 * 256; next = 2; freed = [] }

-- The last eight bits of the base are zero, so that `|` adds the host.
unfoldable pub allocate : IpAllocator → Option ℕ × IpAllocator
allocate a = elim a.freed [
  | h ∷ freed ↦ (some (a.base + h), record a { freed = freed })
  | [] ↦
      if ltb a.next 254 then (some (a.base + a.next), record a { next = a.next + 1 }) else (none, a)
]

unfoldable pub contains : (host : ℕ) → List ℕ → Bool
contains host [] = false
contains host (h ∷ freed) = (h == host) || contains host freed

pub release : IpAllocator → (ip : ℕ) → IpAllocator
release a ip =
    let host = ip % 256 in
    if ltb host 2 || not (ltb host 254)
    then a
    else if contains host a.freed
    then a
    else record a { freed = host ∷ a.freed }

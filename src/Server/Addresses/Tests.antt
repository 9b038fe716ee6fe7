-- ===== src/Server/Addresses/Tests.antt =====
-- Two sessions begin, and the first one ends.
use kanrin.Common.{ℕ, ◌+◌, ◌*◌, ◌≡◌, ◌⊎◌, refl, [], ◌∷◌, none, some, length}
use kanrin.Server.Addresses.{IpAllocator, new_allocator, allocate, release}
use kanrin.Server.Addresses.Leases.{Leased, fresh, taken, ended, Given, allocate-Leased}

-- 10.10.0.0
abbrev network : ℕ
network = (10 * 256 + 10) * 65536

abbrev one_back : IpAllocator
one_back = release (record { base = network; next = 4; freed = [] }) (network + 2)

one_back-Leased : Leased network one_back ((network + 3) ∷ [])
unfolding allocate new_allocator
one_back-Leased =
    ended ((network + 3) ∷ []) (network + 2) []
      (taken (network + 3) (taken (network + 2) fresh refl) refl)

allocate-Leased_example :
    ((allocate one_back ≡ (none, one_back)) × (length ((network + 3) ∷ []) ≡ 252))
    ⊎ ((ip : ℕ) × (after : IpAllocator) × (allocate one_back ≡ (some ip, after))
        × Given network ((network + 3) ∷ []) ip)
allocate-Leased_example = allocate-Leased network one_back ((network + 3) ∷ []) one_back-Leased

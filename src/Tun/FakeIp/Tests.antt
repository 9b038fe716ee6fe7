-- ===== src/Tun/FakeIp/Tests.antt =====
-- Runs of the pool of fake addresses.
use kanrin.Common.{ℕ, ◌≡◌, ◌≤◌, refl, List, [], ◌∷◌, some}
use kanrin.Common.Table.{same_bytes}
use kanrin.Common.Assoc.{get, insert}
use kanrin.Tun.FakeIp.{new_pool, pool_first, pool_last, allocate, assign, following}
use kanrin.Tun.FakeIp.Pool.{allocate_all, allocate-in_pool}

abbrev two_names : List (List ℕ)
two_names = (97 ∷ []) ∷ (98 ∷ []) ∷ []

abbrev second_ip : ℕ
second_ip = 3323068418

second : get same_bytes (98 ∷ []) (allocate_all new_pool two_names).domain_to_ip ≡ some second_ip
unfolding allocate_all allocate assign following new_pool get insert same_bytes
second = refl

allocate-in_pool_example :
    (pool_first ≤ (allocate (allocate_all new_pool two_names) (99 ∷ [])).0)
    × ((allocate (allocate_all new_pool two_names) (99 ∷ [])).0 ≤ pool_last)
allocate-in_pool_example = allocate-in_pool two_names (99 ∷ [])

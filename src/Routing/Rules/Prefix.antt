-- ===== src/Routing/Rules/Prefix.antt =====
-- A prefix of length zero.
use kanrin.Common.{ℕ, ◌≡◌, ◌==◌, arith}
use kanrin.Routing.Rules.{v4, v6, ip_in_cidr, masked}

-- Where overflow is not checked, a prefix of length zero matches no address but the one of the
-- network itself.
pub ip_in_cidr_zero :
    (ip network : ℕ)
    → (ip_in_cidr (v4 ip) (v4 network) 0 ≡ (ip == network))
      × (ip_in_cidr (v6 ip) (v6 network) 0 ≡ (ip == network))
unfolding ip_in_cidr masked
ip_in_cidr_zero ip network = ground arith

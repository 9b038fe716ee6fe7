-- ===== src/Routing/GeoIp/Tests.antt =====
-- Two networks that arrive out of order.
use kanrin.Common.{◌≡◌, refl, [], ◌∷◌, inr, arith}
use kanrin.Routing.Rules.{v4}
use kanrin.Routing.GeoIp.{
  CountryCode, GeoIpDatabase, iran, new_database, add_ipv4_range, block_size, finalize, lookup,
}
use kanrin.Routing.GeoIp.Linear.{Disjoint, country_in, lookup-finalize}

abbrev germany : CountryCode
germany = record { first = 68; second = 69 }

-- 10.1.0.0/16 and 5.22.0.0/16
abbrev two_networks : GeoIpDatabase
two_networks =
    record { start = 167837696; end = 167903231; country = germany }
    ∷ record { start = 85327872; end = 85393407; country = iran }
    ∷ []

two_networks_added :
    add_ipv4_range (add_ipv4_range new_database 167837696 16 germany) 85327872 16 iran
    ≡ two_networks
unfolding add_ipv4_range block_size
two_networks_added = refl

two_networks-Disjoint : Disjoint two_networks
two_networks-Disjoint = (omega arith, (inr (omega arith), tt), (omega arith, tt, tt))

lookup-finalize_example :
    lookup (finalize two_networks) (v4 85327900) ≡ country_in 85327900 two_networks
lookup-finalize_example = lookup-finalize two_networks 85327900 two_networks-Disjoint

-- ===== src/Routing/GeoIp.antt =====
-- crates/kanrin-routing/src/geoip.rs: the country of an address. A string is its bytes, an IPv4
-- address a number, and an index out of range is `none`.
pub mod Linear
mod Tests
use kanrin.Common.{
  ℕ, zero, suc, ◌+◌, ◌-◌, ◌*◌, ◌/◌, ◌%◌, ◌^◌, Bool, false, ◌&&◌, not, List, [], ◌∷◌, ◌++◌, Option,
  none, some, ltb, ◌==◌, if◌then◌else◌, length, nth,
}
use kanrin.Routing.Rules.{IpAddr, v4, v6}

pub record CountryCode : Type 0 where
  pub first : ℕ
  pub second : ℕ

to_ascii_uppercase : ℕ → ℕ
to_ascii_uppercase c = if not (ltb c 97) && ltb c 123 then c - 32 else c

new_code : (code : List ℕ) → Option CountryCode
new_code (a ∷ b ∷ []) =
    some (record { first = to_ascii_uppercase a; second = to_ascii_uppercase b })
new_code [] = none
new_code (a ∷ []) = none
new_code (a ∷ b ∷ c ∷ code) = none

abbrev pub iran : CountryCode
iran = record { first = 73; second = 82 }

pub record Ipv4Range : Type 0 where
  pub start : ℕ
  pub end : ℕ
  pub country : CountryCode

abbrev pub GeoIpDatabase : Type 0
GeoIpDatabase = List Ipv4Range

abbrev pub new_database : GeoIpDatabase
new_database = []

-- The number of addresses under a prefix. A build without overflow checks shifts a `u32` by the lower five
-- bits, so that a prefix of no bits has one address, as one of 32 bits has.
pub block_size : (prefix_len : ℕ) → ℕ
block_size prefix_len = if ltb prefix_len 32 then 2 ^ ((32 - prefix_len) % 32) else 1

pub add_ipv4_range : GeoIpDatabase → (network prefix_len : ℕ) → CountryCode → GeoIpDatabase
add_ipv4_range ranges network prefix_len country =
    let size = block_size prefix_len in
    let start = network / size * size in
    ranges ++ (record { start = start; end = start + size - 1; country = country } ∷ [])

-- `sort_by_key` is stable.
pub insert_by_start : Ipv4Range → GeoIpDatabase → GeoIpDatabase
insert_by_start r [] = r ∷ []
insert_by_start r (s ∷ ranges) =
    let rest = insert_by_start r ranges in if ltb s.start r.start then s ∷ rest else r ∷ s ∷ ranges

pub finalize : GeoIpDatabase → GeoIpDatabase
finalize [] = []
finalize (r ∷ ranges) = insert_by_start r (finalize ranges)

-- `partition_point` of sorted ranges: how many of them start at the address or before it.
pub partition_point : (ip_num : ℕ) → GeoIpDatabase → ℕ
partition_point ip_num [] = 0
partition_point ip_num (r ∷ ranges) =
    let rest = partition_point ip_num ranges in if ltb ip_num r.start then 0 else suc rest

pub holds : (ip_num : ℕ) → Ipv4Range → Bool
holds ip_num r = not (ltb ip_num r.start) && not (ltb r.end ip_num)

pub country_of : (ip_num : ℕ) → Option Ipv4Range → Option CountryCode
country_of ip_num none = none
country_of ip_num (some r) = if holds ip_num r then some r.country else none

unfoldable pub lookup : GeoIpDatabase → IpAddr → Option CountryCode
lookup ranges (v6 ip) = none
lookup ranges (v4 ip_num) = elim (partition_point ip_num ranges) [
  | zero ↦ none
  | suc before ↦ country_of ip_num (nth ranges before)
]

same_country : Option CountryCode → CountryCode → Bool
same_country none c = false
same_country (some b) c = (b.first == c.first) && (b.second == c.second)

is_country : GeoIpDatabase → IpAddr → CountryCode → Bool
unfolding same_country
is_country ranges ip country = same_country (lookup ranges ip) country

range_count : GeoIpDatabase → ℕ
range_count ranges = length ranges

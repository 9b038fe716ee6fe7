-- ===== src/Routing/GeoIp/Linear.antt =====
-- The binary search of sorted ranges is the search of the ranges one by one, if they do not overlap.
use kanrin.Common.{
  ℕ, ◌≤◌, ◌<◌, ◌≡◌, ◌⊎◌, refl, ◌∙◌, [], ◌∷◌, Option, none, some, ltb, if◌then◌else◌, Bool-cases,
  inl, inr, arith, All, All-impl, nth,
}
use kanrin.Routing.Rules.{v4}
use kanrin.Routing.GeoIp.{
  CountryCode, Ipv4Range, GeoIpDatabase, insert_by_start, finalize, partition_point, holds,
  country_of, lookup,
}

-- The country of the first range that has the address.
pub country_in : (ip_num : ℕ) → GeoIpDatabase → Option CountryCode
country_in ip_num [] = none
country_in ip_num (r ∷ ranges) =
    let rest = country_in ip_num ranges in if holds ip_num r then some r.country else rest

abbrev Apart : Ipv4Range → Ipv4Range → Type 0
Apart r s = (r.end < s.start) ⊎ (s.end < r.start)

-- The ranges have an address each, and no address in common.
abbrev pub Disjoint : GeoIpDatabase → Type 0
Disjoint [] = Unit
Disjoint (r ∷ ranges) = (r.start ≤ r.end) × All (Apart r) ranges × Disjoint ranges

abbrev Sorted : GeoIpDatabase → Type 0
Sorted [] = Unit
Sorted (r ∷ ranges) = All (λ s. r.start ≤ s.start) ranges × Sorted ranges

insert_by_start-All :
    (P : Ipv4Range → Type 0) (r : Ipv4Range) (ranges : GeoIpDatabase)
    → P r
    → All P ranges
    → All P (insert_by_start r ranges)
unfolding insert_by_start
insert_by_start-All P r [] p h = (p, tt)
insert_by_start-All P r (s ∷ ranges) p (q, h) = elim (Bool-cases (ltb s.start r.start)) [
  | inl before ↦ rw before (q, insert_by_start-All P r ranges p h)
  | inr after ↦ rw after (p, (q, h))
]

insert_by_start-Sorted :
    (r : Ipv4Range) (ranges : GeoIpDatabase) → Sorted ranges → Sorted (insert_by_start r ranges)
unfolding insert_by_start
insert_by_start-Sorted r [] h = (tt, tt)
insert_by_start-Sorted r (s ∷ ranges) (low, h) = elim (Bool-cases (ltb s.start r.start)) [
  | inl before ↦ rw before (
    insert_by_start-All (λ t. s.start ≤ t.start) r ranges (ground (arith, before)) low,
    insert_by_start-Sorted r ranges h,
  )
  | inr after ↦ rw after (
    (
      ground (arith, after),
      All-impl (λ t. s.start ≤ t.start) (λ t. r.start ≤ t.start) ranges
          (λ t e. ground (arith, after, e)) low,
    ),
    (low, h),
  )
]

insert_by_start-Disjoint :
    (r : Ipv4Range) (ranges : GeoIpDatabase)
    → Disjoint (r ∷ ranges)
    → Disjoint (insert_by_start r ranges)
unfolding insert_by_start
insert_by_start-Disjoint r [] h = h
insert_by_start-Disjoint r (s ∷ ranges) (real, (apart, others), (real', apart', h)) =
    elim (Bool-cases (ltb s.start r.start)) [
      | inl before ↦ rw before (
        real',
        insert_by_start-All (Apart s) r ranges (ground (arith, apart)) apart',
        insert_by_start-Disjoint r ranges (real, others, h),
      )
      | inr after ↦ rw after (real, (apart, others), (real', apart', h))
    ]

country_in-insert_by_start :
    (ip_num : ℕ) (r : Ipv4Range) (ranges : GeoIpDatabase)
    → Disjoint (r ∷ ranges)
    → country_in ip_num (insert_by_start r ranges) ≡ country_in ip_num (r ∷ ranges)
unfolding insert_by_start country_in holds
country_in-insert_by_start ip_num r [] h = refl
country_in-insert_by_start ip_num r (s ∷ ranges) (real, (apart, others), (real', apart', h)) =
    elim (Bool-cases (ltb s.start r.start)) [
      | inl before ↦
          rw (before, country_in-insert_by_start ip_num r ranges (real, others, h))
            (ground (arith, apart))
      | inr after ↦ rw after refl
    ]

finalize-All :
    (P : Ipv4Range → Type 0) (ranges : GeoIpDatabase) → All P ranges → All P (finalize ranges)
unfolding finalize
finalize-All P [] h = tt
finalize-All P (r ∷ ranges) (p, h) =
    insert_by_start-All P r (finalize ranges) p (finalize-All P ranges h)

finalize-Disjoint : (ranges : GeoIpDatabase) → Disjoint ranges → Disjoint (finalize ranges)
unfolding finalize
finalize-Disjoint [] h = tt
finalize-Disjoint (r ∷ ranges) (real, apart, h) =
    insert_by_start-Disjoint r (finalize ranges)
      (real, finalize-All (Apart r) ranges apart, finalize-Disjoint ranges h)

finalize-Sorted : (ranges : GeoIpDatabase) → Sorted (finalize ranges)
unfolding finalize
finalize-Sorted [] = tt
finalize-Sorted (r ∷ ranges) = insert_by_start-Sorted r (finalize ranges) (finalize-Sorted ranges)

country_in-finalize :
    (ip_num : ℕ) (ranges : GeoIpDatabase)
    → Disjoint ranges
    → country_in ip_num (finalize ranges) ≡ country_in ip_num ranges
unfolding finalize country_in
country_in-finalize ip_num [] h = refl
country_in-finalize ip_num (r ∷ ranges) (real, apart, h) =
    country_in-insert_by_start ip_num r (finalize ranges)
      (real, finalize-All (Apart r) ranges apart, finalize-Disjoint ranges h)
    ∙ rw (country_in-finalize ip_num ranges h) refl

-- Ranges that start behind an address do not have it.
country_in-behind :
    (ip_num : ℕ) (ranges : GeoIpDatabase)
    → All (λ s. ip_num < s.start) ranges
    → country_in ip_num ranges ≡ none
unfolding country_in holds
country_in-behind ip_num [] h = refl
country_in-behind ip_num (r ∷ ranges) (behind, h) =
    ground (arith, country_in-behind ip_num ranges h)

lookup-Sorted :
    (ip_num : ℕ) (ranges : GeoIpDatabase)
    → Disjoint ranges
    → Sorted ranges
    → lookup ranges (v4 ip_num) ≡ country_in ip_num ranges
unfolding lookup country_in partition_point country_of nth holds
lookup-Sorted ip_num [] h sorted = refl
lookup-Sorted ip_num (r ∷ []) h sorted = ground arith
lookup-Sorted ip_num (r ∷ s ∷ ranges) (real, (apart, others), h) ((low, lows), sorted) =
    let later = lookup-Sorted ip_num (s ∷ ranges) h sorted in
    elim (Bool-cases (ltb ip_num s.start)) [
      | inl behind ↦
          let none_behind = country_in-behind ip_num (s ∷ ranges) (
            ground (arith, behind),
            All-impl (λ t. s.start ≤ t.start) (λ t. ip_num < t.start) ranges
                (λ t e. ground (arith, behind, e)) sorted.0,
          ) in
          ground (arith, behind, none_behind)
      | inr reached ↦ ground (arith, reached, later, low, apart, h.0)
    ]

-- If no two of the ranges that were loaded overlap, then after sorting, the search for the country
-- of an IPv4 address finds what a search of the ranges one by one finds.
pub lookup-finalize :
    (ranges : GeoIpDatabase) (ip_num : ℕ)
    → Disjoint ranges
    → lookup (finalize ranges) (v4 ip_num) ≡ country_in ip_num ranges
lookup-finalize ranges ip_num h =
    lookup-Sorted ip_num (finalize ranges) (finalize-Disjoint ranges h) (finalize-Sorted ranges)
    ∙ country_in-finalize ip_num ranges h

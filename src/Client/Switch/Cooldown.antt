-- ===== src/Client/Switch/Cooldown.antt =====
-- The rate limit on switches.
use kanrin.Common.{
  ℕ, zero, suc, ◌+◌, ◌-◌, ◌*◌, ◌^◌, ◌%◌, ◌≡◌, ◌≤◌, ◌<◌, refl, ap, true, false, min, ltb,
  if◌then◌else◌, arith, Bool-cases, inl, inr,
}
use native.Mathlib.Nat.{pow-suc, mul_assoc}
use kanrin.Client.Switch.{
  SwitchPolicy, SwitchReason, is_failure, is_flapping, cooldown, allows, record_switch,
  max_duration,
}

pow_suc : (base n : ℕ) → base * 2 ^ (n + 1) ≡ 2 * (base * 2 ^ n)
pow_suc base n =
    let next : n + 1 ≡ suc n = omega arith in
    rw next (omega (arith, ap (λ k. base * k) (pow-suc 2 n), mul_assoc base (2 ^ n) 2))

doubled :
    (x top ceiling : ℕ)
    → ceiling ≤ top
    → min (min (2 * x) top) ceiling ≡ min (2 * min (min x top) ceiling) ceiling
doubled x top ceiling h = omega arith

-- A switch that follows its predecessor inside the window doubles the cooldown, up to the ceiling
-- and at most sixteen times; any other brings it back to the base, with the ceiling a representable
-- duration and fewer than 2^32 - 1 consecutive switches.
pub cooldown-record_switch :
    (p : SwitchPolicy) (now : ℕ)
    → p.ceiling ≤ max_duration
    → p.consecutive < 2 ^ 32 - 1
    → cooldown (record_switch p now) ≡ (
        if is_flapping p now
        then (if ltb p.consecutive 16 then min (2 * cooldown p) p.ceiling else cooldown p)
        else min p.base p.ceiling)
unfolding cooldown record_switch
cooldown-record_switch p now small room =
    let counted : (p.consecutive + 1) % 2 ^ 32 ≡ p.consecutive + 1 = omega arith in
    elim (Bool-cases (is_flapping p now)) [
      | inl flapping ↦ elim (Bool-cases (ltb p.consecutive 16)) [
        | inl few ↦
            let before : min p.consecutive 16 ≡ p.consecutive = ground arith in
            let after : min (p.consecutive + 1) 16 ≡ p.consecutive + 1 = ground arith in
            rw (flapping, few, counted, before, after, pow_suc p.base p.consecutive)
              (doubled (p.base * 2 ^ p.consecutive) max_duration p.ceiling small)
        | inr many ↦
            let before : min p.consecutive 16 ≡ 16 = ground arith in
            let after : min (p.consecutive + 1) 16 ≡ 16 = ground arith in
            rw (flapping, many, counted, before, after) refl
      ]
      | inr settled ↦ rw settled (omega (arith, small))
    ]

le-pow : (base n : ℕ) → base ≤ base * 2 ^ n
le-pow base zero = omega arith
le-pow base (suc n) =
    let next : suc n ≡ n + 1 = omega arith in rw next (omega (arith, le-pow base n, pow_suc base n))

-- After a switch a failure is switched at any time, and a merely better path is refused until the
-- base cooldown, or the ceiling if that is lower, has passed, with the ceiling a representable
-- duration.
pub allows_spaced :
    (p : SwitchPolicy) (now later : ℕ) (reason : SwitchReason)
    → p.ceiling ≤ max_duration
    → ((is_failure reason ≡ true) → allows (record_switch p now) reason later ≡ true)
      × ((is_failure reason ≡ false)
          → later - now < min p.base p.ceiling
          → allows (record_switch p now) reason later ≡ false)
unfolding allows record_switch cooldown
allows_spaced p now later reason small = (
  λ failure. ground arith,
  λ better early.
      let wait = le-pow p.base (min (record_switch p now).consecutive 16) in ground (arith, wait),
)

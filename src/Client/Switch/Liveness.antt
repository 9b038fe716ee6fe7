-- ===== src/Client/Switch/Liveness.antt =====
-- When a link counts as dead, and when it is probed.
use kanrin.Common.{ℕ, ◌-◌, ◌≡◌, ◌≤◌, ◌<◌, ◌↔◌, true, false, arith}
use kanrin.Client.Switch.{LivenessMonitor, record_inbound, should_probe, is_dead, reset}

-- After an inbound frame, and after a switch, the link is dead once the timeout has passed, and not
-- before, whatever the silence was until then.
is_dead_iff :
    (m : LivenessMonitor) (now later : ℕ)
    → ((is_dead (record_inbound m now) later ≡ true) ↔ (m.timeout ≤ later - now))
      × ((is_dead (reset m now) later ≡ true) ↔ (m.timeout ≤ later - now))
unfolding is_dead record_inbound reset
is_dead_iff m now later = ground arith

-- Within one probe interval of a probe there is no other probe, even if the link stays quiet, and
-- within one interval of an inbound frame there is none at all.
should_probe_spaced :
    (m : LivenessMonitor) (now later : ℕ)
    → later - now < m.interval
    → (((should_probe m now).0 ≡ true) → (should_probe (should_probe m now).1 later).0 ≡ false)
      × ((should_probe (record_inbound m now) later).0 ≡ false)
unfolding should_probe record_inbound
should_probe_spaced m now later h = ground arith

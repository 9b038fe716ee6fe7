-- ===== src/Client/Switch.antt =====
-- crates/kanrin-client/src/switch.rs: the replay onto a new transport, and the timing rules. A
-- `Duration` or an `Instant` is a number of nanoseconds, and `now` is what the clock gives.
pub mod Replaying
pub mod Liveness
pub mod Cooldown
mod Tests
use kanrin.Common.{
  ℕ, zero, suc, ◌+◌, ◌-◌, ◌*◌, ◌^◌, ◌%◌, Bool, true, false, ◌&&◌, List, Option, none, some, min,
  ltb, leb, if◌then◌else◌,
}
use kanrin.Protocol.Continuity.SendBuffer.{SendBuffer}
use kanrin.Protocol.Continuity.Replay.{Replay, next_chunk, confirm_sent}

-- The end of `replay_onto`: the count and the connection, a failed send, or the bound run out.
pub data Replayed (C : Type 0) : Type 0 where
  done : (replayed : ℕ) (connection : C) → Replayed C
  failed : Replayed C
  unfinished : Replayed C

-- A connection is what its `send` makes of it; `none` is an error.
module _ {C : Type 0} (send : C → List ℕ → Option C) where
  -- The loop of `replay_onto`.
  pub replay_loop : (fuel : ℕ) → Replay → C → SendBuffer → Replayed C
  replay_loop zero replay connection buffer = unfinished
  replay_loop (suc fuel) replay connection buffer = elim (next_chunk replay buffer) [
    | none ↦ done replay.replayed connection
    | some (sequence, bytes) ↦ elim (send connection bytes) [
      | none ↦ failed
      | some connection' ↦ replay_loop fuel (confirm_sent replay sequence) connection' buffer
    ]
  ]

abbrev millisecond : ℕ
millisecond = 1000000

abbrev second : ℕ
second = 1000000000

-- `Duration::MAX`
abbrev pub max_duration : ℕ
max_duration = 2 ^ 64 * second - 1

abbrev pub liveness_timeout : ℕ
liveness_timeout = 750 * millisecond

abbrev pub probe_interval : ℕ
probe_interval = 250 * millisecond

abbrev pub base_cooldown : ℕ
base_cooldown = 5 * second

abbrev pub max_cooldown : ℕ
max_cooldown = 120 * second

abbrev pub flap_window : ℕ
flap_window = 60 * second

pub data SwitchReason : Type 0 where
  link_silent : SwitchReason
  transport_error : (text : List ℕ) → SwitchReason
  better_path_available : (path : List ℕ) → SwitchReason

pub is_failure : SwitchReason → Bool
is_failure link_silent = true
is_failure (transport_error text) = true
is_failure (better_path_available path) = false

pub record LivenessMonitor : Type 0 where
  pub last_inbound : ℕ
  pub last_probe : ℕ
  pub timeout : ℕ
  pub interval : ℕ

monitor_with_timing : (timeout interval now : ℕ) → LivenessMonitor
monitor_with_timing timeout interval now = record {
  last_inbound = now;
  last_probe = now;
  timeout = timeout;
  interval = interval;
}

new_monitor : (now : ℕ) → LivenessMonitor
unfolding monitor_with_timing
new_monitor now = monitor_with_timing liveness_timeout probe_interval now

-- `Instant` differences stop at zero.
pub record_inbound : LivenessMonitor → (now : ℕ) → LivenessMonitor
record_inbound m now = record m { last_inbound = now }

pub should_probe : LivenessMonitor → (now : ℕ) → Bool × LivenessMonitor
should_probe m now =
    let quiet = leb m.interval (now - m.last_inbound) in
    let due = leb m.interval (now - m.last_probe) in
    if quiet && due then (true, record m { last_probe = now }) else (false, m)

pub is_dead : LivenessMonitor → (now : ℕ) → Bool
is_dead m now = leb m.timeout (now - m.last_inbound)

silent_for : LivenessMonitor → (now : ℕ) → ℕ
silent_for m now = now - m.last_inbound

pub reset : LivenessMonitor → (now : ℕ) → LivenessMonitor
reset m now = record m { last_inbound = now; last_probe = now }

pub record SwitchPolicy : Type 0 where
  pub last_switch : Option ℕ
  pub consecutive : ℕ
  pub base : ℕ
  pub ceiling : ℕ
  pub window : ℕ

policy_with_timing : (base ceiling window : ℕ) → SwitchPolicy
policy_with_timing base ceiling window = record {
  last_switch = none;
  consecutive = 0;
  base = base;
  ceiling = ceiling;
  window = window;
}

new_policy : SwitchPolicy
unfolding policy_with_timing
new_policy = policy_with_timing base_cooldown max_cooldown flap_window

-- `base.saturating_mul(1 << consecutive.min(16)).min(max)`
pub cooldown : SwitchPolicy → ℕ
cooldown p = min (min (p.base * 2 ^ min p.consecutive 16) max_duration) p.ceiling

pub allows : SwitchPolicy → SwitchReason → (now : ℕ) → Bool
allows p reason now =
    if is_failure reason
    then true
    else elim p.last_switch [ none ↦ true | some at ↦ leb (cooldown p) (now - at) ]

pub is_flapping : SwitchPolicy → (now : ℕ) → Bool
is_flapping p now = elim p.last_switch [ none ↦ false | some at ↦ ltb (now - at) p.window ]

-- `record`; the counter is a `u32`.
pub record_switch : SwitchPolicy → (now : ℕ) → SwitchPolicy
record_switch p now = record p {
  consecutive = if is_flapping p now then (p.consecutive + 1) % 2 ^ 32 else 0;
  last_switch = some now;
}

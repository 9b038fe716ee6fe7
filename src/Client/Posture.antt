-- ===== src/Client/Posture.antt =====
-- crates/kanrin-client/src/posture.rs: which evasion measures are on. A `Duration` or an `Instant`
-- is a number of nanoseconds, and `now` is what the clock gives.
pub mod Floor
pub mod Hysteresis
mod Tests
use kanrin.Common.{
  ℕ, ◌+◌, ◌-◌, ◌*◌, ◌%◌, ◌^◌, Bool, true, false, not, List, [], ◌∷◌, Option, none, some, ltb, ◌==◌,
  if◌then◌else◌,
}

pub data Posture : Type 0 where
  performance balanced evasion : Posture

-- The derived order.
unfoldable pub rank : Posture → ℕ
rank performance = 0
rank balanced = 1
rank evasion = 2

pub record ShapingProfile : Type 0 where
  pub max_padding : ℕ
  pub pad_to_uniform_size : Bool
  pub rhythm_shaping : Bool
  pub cover_traffic_interval : Option ℕ
  pub fragment_handshake : Bool
  pub max_chunk_bytes : ℕ

abbrev second : ℕ
second = 1000000000

pub profile : Posture → ShapingProfile
profile performance = record {
  max_padding = 16;
  pad_to_uniform_size = false;
  rhythm_shaping = false;
  cover_traffic_interval = none;
  fragment_handshake = false;
  max_chunk_bytes = 65535;
}
profile balanced = record {
  max_padding = 64;
  pad_to_uniform_size = false;
  rhythm_shaping = false;
  cover_traffic_interval = none;
  fragment_handshake = true;
  max_chunk_bytes = 65535;
}
profile evasion = record {
  max_padding = 255;
  pad_to_uniform_size = true;
  rhythm_shaping = true;
  cover_traffic_interval = some (5 * second);
  fragment_handshake = true;
  max_chunk_bytes = 1400;
}

pub data Signal : Type 0 where
  handshake_failed suspicious_reset sudden_path_loss censorship_detected clean_period : Signal

unfoldable pub is_adverse : Signal → Bool
is_adverse clean_period = false
is_adverse _ = true

abbrev pub min_time_at_posture : ℕ
min_time_at_posture = 120 * second

abbrev pub clean_periods_to_relax : ℕ
clean_periods_to_relax = 5

pub record PostureController : Type 0 where
  pub current : Posture
  pub floor : Posture
  pub changed_at : ℕ
  pub clean_streak : ℕ
  pub adverse_total : ℕ
  pub min_time : ℕ
  pub clean_periods : ℕ

-- `a.max(b)`
pub higher : Posture → Posture → Posture
unfolding rank
higher a b = if ltb (rank b) (rank a) then a else b

pub with_floor : (initial floor : Posture) (now : ℕ) → PostureController
unfolding higher
with_floor initial floor now = record {
  current = higher initial floor;
  floor = floor;
  changed_at = now;
  clean_streak = 0;
  adverse_total = 0;
  min_time = min_time_at_posture;
  clean_periods = clean_periods_to_relax;
}

pub new_posture : (initial : Posture) (now : ℕ) → PostureController
unfolding with_floor
new_posture initial now = with_floor initial performance now

pub with_timing : PostureController → (min_time clean_periods : ℕ) → PostureController
with_timing c min_time clean_periods = record c {
  min_time = min_time;
  clean_periods = clean_periods;
}

-- `changed_at.elapsed()`, which stops at zero.
pub time_at_posture : PostureController → (now : ℕ) → ℕ
time_at_posture c now = now - c.changed_at

-- `set`, with the posture that it returns on a change.
pub set : PostureController → Posture → (now : ℕ) → Option Posture × PostureController
unfolding higher
set c target now =
    let raised = higher target c.floor in
    if rank raised == rank c.current
    then (none, c)
    else (some raised, record c { current = raised; changed_at = now })

-- One step down, if there is one.
pub relaxed : Posture → Option Posture
relaxed evasion = some balanced
relaxed balanced = some performance
relaxed performance = none

-- The end of `observe`, behind both thresholds.
relax : PostureController → (now : ℕ) → Option Posture × PostureController
unfolding relaxed set
relax c now = elim (relaxed c.current) [
  | none ↦ (none, c)
  | some target ↦ set (record c { clean_streak = 0 }) target now
]

-- A clean period of `observe`.
observe_clean : PostureController → (now : ℕ) → Option Posture × PostureController
unfolding relax time_at_posture
observe_clean c now =
    let counted : PostureController = record c { clean_streak = (c.clean_streak + 1) % 2 ^ 32 } in
    if ltb counted.clean_streak counted.clean_periods
    then (none, counted)
    else if ltb (time_at_posture counted now) counted.min_time
    then (none, counted)
    else relax counted now

pub observe : PostureController → Signal → (now : ℕ) → Option Posture × PostureController
unfolding is_adverse set observe_clean
observe c signal now =
    if is_adverse signal
    then set (record c { adverse_total = (c.adverse_total + 1) % 2 ^ 64; clean_streak = 0 }) evasion
        now
    else observe_clean c now

-- A user override.
pub force : PostureController → Posture → (now : ℕ) → Option Posture × PostureController
unfolding set
force c target now = set (record c { clean_streak = 0 }) target now

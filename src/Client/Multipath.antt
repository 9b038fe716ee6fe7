-- ===== src/Client/Multipath.antt =====
-- crates/kanrin-client/src/multipath.rs: which path carries a chunk. The floating-point numbers are
-- the parameter `Double`; a `Duration` or an `Instant` is a number of nanoseconds, and `now` is what
-- the clock gives. An index out of range, or a duration that is none, is `none`.
mod Positions
mod Credits
pub mod Choice
mod Tests
use kanrin.Common.{
  ℕ, zero, suc, ◌+◌, ◌-◌, ◌*◌, ◌%◌, ◌^◌, Bool, true, false, ◌&&◌, not, List, [], ◌∷◌, ◌++◌, Option,
  none, some, nth, ltb, ◌==◌, if◌then◌else◌, length,
}
use kanrin.Common.Table.{same_bytes}

-- What the code asks of `f64`: arithmetic, comparisons and conversions. `ratio` is a literal,
-- `narrow` the way to `f32` and back, and `duration` is `Duration::from_secs_f64`, which may panic.
pub record Double : Type 1 where
  pub Carrier : Type 0
  pub of_nat : ℕ → Carrier
  pub ratio : (numerator denominator : ℕ) → Carrier
  pub plus : Carrier → Carrier → Carrier
  pub minus : Carrier → Carrier → Carrier
  pub times : Carrier → Carrier → Carrier
  pub divide : Carrier → Carrier → Carrier
  pub larger : Carrier → Carrier → Carrier
  pub smaller : Carrier → Carrier → Carrier
  pub above : Carrier → Carrier → Bool
  pub total_below : Carrier → Carrier → Bool
  pub seconds : ℕ → Carrier
  pub duration : Carrier → Option ℕ
  pub narrow : Carrier → Carrier

-- `xs[i] = x` and `xs.remove(i)`
pub set_nth {ℓ} : {A : Type ℓ} → ℕ → A → List A → List A
set_nth i a [] = []
set_nth zero a (x ∷ xs) = a ∷ xs
set_nth (suc i) a (x ∷ xs) = x ∷ set_nth i a xs

pub remove_nth {ℓ} : {A : Type ℓ} → ℕ → List A → List A
remove_nth i [] = []
remove_nth zero (x ∷ xs) = xs
remove_nth (suc i) (x ∷ xs) = x ∷ remove_nth i xs

infixl 5 ◌>>=◌
abbrev ◌>>=◌ {ℓ κ} : {A : Type ℓ} {B : Type κ} → Option A → (A → Option B) → Option B
none >>= f = none
some a >>= f = f a

-- `Duration::MAX`
abbrev max_duration : ℕ
max_duration = 2 ^ 64 * 1000000000 - 1

abbrev stale_after : ℕ
stale_after = 5 * 1000000000

pub record Assignment : Type 0 where
  pub primary : List ℕ
  pub hedge : Option (List ℕ)

module _ (f : Double) where
  pub record PathHealth : Type 0 where
    pub name : List ℕ
    pub capacity : f.Carrier
    pub rtt : Option ℕ
    pub sent : ℕ
    pub acknowledged : ℕ
    pub lost : ℕ
    pub loss_ewma : f.Carrier
    pub last_success : ℕ
    pub disabled : Bool

  pub record Scheduler : Type 0 where
    pub paths : List PathHealth
    pub credits : List f.Carrier
    pub hedging : Bool

module _ (f : Double) where
  abbrev ewma_alpha : f.Carrier
  ewma_alpha = f.ratio 25 100

  abbrev unhealthy_loss : f.Carrier
  unhealthy_loss = f.ratio 20 100

  abbrev initial_capacity : f.Carrier
  initial_capacity = f.times (f.of_nat 256) (f.of_nat 1024)

  abbrev pub nothing : f.Carrier
  nothing = f.of_nat 0

  ewma : (previous sample : f.Carrier) → f.Carrier
  ewma previous sample =
      f.plus (f.times ewma_alpha sample) (f.times (f.minus (f.of_nat 1) ewma_alpha) previous)

  pub new_path : (name : List ℕ) (now : ℕ) → PathHealth f
  new_path name now = record {
    name = name;
    capacity = initial_capacity;
    rtt = none;
    sent = 0;
    acknowledged = 0;
    lost = 0;
    loss_ewma = nothing;
    last_success = now;
    disabled = false;
  }

  pub record_sent : PathHealth f → PathHealth f
  record_sent p = record p { sent = (p.sent + 1) % 2 ^ 64 }

  -- The new estimate of the round trip.
  smooth_rtt : (previous : Option ℕ) (rtt : ℕ) → Option ℕ
  unfolding ewma
  smooth_rtt none rtt = some rtt
  smooth_rtt (some prev) rtt = f.duration (ewma (f.seconds prev) (f.seconds rtt))

  record_delivered : PathHealth f → (bytes rtt now : ℕ) → Option (PathHealth f)
  unfolding ewma smooth_rtt
  record_delivered p bytes rtt now = smooth_rtt p.rtt rtt >>= λ smoothed. some (record p {
    acknowledged = (p.acknowledged + 1) % 2 ^ 64;
    last_success = now;
    loss_ewma = ewma p.loss_ewma nothing;
    capacity =
        ewma p.capacity (f.divide (f.of_nat bytes) (f.larger (f.seconds rtt) (f.ratio 1 1000)));
    rtt = some smoothed;
  })

  record_lost : PathHealth f → PathHealth f
  unfolding ewma
  record_lost p = record p {
    lost = (p.lost + 1) % 2 ^ 64;
    loss_ewma = ewma p.loss_ewma (f.of_nat 1);
    capacity = ewma p.capacity (f.times p.capacity (f.ratio 5 10));
  }

  disable : PathHealth f → PathHealth f
  disable p = record p { disabled = true }

  enable : PathHealth f → (now : ℕ) → PathHealth f
  enable p now = record p { disabled = false; last_success = now }

  pub is_healthy : PathHealth f → (now : ℕ) → Bool
  is_healthy p now =
      if p.disabled
      then false
      else if f.above p.loss_ewma unhealthy_loss
      then false
      else let awaiting = ltb ((p.acknowledged + p.lost) % 2 ^ 64) p.sent in
        not (awaiting && ltb stale_after (now - p.last_success))

  -- `clamp(0.0, 1.0)` of the latency.
  latency_score : (rtt : Option ℕ) → f.Carrier
  latency_score none = f.ratio 5 10
  latency_score (some rtt) =
      let open_score = f.minus (f.of_nat 1) (f.divide (f.seconds rtt) (f.ratio 5 10)) in
      f.smaller (f.larger open_score nothing) (f.of_nat 1)

  pub score : PathHealth f → (now : ℕ) → f.Carrier
  unfolding is_healthy latency_score
  score p now =
      if not (is_healthy p now)
      then nothing
      else let most = f.times (f.times (f.of_nat 4) (f.of_nat 1024)) (f.of_nat 1024) in
        let throughput = f.smaller (f.divide p.capacity most) (f.of_nat 1) in
        f.narrow (
          f.plus (f.times (f.ratio 6 10) throughput) (f.times (f.ratio 4 10) (latency_score p.rtt)))

  new_scheduler : Scheduler f
  new_scheduler = record { paths = []; credits = []; hedging = false }

  -- The position of a path.
  pub position : (name : List ℕ) → List (PathHealth f) → Option ℕ
  position name [] = none
  position name (p ∷ paths) =
      let rest = position name paths in
      if same_bytes p.name name then some 0 else elim rest [ none ↦ none | some i ↦ some (suc i) ]

  pub add_path : Scheduler f → (name : List ℕ) (now : ℕ) → Scheduler f
  unfolding position new_path
  add_path s name now = elim (position name s.paths) [
    | some i ↦ s
    | none ↦ record s {
      paths = s.paths ++ (new_path name now ∷ []);
      credits = s.credits ++ (nothing ∷ []);
    }
  ]

  pub remove_path : Scheduler f → (name : List ℕ) → Scheduler f
  unfolding position
  remove_path s name = elim (position name s.paths) [
    | none ↦ s
    | some i ↦ record s { paths = remove_nth i s.paths; credits = remove_nth i s.credits }
  ]

  set_hedging : Scheduler f → Bool → Scheduler f
  set_hedging s enabled = record s { hedging = enabled }

  health_report : List (PathHealth f) → (now : ℕ) → List (List ℕ × f.Carrier)
  health_report [] now = []
  health_report (p ∷ paths) now = (p.name, score p now) ∷ health_report paths now

  -- The positions of the healthy paths, counted from `i`.
  pub healthy_from : (i now : ℕ) → List (PathHealth f) → List ℕ
  healthy_from i now [] = []
  healthy_from i now (p ∷ paths) =
      let rest = healthy_from (suc i) now paths in if is_healthy p now then i ∷ rest else rest

  pub healthy_count : Scheduler f → (now : ℕ) → ℕ
  healthy_count s now = length (healthy_from 0 now s.paths)

  -- The sum of the capacities.
  pub total_capacity : (acc : f.Carrier) → List (PathHealth f) → List ℕ → Option f.Carrier
  total_capacity acc paths [] = some acc
  total_capacity acc paths (i ∷ healthy) =
      nth paths i >>= λ p. total_capacity (f.plus acc p.capacity) paths healthy

  -- Every healthy path gets its share.
  pub share_out :
      (total : f.Carrier)
      → List (PathHealth f)
      → (credits : List f.Carrier) → List ℕ
      → Option (List f.Carrier)
  share_out total paths credits [] = some credits
  share_out total paths credits (i ∷ healthy) = nth credits i >>= λ c. nth paths i >>= λ p.
      share_out total paths (set_nth i (f.plus c (f.divide p.capacity total)) credits) healthy

  -- `max_by`, which takes the last of equals.
  pub richest : (credits : List f.Carrier) (best : ℕ) → List ℕ → Option ℕ
  richest credits best [] = some best
  richest credits best (i ∷ healthy) = nth credits best >>= λ most.
      nth credits i >>= λ c. richest credits (if f.total_below c most then best else i) healthy

  pub rtt_or_max : PathHealth f → ℕ
  rtt_or_max p = elim p.rtt [ none ↦ max_duration | some rtt ↦ rtt ]

  -- `min_by`, which takes the first of equals.
  pub quickest : List (PathHealth f) → (best : ℕ) → List ℕ → Option ℕ
  quickest paths best [] = some best
  quickest paths best (i ∷ healthy) = nth paths best >>= λ p. nth paths i >>= λ q.
      quickest paths (if ltb (rtt_or_max q) (rtt_or_max p) then i else best) healthy

  pub except : (chosen : ℕ) → List ℕ → List ℕ
  except chosen [] = []
  except chosen (i ∷ healthy) =
      let rest = except chosen healthy in if i == chosen then rest else i ∷ rest

  -- One more chunk is sent on a path; its name comes back.
  pub send_on : List (PathHealth f) → ℕ → Option (List ℕ × List (PathHealth f))
  unfolding record_sent
  send_on paths i = nth paths i >>= λ p. some (p.name, set_nth i (record_sent p) paths)

  -- The second path, if there is another.
  pub hedge_on :
      List (PathHealth f) → (others : List ℕ) → Option (Option (List ℕ) × List (PathHealth f))
  unfolding send_on quickest rtt_or_max
  hedge_on paths [] = some (none, paths)
  hedge_on paths (i ∷ others) =
      quickest paths i others >>= λ j. send_on paths j >>= λ (name, sent). some (some name, sent)

  -- The choice among some healthy paths.
  pub assign_among :
      Scheduler f
      → (latency_critical : Bool) (first : ℕ) (others : List ℕ) → Option (Assignment × Scheduler f)
  assign_among s latency_critical first others =
      total_capacity nothing s.paths (first ∷ others) >>= λ total.
      share_out total s.paths s.credits (first ∷ others) >>= λ credits.
      richest credits first others >>= λ chosen. nth credits chosen >>= λ credit.
      send_on s.paths chosen >>= λ (primary, paths).
      (if latency_critical && s.hedging
        then hedge_on paths (except chosen (first ∷ others))
        else some (none, paths))
      >>= λ (hedge, after). some (
        record { primary = primary; hedge = hedge },
        record s { paths = after; credits = set_nth chosen (f.minus credit (f.of_nat 1)) credits },
      )

  pub assign :
      Scheduler f → (latency_critical : Bool) (now : ℕ) → Option (Option Assignment × Scheduler f)
  unfolding assign_among
  assign s latency_critical now = elim (healthy_from 0 now s.paths) [
    | [] ↦ some (none, s)
    | first ∷ others ↦
        assign_among s latency_critical first others >>= λ (a, after). some (some a, after)
  ]

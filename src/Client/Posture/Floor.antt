-- ===== src/Client/Posture/Floor.antt =====
-- The posture stays at or above the floor, an adverse signal raises it at once, and a clean period
-- lowers it by one step at most, behind both thresholds.
use kanrin.Common.{ℕ, ◌+◌, ◌%◌, ◌^◌, ◌≤◌, ◌≡◌, ◌⊎◌, refl, ◌∙◌, true, false, List, [], ◌∷◌, arith}
use kanrin.Client.Posture.{
  Posture, evasion, rank, Signal, is_adverse, PostureController, higher, with_floor, set, relaxed,
  relax, observe_clean, observe, force, time_at_posture,
}

-- What happens to a controller, with the time at which it does.
pub data Event : Type 0 where
  observed : Signal → ℕ → Event
  forced : Posture → ℕ → Event

pub step : PostureController → Event → PostureController
step c (observed signal now) = (observe c signal now).1
step c (forced target now) = (force c target now).1

pub run : PostureController → List Event → PostureController
run c [] = c
run c (e ∷ es) = run (step c e) es

abbrev pub AboveFloor : PostureController → Type 0
AboveFloor c = rank c.floor ≤ rank c.current

set-floor :
    (c : PostureController) (target : Posture) (now : ℕ)
    → AboveFloor c
    → AboveFloor (set c target now).1 × ((set c target now).1.floor ≡ c.floor)
unfolding set higher rank
set-floor c target now h = ground arith

step-floor :
    (c : PostureController) (e : Event)
    → AboveFloor c
    → AboveFloor (step c e) × ((step c e).floor ≡ c.floor)
unfolding step observe observe_clean relax relaxed set higher rank force is_adverse
step-floor c (observed signal now) h = ground arith
step-floor c (forced target now) h = set-floor (record c { clean_streak = 0 }) target now h

run_from-floor :
    (c : PostureController) (es : List Event)
    → AboveFloor c
    → AboveFloor (run c es) × ((run c es).floor ≡ c.floor)
unfolding run
run_from-floor c [] h = (h, refl)
run_from-floor c (e ∷ es) h =
    let (above, same) = step-floor c e h in
    let (end, kept) = run_from-floor (step c e) es above in (end, kept ∙ same)

-- Whatever is observed or forced, and at whatever times, a posture controller keeps its floor and
-- never goes below it.
pub run-floor :
    (initial floor : Posture) (now : ℕ) (es : List Event)
    → ((run (with_floor initial floor now) es).floor ≡ floor)
      × (rank floor ≤ rank (run (with_floor initial floor now) es).current)
unfolding with_floor higher rank
run-floor initial floor now es =
    let (above, same) = run_from-floor (with_floor initial floor now) es (ground arith) in
    (same, ground (arith, above, same))

-- For a controller at or above its floor, an adverse signal brings it to evasion at once and ends
-- the clean streak; a clean period leaves the posture as it is or lowers it by one step, the latter
-- only if the clean streak is long enough and the posture has lasted its minimum time.
pub observe_cases :
    (c : PostureController) (signal : Signal) (now : ℕ)
    → AboveFloor c
    → let c' = (observe c signal now).1 in
      ((is_adverse signal ≡ true) × (c'.current ≡ evasion) × (c'.clean_streak ≡ 0))
      ⊎ ((is_adverse signal ≡ false) × (c'.current ≡ c.current))
      ⊎ ((is_adverse signal ≡ false)
          × (rank c.current ≡ rank c'.current + 1)
          × (c'.clean_streak ≡ 0)
          × (c'.changed_at ≡ now)
          × (c.clean_periods ≤ (c.clean_streak + 1) % 2 ^ 32)
          × (c.min_time ≤ time_at_posture c now))
unfolding observe observe_clean relax relaxed set higher rank is_adverse time_at_posture
observe_cases c signal now h = ground arith

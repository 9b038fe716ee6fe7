-- ===== src/Client/Posture/Tests.antt =====
-- Runs of the posture controller.
use kanrin.Common.{◌≡◌, ◌⊎◌, ◌≤◌, ◌+◌, ◌%◌, ◌^◌, true, false, List, [], ◌∷◌, arith}
use kanrin.Client.Posture.{
  PostureController, performance, balanced, evasion, rank, with_floor, observe, is_adverse,
  suspicious_reset, clean_period, time_at_posture,
}
use kanrin.Client.Posture.Floor.{Event, observed, forced, run, run-floor, observe_cases}

abbrev calm : PostureController
calm = record {
  current = balanced;
  floor = performance;
  changed_at = 5;
  clean_streak = 4;
  adverse_total = 0;
  min_time = 100;
  clean_periods = 5;
}

abbrev events : List Event
events = observed suspicious_reset 3 ∷ forced performance 4 ∷ observed clean_period 5 ∷ []

run-floor_example :
    ((run (with_floor performance balanced 0) events).floor ≡ balanced)
    × (rank balanced ≤ rank (run (with_floor performance balanced 0) events).current)
run-floor_example = run-floor performance balanced 0 events

observe_cases_example :
    ((is_adverse clean_period ≡ true)
      × ((observe calm clean_period 200).1.current ≡ evasion)
      × ((observe calm clean_period 200).1.clean_streak ≡ 0))
    ⊎ ((is_adverse clean_period ≡ false) × ((observe calm clean_period 200).1.current ≡ balanced))
    ⊎ ((is_adverse clean_period ≡ false)
        × (rank balanced ≡ rank (observe calm clean_period 200).1.current + 1)
        × ((observe calm clean_period 200).1.clean_streak ≡ 0)
        × ((observe calm clean_period 200).1.changed_at ≡ 200)
        × (5 ≤ (calm.clean_streak + 1) % 2 ^ 32)
        × (100 ≤ time_at_posture calm 200))
unfolding rank
observe_cases_example = observe_cases calm clean_period 200 (omega arith)

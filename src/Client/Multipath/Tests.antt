-- ===== src/Client/Multipath/Tests.antt =====
-- A run of the scheduler over numbers that stand for floating-point ones.
use kanrin.Common.{
  ℕ, ◌+◌, ◌-◌, ◌*◌, ◌/◌, ◌≡◌, ◌⊎◌, refl, true, [], ◌∷◌, none, some, ltb, if◌then◌else◌,
}
use kanrin.Client.Multipath.{Double, Scheduler, Assignment, new_path, healthy_count, assign}
use kanrin.Client.Multipath.Choice.{Chosen, assign_cases}

abbrev whole_numbers : Double
whole_numbers = record {
  Carrier = ℕ;
  of_nat = λ n. n * 100;
  ratio = λ a b. a * 100 / b;
  plus = λ a b. a + b;
  minus = λ a b. a - b;
  times = λ a b. a * b / 100;
  divide = λ a b. a * 100 / b;
  larger = λ a b. if ltb a b then b else a;
  smaller = λ a b. if ltb a b then a else b;
  above = λ a b. ltb b a;
  total_below = ltb;
  seconds = λ n. n / 10000000;
  duration = λ a. some (a * 10000000);
  narrow = λ a. a;
}

abbrev two_paths : Scheduler whole_numbers
two_paths = record {
  paths = new_path whole_numbers (113 ∷ []) 0 ∷ new_path whole_numbers (119 ∷ []) 0 ∷ [];
  credits = 0 ∷ 0 ∷ [];
  hedging = true;
}

assign_cases_example :
    ((healthy_count whole_numbers two_paths 9 ≡ 0)
      × (assign whole_numbers two_paths true 9 ≡ some (none, two_paths)))
    ⊎ ((a : Assignment) × (after : Scheduler whole_numbers) × (assign whole_numbers two_paths true 9
          ≡ some (some a, after))
        × Chosen whole_numbers two_paths true 9 a after)
assign_cases_example = assign_cases whole_numbers two_paths true 9 refl

-- ===== src/Client/Posture/Hysteresis.antt =====
-- Clean periods do not relax the posture before there are enough of them, whatever the clock says.
use kanrin.Common.{ℕ, ◌+◌, ◌^◌, ◌<◌, ◌≡◌, refl, ap, true, List, [], ◌∷◌, arith, length}
use kanrin.Client.Posture.{
  Signal, clean_period, is_adverse, PostureController, observe, observe_clean, evasion, set, higher,
  rank,
}
use kanrin.Client.Posture.Floor.{AboveFloor}

-- Clean periods at the given times.
pub observe_clean_all : PostureController → List ℕ → PostureController
observe_clean_all c [] = c
observe_clean_all c (now ∷ times) = observe_clean_all (observe c clean_period now).1 times

pub few_clean_periods :
    (c : PostureController) (times : List ℕ)
    → c.clean_periods < 2 ^ 32
    → c.clean_streak + length times < c.clean_periods
    → ((observe_clean_all c times).current ≡ c.current)
      × ((observe_clean_all c times).clean_streak ≡ c.clean_streak + length times)
unfolding observe_clean_all observe observe_clean is_adverse
few_clean_periods c [] small few = (refl, omega arith)
few_clean_periods c (now ∷ times) small few =
    let counted = (observe c clean_period now).1 in
    let one : counted ≡ record c { clean_streak = c.clean_streak + 1 } = ground arith in
    let (same, streak) =
      few_clean_periods (record c { clean_streak = c.clean_streak + 1 }) times small
        (omega arith) in
    let rest : observe_clean_all c (now ∷ times)
        ≡ observe_clean_all (record c { clean_streak = c.clean_streak + 1 }) times =
      ap (λ d. observe_clean_all d times) one in
    rw rest (same, omega (arith, streak))

pub stays_in_evasion :
    (c : PostureController) (signal : Signal) (now : ℕ) (times : List ℕ)
    → c.clean_periods < 2 ^ 32
    → AboveFloor c
    → is_adverse signal ≡ true
    → length times < c.clean_periods
    → (observe_clean_all (observe c signal now).1 times).current ≡ evasion
unfolding observe higher set rank
stays_in_evasion c signal now times small above adverse few =
    let worse = (observe c signal now).1 in
    let fact : (worse.current ≡ evasion)
        × (worse.clean_streak ≡ 0)
        × (worse.clean_periods ≡ c.clean_periods) =
      ground arith in
    ground (
      arith,
      fact,
      few_clean_periods worse times (omega (arith, fact.2)) (omega (arith, fact.1, fact.2)),
    )

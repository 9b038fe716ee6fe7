-- ===== src/Server/FrontDoor/Timing.antt =====
-- No response leaves before the floor, whatever work came before it.
use kanrin.Common.{ℕ, ◌+◌, ◌≡◌, ◌≤◌, ◌<◌, arith}
use kanrin.Server.FrontDoor.{response_floor, response_jitter, with_floor, start, remaining}

-- However much time the work on a request takes and whatever jitter is drawn, the response leaves
-- no earlier than the floor after the request came; what is still owed is less than the floor and
-- the jitter together, and nothing once these have passed.
pub remaining-start :
    (random began work : ℕ)
    → (began + response_floor ≤ began + work + remaining (start random began) (began + work))
      × (remaining (start random began) (began + work) < response_floor + response_jitter)
      × (response_floor + response_jitter ≤ work
          → remaining (start random began) (began + work) ≡ 0)
unfolding start remaining with_floor
remaining-start random began work = ground arith

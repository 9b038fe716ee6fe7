-- ===== src/Client/Switch/Tests.antt =====
-- Runs of the replay and of the timing rules.
use kanrin.Common.{
  ℕ, ◌≡◌, ◌*◌, refl, inl, List, [], ◌∷◌, ◌++◌, Option, some, min, ltb, if◌then◌else◌, arith,
}
use kanrin.Protocol.Continuity.SendBuffer.{SendBuffer, total}
use kanrin.Protocol.Continuity.SendBuffer.Bytes.{IsValid}
use kanrin.Protocol.Continuity.Replay as Cursor
use kanrin.Client.Switch.{
  SwitchPolicy, SwitchReason, better_path_available, is_flapping, cooldown, record_switch,
  replay_loop,
}
use kanrin.Client.Switch.Replaying.{send_all, replay_loop_complete}
use kanrin.Client.Switch.Cooldown.{cooldown-record_switch}

-- A connection that keeps what it was sent.
abbrev keep : List (List ℕ) → List ℕ → Option (List (List ℕ))
keep sent bytes = some (sent ++ (bytes ∷ []))

abbrev retained : SendBuffer
retained = record {
  chunks = (3, 50 ∷ []) ∷ (7, 60 ∷ 61 ∷ []) ∷ [];
  buffered_bytes = 3;
  max_bytes = 100;
}

retained-IsValid : IsValid retained
unfolding total
retained-IsValid = record {
  sorted = ground arith;
  wide = ground arith;
  accounted = refl;
  bounded = inl (omega arith);
}

replay_loop_complete_example :
    replay_loop keep 3 Cursor.new [] retained ≡ send_all keep 0 [] retained.chunks
replay_loop_complete_example = replay_loop_complete keep [] retained retained-IsValid

abbrev policy : SwitchPolicy
policy = record { last_switch = some 100; consecutive = 1; base = 5; ceiling = 120; window = 60 }

cooldown-record_switch_example : cooldown (record_switch policy 130) ≡ (
    if is_flapping policy 130
    then (if ltb 1 16 then min (2 * cooldown policy) 120 else cooldown policy)
    else min 5 120)
cooldown-record_switch_example = cooldown-record_switch policy 130 (omega arith) (omega arith)

abbrev reason : SwitchReason
reason = better_path_available []

-- ===== src/Client/Switch/Replaying.antt =====
-- A replay sends what the send buffer holds, each entry once and in order.
use kanrin.Common.{
  ℕ, zero, suc, ◌+◌, ◌<◌, ◌≡◌, refl, ap, inl, inr, List, [], ◌∷◌, Option, none, some, Option-cases,
  arith, length,
}
use kanrin.Common.SortedMap.{Map}
use kanrin.Protocol.Continuity.SendBuffer.{SendBuffer}
use kanrin.Protocol.Continuity.SendBuffer.Bytes.{IsValid}
use kanrin.Protocol.Continuity.Replay as Cursor
use kanrin.Protocol.Continuity.Replay.{Replay, next_chunk, confirm_sent}
use kanrin.Protocol.Continuity.Replay.Order.{
  remaining, remaining-new, next_chunk-none, next_chunk-some,
}
use kanrin.Client.Switch.{Replayed, done, failed, replay_loop}

module _ {C : Type 0} (send : C → List ℕ → Option C) where
  -- Every entry of a map sent in turn, up to the first failure, with a count.
  pub send_all : (count : ℕ) → C → Map (List ℕ) → Replayed C
  send_all count connection [] = done count connection
  send_all count connection ((k, bytes) ∷ m) = elim (send connection bytes) [
    | none ↦ failed
    | some connection' ↦ send_all (count + 1) connection' m
  ]

  replay_loop-send_all :
      (fuel : ℕ) (replay : Replay) (connection : C) (buffer : SendBuffer)
      → IsValid buffer
      → length (remaining replay buffer) < fuel
      → replay_loop send fuel replay connection buffer
        ≡ send_all replay.replayed connection (remaining replay buffer)
  unfolding replay_loop send_all confirm_sent
  replay_loop-send_all zero replay connection buffer h enough = absurd (omega arith)
  replay_loop-send_all (suc fuel) replay connection buffer h enough =
      elim (Option-cases (next_chunk replay buffer)) [
        | inl last ↦ rw (replay_loop, last, next_chunk-none replay buffer last) refl
        | inr ((sequence, bytes), step) ↦
            let rest = next_chunk-some replay buffer sequence bytes h step in
            rw (replay_loop, step, rest)
              (elim (Option-cases (send connection bytes)) [
                | inl broken ↦ rw (send_all, broken) refl
                | inr (connection', sent) ↦
                    rw (send_all, sent)
                      (replay_loop-send_all fuel (confirm_sent replay sequence) connection' buffer h
                        (omega (arith, ap length rest)))
              ])
      ]

  -- Over any connection the replay of a valid send buffer ends within one round for each retained
  -- chunk and one more, and does what sending the retained chunks in order does: it stops at the
  -- first failure, or returns their number.
  pub replay_loop_complete :
      (connection : C) (buffer : SendBuffer)
      → IsValid buffer
      → replay_loop send (suc (length buffer.chunks)) Cursor.new connection buffer
        ≡ send_all 0 connection buffer.chunks
  unfolding Cursor.new
  replay_loop_complete connection buffer h = rw (remaining-new buffer) at (
      replay_loop-send_all (suc (length buffer.chunks)) Cursor.new connection buffer h
        (rw (remaining-new buffer) (omega arith)))

-- ===== src/Protocol/Continuity/Replay.antt =====
-- `Replay` of crates/kanrin-protocol/src/continuity.rs: a cursor over the send buffer.
pub mod Order
use kanrin.Common.{ℕ, ◌+◌, Bool, true, false, List, Option, none, some}
use kanrin.Common.SortedMap.{first_from}
use kanrin.Common.Word.{checked_add}
use kanrin.Protocol.Continuity.SendBuffer.{SendBuffer}

pub record Replay : Type 0 where
  pub next : Option ℕ
  pub replayed : ℕ

unfoldable pub new : Replay
new = record { next = some 0; replayed = 0 }

pub next_chunk : Replay → SendBuffer → Option (ℕ × List ℕ)
next_chunk r buffer = elim r.next [ none ↦ none | some from ↦ first_from from buffer.chunks ]

unfoldable pub confirm_sent : Replay → (sequence : ℕ) → Replay
confirm_sent r sequence = record { next = checked_add sequence 1; replayed = r.replayed + 1 }

is_complete : Replay → SendBuffer → Bool
unfolding next_chunk
is_complete r buffer = elim (next_chunk r buffer) [ none ↦ true | some entry ↦ false ]

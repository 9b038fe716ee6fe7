-- ===== src/Tun/Nat/Tests.antt =====
-- Runs of the table of connections.
use kanrin.Common.{ℕ, ◌≡◌, refl, true, List, [], ◌∷◌, some}
use kanrin.Common.Table.{same_bytes}
use kanrin.Common.Assoc.{get, insert}
use kanrin.Tun.Nat.{
  NatEntry, established, new_table, same_key, fresh_entry, or_insert, modify, count_bytes,
  tcp_outgoing, tcp_incoming, tcp_activity, tcp_set_state, cleanup,
}
use kanrin.Tun.Nat.Table.{
  Operation, outgoing_tcp, activity, set_state, step, run, CleanedUp, tcp_incoming-run,
}

abbrev here : List ℕ
here = 10 ∷ 0 ∷ 0 ∷ 2 ∷ 200 ∷ []

abbrev there : List ℕ
there = 1 ∷ 1 ∷ 1 ∷ 1 ∷ 53 ∷ []

abbrev operations : List Operation
operations =
    outgoing_tcp here there 1
    ∷ activity here there 99 true 7
    ∷ set_state here there established
    ∷ []

abbrev tracked : NatEntry
tracked = record {
  local_addr = here;
  remote_addr = there;
  created_at = 1;
  last_seen = 7;
  bytes_tx = 99;
  bytes_rx = 0;
  state = established;
}

tracks : tcp_incoming (run (new_table 60 30) operations) there here ≡ some tracked
unfolding tcp_incoming run step new_table tcp_outgoing tcp_activity tcp_set_state same_key
    same_bytes fresh_entry or_insert modify count_bytes get insert
tracks = refl

tcp_incoming-run_example :
    (tracked.local_addr ≡ here)
    × (tracked.remote_addr ≡ there)
    × CleanedUp 60 40 tracked
        (tcp_incoming (cleanup (run (new_table 60 30) operations) 40) there here)
tcp_incoming-run_example = tcp_incoming-run 60 30 operations 40 there here tracked tracks

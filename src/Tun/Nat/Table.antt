-- ===== src/Tun/Nat/Table.antt =====
-- An entry stands under its own addresses, once, whatever has happened to the table; a connection is
-- found again until a clean-up that drops it.
use kanrin.Common.{
  ℕ, ◌-◌, ◌≤◌, ◌<◌, ◌≡◌, ◌≢◌, ◌⊎◌, ◌∙◌, refl, List, [], ◌∷◌, Option, none, some, Option-cases,
  Bool-cases, Bool, true, false, ltb, inl, inr, arith, All,
}
use kanrin.Common.Table.{same_bytes_refl, same_bytes_sound}
use kanrin.Common.Assoc.{
  Assoc, IsEquality, get, insert-All, get-All, get-insert_same, retain_entries, retain_entries-All,
}
use kanrin.Common.Assoc.Once.{Once, insert-Once, retain-Once, get-retain, kept}
use kanrin.Tun.Nat.{
  NatKey, NatEntry, NatTable, ConnectionState, syn_sent, established, closing, closed, is_closed,
  udp_flow, same_key, new_table, fresh_entry, or_insert, modify, count_bytes, tcp_outgoing,
  udp_outgoing, tcp_incoming, tcp_activity, tcp_set_state, keeps_tcp, keeps_udp, cleanup,
}

same_key-IsEquality : IsEquality same_key
unfolding same_key
same_key-IsEquality a b = ground (
  arith,
  same_bytes_sound a.local b.local,
  same_bytes_sound a.remote b.remote,
  same_bytes_refl a.local,
  same_bytes_refl a.remote,
)

-- The operations of the table.
pub data Operation : Type 0 where
  outgoing_tcp outgoing_udp : (local remote : List ℕ) (now : ℕ) → Operation
  activity : (local remote : List ℕ) (bytes : ℕ) (is_tx : Bool) (now : ℕ) → Operation
  set_state : (local remote : List ℕ) → ConnectionState → Operation
  clean : (now : ℕ) → Operation

unfoldable pub step : NatTable → Operation → NatTable
step t (outgoing_tcp local remote now) = (tcp_outgoing t local remote now).1
step t (outgoing_udp local remote now) = (udp_outgoing t local remote now).1
step t (activity local remote bytes is_tx now) = tcp_activity t local remote bytes is_tx now
step t (set_state local remote state) = tcp_set_state t local remote state
step t (clean now) = cleanup t now

unfoldable pub run : NatTable → List Operation → NatTable
run t [] = t
run t (op ∷ ops) = run (step t op) ops

abbrev Owned : NatKey × NatEntry → Type 0
Owned (key, entry) = (entry.local_addr ≡ key.local) × (entry.remote_addr ≡ key.remote)

-- Every entry stands under its own addresses, and every key once.
IsOwned : Assoc NatKey NatEntry → Type 0
IsOwned entries = All Owned entries × Once same_key entries

or_insert-IsOwned :
    (key : NatKey) (state : ConnectionState) (now : ℕ) (entries : Assoc NatKey NatEntry)
    → IsOwned entries
    → IsOwned (or_insert key (fresh_entry key state now) entries).1
unfolding or_insert fresh_entry IsOwned
or_insert-IsOwned key state now entries (h, once) = elim (Option-cases (get same_key key entries)) [
  | inl fresh ↦
      rw (or_insert, fresh)
        (
          insert-All same_key same_key-IsEquality Owned key _ entries
              (λ j e. (rw e refl, rw e refl)) h,
          insert-Once same_key same_key-IsEquality key _ entries once,
        )
  | inr (entry, held) ↦ rw (or_insert, held) (h, once)
]

modify-IsOwned :
    (key : NatKey) (change : NatEntry → NatEntry) (entries : Assoc NatKey NatEntry)
    → ((e : NatEntry)
        → ((change e).local_addr ≡ e.local_addr) × ((change e).remote_addr ≡ e.remote_addr))
    → IsOwned entries
    → IsOwned (modify key change entries)
unfolding modify IsOwned
modify-IsOwned key change entries same (h, once) = elim (Option-cases (get same_key key entries)) [
  | inl absent ↦ rw (modify, absent) (h, once)
  | inr (entry, held) ↦
      let (l, r) = get-All same_key same_key-IsEquality Owned key entries h held in
      let (sl, sr) = same entry in
      rw (modify, held)
        (
          insert-All same_key same_key-IsEquality Owned key (change entry) entries
              (λ j e. (rw e (sl ∙ l), rw e (sr ∙ r))) h,
          insert-Once same_key same_key-IsEquality key (change entry) entries once,
        )
]

retain-IsOwned :
    (keep : NatEntry → Bool) (entries : Assoc NatKey NatEntry)
    → IsOwned entries
    → IsOwned (retain_entries keep entries)
unfolding IsOwned
retain-IsOwned keep entries (h, once) = (
  retain_entries-All Owned keep entries h,
  retain-Once same_key same_key-IsEquality keep entries once,
)

record IsTable (t : NatTable) : Type 0 where
  tcp : IsOwned t.tcp_entries
  udp : IsOwned t.udp_entries

step-IsTable : (t : NatTable) (op : Operation) → IsTable t → IsTable (step t op)
unfolding step tcp_outgoing udp_outgoing tcp_activity tcp_set_state cleanup count_bytes
step-IsTable t (outgoing_tcp local remote now) v = record {
  tcp = or_insert-IsOwned _ syn_sent now t.tcp_entries v.tcp;
  udp = v.udp;
}
step-IsTable t (outgoing_udp local remote now) v = record {
  tcp = v.tcp;
  udp = or_insert-IsOwned _ udp_flow now t.udp_entries v.udp;
}
step-IsTable t (activity local remote bytes is_tx now) v = record {
  tcp = modify-IsOwned _ (count_bytes bytes is_tx now) t.tcp_entries (λ e. ground arith) v.tcp;
  udp = v.udp;
}
step-IsTable t (set_state local remote state) v = record {
  tcp = modify-IsOwned _ _ t.tcp_entries (λ e. (refl, refl)) v.tcp;
  udp = v.udp;
}
step-IsTable t (clean now) v = record {
  tcp = retain-IsOwned (keeps_tcp t now) t.tcp_entries v.tcp;
  udp = retain-IsOwned (keeps_udp t now) t.udp_entries v.udp;
}

run-IsTable : (t : NatTable) (ops : List Operation) → IsTable t → IsTable (run t ops)
unfolding run
run-IsTable t [] v = v
run-IsTable t (op ∷ ops) v = run-IsTable (step t op) ops (step-IsTable t op v)

new_table-IsTable : (tcp_timeout udp_timeout : ℕ) → IsTable (new_table tcp_timeout udp_timeout)
unfolding new_table IsOwned
new_table-IsTable tcp_timeout udp_timeout = record { tcp = (tt, tt); udp = (tt, tt) }

run_new-IsTable :
    (tcp_timeout udp_timeout : ℕ) (ops : List Operation)
    → IsTable (run (new_table tcp_timeout udp_timeout) ops)
run_new-IsTable tcp_timeout udp_timeout ops =
    run-IsTable (new_table tcp_timeout udp_timeout) ops (new_table-IsTable tcp_timeout udp_timeout)

run-tcp_timeout : (t : NatTable) (ops : List Operation) → (run t ops).tcp_timeout ≡ t.tcp_timeout
unfolding run step tcp_outgoing udp_outgoing tcp_activity tcp_set_state cleanup
run-tcp_timeout t [] = refl
run-tcp_timeout t (op ∷ ops) = run-tcp_timeout (step t op) ops ∙ step-tcp_timeout op
  where
    step-tcp_timeout : (op : Operation) → (step t op).tcp_timeout ≡ t.tcp_timeout
    step-tcp_timeout (outgoing_tcp local remote now) = refl
    step-tcp_timeout (outgoing_udp local remote now) = refl
    step-tcp_timeout (activity local remote bytes is_tx now) = refl
    step-tcp_timeout (set_state local remote state) = refl
    step-tcp_timeout (clean now) = refl

-- What a clean-up does to an entry, by its state and its age.
abbrev pub CleanedUp : (timeout now : ℕ) → NatEntry → (after : Option NatEntry) → Type 0
CleanedUp timeout now entry after =
    ((entry.state ≢ closed) × (now - entry.last_seen < timeout) × (after ≡ some entry))
    ⊎ ((entry.state ≡ closed) × (after ≡ none))
    ⊎ ((timeout ≤ now - entry.last_seen) × (after ≡ none))

closed_cases :
    (state : ConnectionState)
    → ((is_closed state ≡ true) × (state ≡ closed)) ⊎ ((is_closed state ≡ false) × (state ≢ closed))
unfolding is_closed
closed_cases closed = inl (refl, refl)
closed_cases syn_sent = inr (refl, λ e. cc)
closed_cases established = inr (refl, λ e. cc)
closed_cases closing = inr (refl, λ e. cc)
closed_cases udp_flow = inr (refl, λ e. cc)

kept-CleanedUp :
    (t : NatTable) (timeout now : ℕ) (entry : NatEntry)
    → t.tcp_timeout ≡ timeout
    → CleanedUp timeout now entry (kept (keeps_tcp t now) (some entry))
unfolding keeps_tcp
kept-CleanedUp t timeout now entry same = elim (closed_cases entry.state) [
  | inl (is, e) ↦ rw is (inr (inl (e, refl)))
  | inr (is, differ) ↦ elim (Bool-cases (ltb (now - entry.last_seen) t.tcp_timeout)) [
    | inl soon ↦ rw (is, soon) (inl (differ, ground (arith, soon, same), refl))
    | inr late ↦ rw (is, late) (inr (inr (ground (arith, late, same), refl)))
  ]
]

-- Whatever has happened to a new table of connections, an entry that a packet finds has the
-- addresses that it was looked up under, and a clean-up keeps it if it is not closed and was seen
-- within the timeout, and drops it if it is closed or was not.
pub tcp_incoming-run :
    (tcp_timeout udp_timeout : ℕ) (ops : List Operation) (now : ℕ) (remote local : List ℕ)
    (entry : NatEntry)
    → tcp_incoming (run (new_table tcp_timeout udp_timeout) ops) remote local ≡ some entry
    → (entry.local_addr ≡ local)
      × (entry.remote_addr ≡ remote)
      × CleanedUp tcp_timeout now entry
          (tcp_incoming (cleanup (run (new_table tcp_timeout udp_timeout) ops) now) remote local)
unfolding tcp_incoming cleanup IsOwned new_table
tcp_incoming-run tcp_timeout udp_timeout ops now remote local entry e =
    let t = run (new_table tcp_timeout udp_timeout) ops in
    let (owned, once) = (run_new-IsTable tcp_timeout udp_timeout ops).tcp in
    let (here, there) = get-All same_key same_key-IsEquality Owned _ t.tcp_entries owned e in
    let key : NatKey = record { local = local; remote = remote } in
    let left = get-retain same_key same_key-IsEquality (keeps_tcp t now) key t.tcp_entries once in
    (
      here,
      there,
      rw (left, e)
          (kept-CleanedUp t tcp_timeout now entry
            (run-tcp_timeout (new_table tcp_timeout udp_timeout) ops)),
    )

-- A connection that goes out is found by what comes back.
pub tcp_incoming-tcp_outgoing :
    (t : NatTable) (local remote : List ℕ) (now : ℕ)
    → tcp_incoming (tcp_outgoing t local remote now).1 remote local
      ≡ some (tcp_outgoing t local remote now).0
unfolding tcp_incoming tcp_outgoing or_insert
tcp_incoming-tcp_outgoing t local remote now =
    let key : NatKey = record { local = local; remote = remote } in
    elim (Option-cases (get same_key key t.tcp_entries)) [
      | inl fresh ↦
          rw (or_insert, fresh) (get-insert_same same_key same_key-IsEquality key _ t.tcp_entries)
      | inr (entry, held) ↦ rw (or_insert, held) held
    ]

-- ===== src/Server/Registry/Reaping.antt =====
-- What reaping takes: exactly the sessions that no connection claims and that have lingered.
use kanrin.Common.{
  ℕ, suc, ◌+◌, ◌-◌, ◌≡◌, ◌≤◌, ◌<◌, ◌⊎◌, refl, Bool, true, false, not, ◌==◌, ltb, if◌then◌else◌,
  List, [], ◌∷◌, Option, none, some, arith, All, Bool-cases, inl, inr,
}
use kanrin.Common.Table.{same_bytes}
use kanrin.Common.Assoc.{get, insert, get-insert_same, retain_entries}
use kanrin.Common.Assoc.Once.{Once, insert-Once, get-retain, kept}
use kanrin.Tun.FakeIp.Pool.{same_bytes-IsEquality}
use kanrin.Protocol.Crypto.{SessionKeys}
use kanrin.Server.Registry.{
  SessionEntry, SessionRegistry, session_linger, is_attached, any_running, idle_for, expired,
  reclaimed, reap_expired, find_entry, attach, touch, register, new_entry,
}

-- How often an address is in a list, and how many sessions have it.
pub times_listed : (ip : ℕ) → List ℕ → ℕ
times_listed ip [] = 0
times_listed ip (a ∷ addresses) =
    let rest = times_listed ip addresses in if a == ip then suc rest else rest

pub times_assigned : (ip : ℕ) → SessionRegistry → ℕ
times_assigned ip [] = 0
times_assigned ip ((id, e) ∷ r) =
    let rest = times_assigned ip r in if e.assigned_ip == ip then suc rest else rest

times_assigned-reclaimed :
    (is_finished : ℕ → Bool) (now ip : ℕ) (r : SessionRegistry)
    → times_listed ip (reclaimed is_finished now r)
        + times_assigned ip (retain_entries (λ e. not (expired is_finished now e)) r)
      ≡ times_assigned ip r
unfolding reclaimed retain_entries times_listed times_assigned
times_assigned-reclaimed is_finished now ip [] = refl
times_assigned-reclaimed is_finished now ip ((id, e) ∷ r) =
    elim (Bool-cases (expired is_finished now e)) [
      | inl gone ↦ rw gone (ground (arith, times_assigned-reclaimed is_finished now ip r))
      | inr stays ↦ rw stays (ground (arith, times_assigned-reclaimed is_finished now ip r))
    ]

-- Some task is not finished.
abbrev pub Runs : (is_finished : ℕ → Bool) → List ℕ → Type 0
Runs is_finished [] = ⊥
Runs is_finished (task ∷ tasks) = (is_finished task ≡ false) ⊎ Runs is_finished tasks

any_running-cases :
    (is_finished : ℕ → Bool) (tasks : List ℕ)
    → (Runs is_finished tasks × (any_running is_finished tasks ≡ true))
      ⊎ (All (λ task. is_finished task ≡ true) tasks × (any_running is_finished tasks ≡ false))
unfolding any_running
any_running-cases is_finished [] = inr (tt, refl)
any_running-cases is_finished (task ∷ tasks) = elim (Bool-cases (is_finished task)) [
  | inr running ↦ inl (inl running, rw running refl)
  | inl finished ↦ elim (any_running-cases is_finished tasks) [
    | inl (runs, e) ↦ inl (inr runs, rw (finished, e) refl)
    | inr (all, e) ↦ inr ((finished, all), rw (finished, e) refl)
  ]
]

-- What reaping does to the session that an identifier found before: it stays if a task of it runs,
-- or if it was seen within the linger time, and goes if neither holds.
pub Reaped : (is_finished : ℕ → Bool) (now : ℕ) → (before after : Option SessionEntry) → Type 0
Reaped is_finished now none after = after ≡ none
Reaped is_finished now (some e) after =
    (Runs is_finished e.attached × (after ≡ some e))
    ⊎ ((now ≤ e.last_seen + session_linger) × (after ≡ some e))
    ⊎ (All (λ task. is_finished task ≡ true) e.attached
        × (e.last_seen + session_linger < now)
        × (after ≡ none))

kept-Reaped :
    (is_finished : ℕ → Bool) (now : ℕ) (before : Option SessionEntry)
    → Reaped is_finished now before (kept (λ e. not (expired is_finished now e)) before)
unfolding Reaped expired is_attached idle_for
kept-Reaped is_finished now none = refl
kept-Reaped is_finished now (some e) = elim (any_running-cases is_finished e.attached) [
  | inl (runs, is) ↦ inl (runs, rw is refl)
  | inr (all, is) ↦ elim (Bool-cases (ltb session_linger (now - e.last_seen))) [
    | inl late ↦ rw (is, late) (inr (inr (all, ground (arith, late), refl)))
    | inr soon ↦ rw (is, soon) (inr (inl (ground (arith, soon), refl)))
  ]
]

-- In a registry that holds each session once, reaping gives back each address as often as sessions
-- with it go; a session goes if all its tasks are finished and it was last seen longer ago than the
-- linger time, and is found as before otherwise.
pub reap_expired-balance :
    (is_finished : ℕ → Bool) (r : SessionRegistry) (id : List ℕ) (ip now : ℕ)
    → Once same_bytes r
    → let (addresses, r') = reap_expired is_finished r now in
      (times_listed ip addresses + times_assigned ip r' ≡ times_assigned ip r)
      × Reaped is_finished now (find_entry r id) (find_entry r' id)
unfolding reap_expired find_entry
reap_expired-balance is_finished r id ip now once = (
  times_assigned-reclaimed is_finished now ip r,
  rw (get-retain same_bytes same_bytes-IsEquality (λ e. not (expired is_finished now e)) id r once)
      (kept-Reaped is_finished now (get same_bytes id r)),
)

-- A session that a connection attached lately, or whose connection lives, is not reaped.
pub attach-survives :
    (is_finished : ℕ → Bool) (r : SessionRegistry) (id : List ℕ) (e : SessionEntry) (tasks : List ℕ)
    (attached_at now : ℕ)
    → Once same_bytes r
    → now ≤ attached_at + session_linger
    → let attached = (attach e tasks attached_at).0 in
      find_entry (reap_expired is_finished (insert same_bytes id attached r) now).1 id
      ≡ some attached
unfolding reap_expired find_entry attach touch expired idle_for
attach-survives is_finished r id e tasks attached_at now once soon =
    let entry = (attach e tasks attached_at).0 in
    let r' = insert same_bytes id entry r in
    let stays : expired is_finished now entry ≡ false = ground arith in
    ground (
      arith,
      stays,
      get-retain same_bytes same_bytes-IsEquality (λ e. not (expired is_finished now e)) id r'
          (insert-Once same_bytes same_bytes-IsEquality id entry r once),
      get-insert_same same_bytes same_bytes-IsEquality id entry r,
    )

-- A session that lingers without a connection for more than its time goes, and its address is given
-- back.
pub reap_expired-frees :
    (is_finished : ℕ → Bool) (r : SessionRegistry) (id : List ℕ) (keys : SessionKeys)
    (assigned_ip registered now : ℕ)
    → Once same_bytes r
    → registered + session_linger < now
    → let (e, r') = register r id keys assigned_ip registered in
      find_entry (reap_expired is_finished r' now).1 id ≡ none
unfolding reap_expired find_entry register new_entry expired idle_for is_attached any_running
reap_expired-frees is_finished r id keys assigned_ip registered now once late =
    let e = new_entry id keys assigned_ip registered in
    ground (
      arith,
      get-retain same_bytes same_bytes-IsEquality (λ e. not (expired is_finished now e)) id
          (insert same_bytes id e r) (insert-Once same_bytes same_bytes-IsEquality id e r once),
      get-insert_same same_bytes same_bytes-IsEquality id e r,
    )

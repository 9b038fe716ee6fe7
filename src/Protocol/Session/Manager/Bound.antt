-- ===== src/Protocol/Session/Manager/Bound.antt =====
-- The bound on the number of sessions.
use kanrin.Common.{
  ℕ, ◌≡◌, ◌≤◌, ◌<◌, ◌⊎◌, inl, inr, refl, List, some, leb, arith, length, Bool-cases,
}
use kanrin.Common.Table.{retain, put, length-put, lookup-put_same, length-retain}
use kanrin.Protocol.Error.{ok, err, session, max_sessions_reached}
use kanrin.Protocol.Crypto.{SessionKeys}
use kanrin.Protocol.Session as Sessions
use kanrin.Protocol.Session.{Session}
use kanrin.Protocol.Session.Manager.{
  SessionManager, register, create_session, cleanup_idle, is_live, get_session, total_count,
}

-- For a manager within its maximum, create_session is refused if the sessions that are neither idle
-- nor closed fill the manager, and then the others are gone; otherwise the new session can be
-- looked up under its id and the manager is still within its maximum.
pub create_session_cases :
    (m : SessionManager) (keys : SessionKeys) (id : List ℕ) (now : ℕ)
    → total_count m ≤ m.max_sessions
    → ((m.max_sessions ≤ length (retain (is_live m.idle_timeout now) m.sessions))
        × (create_session m keys id now ≡ (err (session max_sessions_reached), cleanup_idle m now)))
      ⊎ ((length (retain (is_live m.idle_timeout now) m.sessions) < m.max_sessions)
          × (m' : SessionManager) × (create_session m keys id now ≡ (ok id, m'))
          × (get_session m' id ≡ some (Sessions.new id keys now))
          × (total_count m' ≤ m.max_sessions))
unfolding create_session register cleanup_idle total_count get_session
create_session_cases m keys id now h =
    let live = retain (is_live m.idle_timeout now) m.sessions in
    let fresh = Sessions.new id keys now in
    let fewer = length-retain (is_live m.idle_timeout now) m.sessions in
    elim (Bool-cases (leb m.max_sessions (length m.sessions))) [
      | inl full ↦ elim (Bool-cases (leb m.max_sessions (length live))) [
        | inl crowded ↦ inl (ground arith, rw (full, crowded) refl)
        | inr room ↦ inr (
          ground arith,
          record m { sessions = put id fresh live },
          rw (full, room) refl,
          lookup-put_same id fresh live,
          ground (arith, length-put id fresh live),
        )
      ]
      | inr room ↦ inr (
        ground (arith, fewer),
        record m { sessions = put id fresh m.sessions },
        rw room refl,
        lookup-put_same id fresh m.sessions,
        ground (arith, length-put id fresh m.sessions),
      )
    ]

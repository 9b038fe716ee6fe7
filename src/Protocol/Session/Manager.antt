-- ===== src/Protocol/Session/Manager.antt =====
-- `SessionManager` of crates/kanrin-protocol/src/session.rs. The `HashMap` is a `Table`.
pub mod Bound
use kanrin.Common.{
  ℕ, Bool, true, false, ◌&&◌, not, List, [], ◌∷◌, Option, leb, if◌then◌else◌, length, zero, suc,
}
use kanrin.Common.Table.{Table, lookup, put, delete, retain}
use kanrin.Protocol.Error.{Result, ok, err, session, max_sessions_reached}
use kanrin.Protocol.Crypto.{SessionKeys}
use kanrin.Protocol.Session as Sessions
use kanrin.Protocol.Session.{Session, SessionState, is_idle}

pub record SessionManager : Type 0 where
  pub sessions : Table Session
  pub max_sessions : ℕ
  pub idle_timeout : ℕ

pub new : (max_sessions idle_timeout : ℕ) → SessionManager
new max_sessions idle_timeout = record {
  sessions = [];
  max_sessions = max_sessions;
  idle_timeout = idle_timeout;
}

is_closed : SessionState → Bool
is_closed SessionState.closed = true
is_closed s = false

is_active : SessionState → Bool
is_active SessionState.active = true
is_active s = false

-- What `cleanup_idle` retains.
pub is_live : (timeout now : ℕ) → Session → Bool
unfolding is_closed
is_live timeout now s = not (is_idle s timeout now) && not (is_closed s.state)

pub cleanup_idle : SessionManager → (now : ℕ) → SessionManager
cleanup_idle m now = record m { sessions = retain (is_live m.idle_timeout now) m.sessions }

-- The end of `create_session`: a session under the drawn id.
register : SessionManager → SessionKeys → (id : List ℕ) (now : ℕ) → Result (List ℕ) × SessionManager
register m keys id now =
    (ok id, record m { sessions = put id (Sessions.new id keys now) m.sessions })

-- The manager comes back where the call fails too: the cleanup stays.
pub create_session :
    SessionManager → SessionKeys → (id : List ℕ) (now : ℕ) → Result (List ℕ) × SessionManager
unfolding register
create_session m keys id now =
    let cleaned = cleanup_idle m now in
    if leb m.max_sessions (length m.sessions)
    then if leb m.max_sessions (length cleaned.sessions)
      then (err (session max_sessions_reached), cleaned)
      else register cleaned keys id now
    else register m keys id now

pub get_session : SessionManager → (id : List ℕ) → Option Session
get_session m id = lookup id m.sessions

remove_session : SessionManager → (id : List ℕ) → Option Session × SessionManager
remove_session m id = (lookup id m.sessions, record m { sessions = delete id m.sessions })

count_active : List (List ℕ × Session) → ℕ
unfolding is_active
count_active [] = 0
count_active ((id, s) ∷ rest) =
    let others = count_active rest in if is_active s.state then suc others else others

active_count : SessionManager → ℕ
unfolding count_active
active_count m = count_active m.sessions

unfoldable pub total_count : SessionManager → ℕ
total_count m = length m.sessions

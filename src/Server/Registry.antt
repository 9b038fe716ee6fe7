-- ===== src/Server/Registry.antt =====
-- crates/kanrin-server/src/registry.rs: sessions that outlive their connections. An `Instant` is a
-- number of nanoseconds, `now` is what the clock gives, and a task is the handle that aborts it.
pub mod Reaping
mod Tests
use kanrin.Common.{
  ℕ, ◌-◌, ◌*◌, Bool, true, false, ◌&&◌, ◌||◌, not, List, [], ◌∷◌, ◌++◌, Option, ltb, ◌==◌,
  if◌then◌else◌, length,
}
use kanrin.Common.Table.{same_bytes}
use kanrin.Common.Assoc.{Assoc, get, insert, remove, retain_entries}
use kanrin.Protocol.Crypto.{SessionKeys}
use kanrin.Protocol.Session.{Session, new}
use kanrin.Protocol.Continuity.SendBuffer as Sending
use kanrin.Protocol.Continuity.SendBuffer.{SendBuffer}
use kanrin.Protocol.Continuity.ReceiveBuffer as Receiving
use kanrin.Protocol.Continuity.ReceiveBuffer.{ReceiveBuffer}

-- 120 seconds
abbrev pub session_linger : ℕ
session_linger = 120 * 1000000000

pub record SessionEntry : Type 0 where
  pub id : List ℕ
  pub keys : SessionKeys
  pub assigned_ip : ℕ
  pub session : Session
  pub send_buffer : SendBuffer
  pub recv_buffer : ReceiveBuffer
  pub attached : List ℕ
  pub last_seen : ℕ

abbrev pub SessionRegistry : Type 0
SessionRegistry = Assoc (List ℕ) SessionEntry

touch : SessionEntry → (now : ℕ) → SessionEntry
touch e now = record e { last_seen = now }

-- The entry with the new tasks, and the tasks that are aborted.
pub attach : SessionEntry → (tasks : List ℕ) (now : ℕ) → SessionEntry × List ℕ
unfolding touch
attach e tasks now = (touch (record e { attached = tasks }) now, e.attached)

-- `is_finished` of every task is what the runtime says.
any_running : (is_finished : ℕ → Bool) → List ℕ → Bool
any_running is_finished [] = false
any_running is_finished (task ∷ tasks) = not (is_finished task) || any_running is_finished tasks

pub is_attached : (is_finished : ℕ → Bool) → SessionEntry → Bool
unfolding any_running
is_attached is_finished e = any_running is_finished e.attached

pub idle_for : SessionEntry → (now : ℕ) → ℕ
idle_for e now = now - e.last_seen

pub new_entry : (id : List ℕ) → SessionKeys → (assigned_ip now : ℕ) → SessionEntry
new_entry id keys assigned_ip now = record {
  id = id;
  keys = keys;
  assigned_ip = assigned_ip;
  session = new id keys now;
  send_buffer = Sending.with_default_capacity;
  recv_buffer = Receiving.with_default_capacity;
  attached = [];
  last_seen = now;
}

pub register :
    SessionRegistry
    → (id : List ℕ) → SessionKeys
    → (assigned_ip now : ℕ) → SessionEntry × SessionRegistry
unfolding new_entry
register r id keys assigned_ip now =
    let entry = new_entry id keys assigned_ip now in (entry, insert same_bytes id entry r)

pub find_entry : SessionRegistry → (id : List ℕ) → Option SessionEntry
find_entry r id = get same_bytes id r

pub unregister : SessionRegistry → (id : List ℕ) → Option SessionEntry × SessionRegistry
unregister r id = (get same_bytes id r, remove same_bytes id r)

pub expired : (is_finished : ℕ → Bool) → (now : ℕ) → SessionEntry → Bool
unfolding is_attached idle_for
expired is_finished now e = not (is_attached is_finished e) && ltb session_linger (idle_for e now)

-- The addresses of the entries that go.
reclaimed : (is_finished : ℕ → Bool) → (now : ℕ) → SessionRegistry → List ℕ
reclaimed is_finished now [] = []
reclaimed is_finished now ((id, e) ∷ r) =
    let rest = reclaimed is_finished now r in
    if expired is_finished now e then e.assigned_ip ∷ rest else rest

pub reap_expired : (is_finished : ℕ → Bool) → SessionRegistry → (now : ℕ) → List ℕ × SessionRegistry
unfolding reclaimed
reap_expired is_finished r now =
    (reclaimed is_finished now r, retain_entries (λ e. not (expired is_finished now e)) r)

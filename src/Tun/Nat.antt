-- ===== src/Tun/Nat.antt =====
-- crates/kanrin-tun/src/nat.rs: the connections that go through the tunnel. A `SocketAddr` is its
-- bytes, an `Instant` a number of nanoseconds, and `now` is what the clock gives.
pub mod Table
mod Tests
use kanrin.Common.{
  ℕ, suc, ◌+◌, ◌-◌, ◌%◌, ◌^◌, Bool, true, false, ◌&&◌, not, List, [], ◌∷◌, Option, none, some, ltb,
  if◌then◌else◌, length,
}
use kanrin.Common.Table.{same_bytes}
use kanrin.Common.Assoc.{Assoc, get, insert, retain_entries}

pub record NatKey : Type 0 where
  pub local : List ℕ
  pub remote : List ℕ

pub same_key : NatKey → NatKey → Bool
same_key a b = same_bytes a.local b.local && same_bytes a.remote b.remote

pub data ConnectionState : Type 0 where
  syn_sent established closing closed udp_flow : ConnectionState

pub record NatEntry : Type 0 where
  pub local_addr : List ℕ
  pub remote_addr : List ℕ
  pub created_at : ℕ
  pub last_seen : ℕ
  pub bytes_tx : ℕ
  pub bytes_rx : ℕ
  pub state : ConnectionState

pub record NatTable : Type 0 where
  pub tcp_entries : Assoc NatKey NatEntry
  pub udp_entries : Assoc NatKey NatEntry
  pub tcp_timeout : ℕ
  pub udp_timeout : ℕ

pub new_table : (tcp_timeout udp_timeout : ℕ) → NatTable
new_table tcp_timeout udp_timeout = record {
  tcp_entries = [];
  udp_entries = [];
  tcp_timeout = tcp_timeout;
  udp_timeout = udp_timeout;
}

fresh_entry : (key : NatKey) (state : ConnectionState) (now : ℕ) → NatEntry
fresh_entry key state now = record {
  local_addr = key.local;
  remote_addr = key.remote;
  created_at = now;
  last_seen = now;
  bytes_tx = 0;
  bytes_rx = 0;
  state = state;
}

-- `entry(key).or_insert_with(…)`
or_insert : NatKey → NatEntry → Assoc NatKey NatEntry → NatEntry × Assoc NatKey NatEntry
or_insert key fresh entries = elim (get same_key key entries) [
  | some entry ↦ (entry, entries)
  | none ↦ (fresh, insert same_key key fresh entries)
]

pub tcp_outgoing : NatTable → (local remote : List ℕ) (now : ℕ) → NatEntry × NatTable
unfolding fresh_entry or_insert
tcp_outgoing t local remote now =
    let key : NatKey = record { local = local; remote = remote } in
    let (entry, entries) = or_insert key (fresh_entry key syn_sent now) t.tcp_entries in
    (entry, record t { tcp_entries = entries })

pub udp_outgoing : NatTable → (local remote : List ℕ) (now : ℕ) → NatEntry × NatTable
unfolding fresh_entry or_insert
udp_outgoing t local remote now =
    let key : NatKey = record { local = local; remote = remote } in
    let (entry, entries) = or_insert key (fresh_entry key udp_flow now) t.udp_entries in
    (entry, record t { udp_entries = entries })

pub tcp_incoming : NatTable → (remote local : List ℕ) → Option NatEntry
tcp_incoming t remote local = get same_key (record { local = local; remote = remote }) t.tcp_entries

pub udp_incoming : NatTable → (remote local : List ℕ) → Option NatEntry
udp_incoming t remote local = get same_key (record { local = local; remote = remote }) t.udp_entries

-- `if let Some(entry) = entries.get_mut(&key)`
modify : NatKey → (NatEntry → NatEntry) → Assoc NatKey NatEntry → Assoc NatKey NatEntry
modify key change entries = elim (get same_key key entries) [
  | none ↦ entries
  | some entry ↦ insert same_key key (change entry) entries
]

-- The counters are `u64`s.
count_bytes : (bytes : ℕ) (is_tx : Bool) (now : ℕ) → NatEntry → NatEntry
count_bytes bytes is_tx now entry =
    if is_tx
    then record entry { last_seen = now; bytes_tx = (entry.bytes_tx + bytes) % 2 ^ 64 }
    else record entry { last_seen = now; bytes_rx = (entry.bytes_rx + bytes) % 2 ^ 64 }

pub tcp_activity :
    NatTable → (local remote : List ℕ) (bytes : ℕ) (is_tx : Bool) (now : ℕ) → NatTable
unfolding modify count_bytes
tcp_activity t local remote bytes is_tx now = record t {
  tcp_entries =
      modify (record { local = local; remote = remote }) (count_bytes bytes is_tx now)
        t.tcp_entries;
}

pub tcp_set_state : NatTable → (local remote : List ℕ) → ConnectionState → NatTable
unfolding modify
tcp_set_state t local remote state = record t {
  tcp_entries =
      modify (record { local = local; remote = remote }) (λ entry. record entry { state = state })
        t.tcp_entries;
}

pub is_closed : ConnectionState → Bool
is_closed closed = true
is_closed _ = false

pub is_established : ConnectionState → Bool
is_established established = true
is_established _ = false

pub keeps_tcp : NatTable → (now : ℕ) → NatEntry → Bool
unfolding is_closed
keeps_tcp t now entry = not (is_closed entry.state) && ltb (now - entry.last_seen) t.tcp_timeout

pub keeps_udp : NatTable → (now : ℕ) → NatEntry → Bool
keeps_udp t now entry = ltb (now - entry.last_seen) t.udp_timeout

pub cleanup : NatTable → (now : ℕ) → NatTable
cleanup t now = record t {
  tcp_entries = retain_entries (keeps_tcp t now) t.tcp_entries;
  udp_entries = retain_entries (keeps_udp t now) t.udp_entries;
}

pub connection_count : NatTable → ℕ
connection_count t = length t.tcp_entries + length t.udp_entries

count_established : Assoc NatKey NatEntry → ℕ
count_established [] = 0
count_established ((key, entry) ∷ entries) =
    let rest = count_established entries in if is_established entry.state then suc rest else rest

pub tcp_established_count : NatTable → ℕ
unfolding count_established
tcp_established_count t = count_established t.tcp_entries

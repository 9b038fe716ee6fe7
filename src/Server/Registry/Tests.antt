-- ===== src/Server/Registry/Tests.antt =====
-- Runs of the registry of sessions.
use kanrin.Common.{ℕ, ◌≡◌, ◌+◌, ◌*◌, refl, Bool, false, List, [], ◌∷◌}
use kanrin.Common.Assoc.{get}
use kanrin.Protocol.Crypto.{SessionKeys}
use kanrin.Server.Registry.{SessionEntry, SessionRegistry, new_entry, find_entry, reap_expired}
use kanrin.Server.Registry.Reaping.{times_listed, times_assigned, Reaped, reap_expired-balance}

abbrev keys : SessionKeys
keys = record { client_write_key = 1 ∷ []; server_write_key = 2 ∷ [] }

abbrev never : ℕ → Bool
never task = false

abbrev id : List ℕ
id = 7 ∷ 7 ∷ []

abbrev entry : SessionEntry
entry = new_entry id keys 5 0

-- Beyond the linger time of two minutes.
abbrev late : ℕ
late = 121 * 1000000000

abbrev one : SessionRegistry
one = (id, entry) ∷ []

reap_expired-balance_example :
    (times_listed 5 (reap_expired never one late).0
        + times_assigned 5 (reap_expired never one late).1
      ≡ times_assigned 5 one)
    × Reaped never late (find_entry one id) (find_entry (reap_expired never one late).1 id)
unfolding get
reap_expired-balance_example = reap_expired-balance never one id 5 late (refl, tt)

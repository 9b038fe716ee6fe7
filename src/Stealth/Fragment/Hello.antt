-- ===== src/Stealth/Fragment/Hello.antt =====
-- The layout of a ClientHello, and the position of its server name.
use kanrin.Common.{ℕ, ◌+◌, ◌*◌, ◌≤◌, ◌<◌, ◌≡◌, List, some, length}
use kanrin.Common.Bytes.{get_elem?}

-- A byte at a position, and a big-endian number of two bytes.
abbrev pub ByteAt : List ℕ → (i value : ℕ) → Type 0
ByteAt bytes i value = get_elem? bytes i ≡ some value

abbrev pub WordAt : List ℕ → (i value : ℕ) → Type 0
WordAt bytes i value =
    (high : ℕ) × (low : ℕ) × ByteAt bytes i high
    × ByteAt bytes (i + 1) low
    × (value ≡ high * 256 + low)

-- From the extension header at one position, the extensions lead to the first of type zero.
pub data Leads (bytes : List ℕ) : (from to : ℕ) → Type 0 where
  server_name : (pos : ℕ) → pos + 4 ≤ length bytes → WordAt bytes pos 0 → Leads bytes pos pos
  other_type :
      (pos type size to : ℕ)
      → pos + 4 ≤ length bytes
      → WordAt bytes pos type
      → 0 < type
      → WordAt bytes (pos + 2) size
      → Leads bytes (pos + 4 + size) to
      → Leads bytes pos to

-- The fields of a ClientHello by RFC 8446, each with its length in front of it: what stands from the
-- extensions on, from the compression methods on, from the cipher suites on and from the session
-- id on.
abbrev pub Extensions : (bytes : List ℕ) (from to : ℕ) → Type 0
Extensions bytes from to = (size : ℕ) × WordAt bytes from size × Leads bytes (from + 2) to

abbrev pub Compression : (bytes : List ℕ) (from to : ℕ) → Type 0
Compression bytes from to =
    (size : ℕ) × ByteAt bytes from size × Extensions bytes (from + (1 + size)) to

abbrev pub Suites : (bytes : List ℕ) (from to : ℕ) → Type 0
Suites bytes from to =
    (size : ℕ) × WordAt bytes from size × Compression bytes (from + (2 + size)) to

abbrev pub SessionId : (bytes : List ℕ) (from to : ℕ) → Type 0
SessionId bytes from to = (size : ℕ) × ByteAt bytes from size × Suites bytes (from + (1 + size)) to

-- A whole record of type 22, in which the fields behind the random field lead to the position.
abbrev pub IsServerName : (bytes : List ℕ) (pos : ℕ) → Type 0
IsServerName bytes pos =
    ByteAt bytes 0 22
    × ((size : ℕ) × WordAt bytes 3 size × (5 + size ≤ length bytes))
    × SessionId bytes 43 pos

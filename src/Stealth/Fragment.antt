-- ===== src/Stealth/Fragment.antt =====
-- crates/kanrin-stealth/src/fragment.rs. `draw k` is what the random generator gives the k-th time.
pub mod Whole
mod Hello
mod Soundness
pub mod Sni
mod Tests
use kanrin.Common.{
  ℕ, zero, suc, ◌+◌, ◌*◌, ◌≤◌, Bool, not, List, [], ◌∷◌, Option, none, some, min, ltb, leb, ◌==◌,
  if◌then◌else◌, length,
}
use kanrin.Common.Bytes.{of_be}
use kanrin.Protocol.Error.{Result, ok, ◌>>=◌, index, slice}

pub record FragmentConfig : Type 0 where
  pub min_fragment_size : ℕ
  pub max_fragment_size : ℕ
  pub delay_from_ms : ℕ
  pub delay_to_ms : ℕ
  pub split_at_sni : Bool

default_config : FragmentConfig
default_config = record {
  min_fragment_size = 40;
  max_fragment_size = 200;
  delay_from_ms = 10;
  delay_to_ms = 50;
  split_at_sni = Bool.true;
}

-- The loop of `fragment` from an offset on: the fragments, or `none` where the bound runs out.
pub fragment_from :
    (fuel : ℕ) (draw : ℕ → ℕ) (count offset : ℕ) (bytes : List ℕ) → Result (Option (List (List ℕ)))
fragment_from zero draw count offset bytes =
    if ltb offset (length bytes) then ok none else ok (some [])
fragment_from (suc fuel) draw count offset bytes = do
  let end = min (offset + draw count) (length bytes)
  let rest = fragment_from fuel draw (count + 1) end bytes
  if not (ltb offset (length bytes)) then ok (some []) else do
    piece ← slice bytes offset end
    pieces ← rest
    ok (elim pieces [ none ↦ none | some fs ↦ some (piece ∷ fs) ])

-- `fragment`, with a round for each byte.
pub fragment : (draw : ℕ → ℕ) (bytes : List ℕ) → Result (Option (List (List ℕ)))
fragment draw bytes = fragment_from (length bytes) draw 0 0 bytes

-- `u16::from_be_bytes([data[i], data[i + 1]])`
pub read_u16 : (bytes : List ℕ) (i : ℕ) → Result ℕ
read_u16 bytes i = do high ← index bytes i; low ← index bytes (i + 1); ok (of_be (high ∷ low ∷ []))

-- The walk over the extensions; each takes four bytes at least.
pub walk_extensions : (fuel : ℕ) (bytes : List ℕ) (pos : ℕ) → Result (Option ℕ)
walk_extensions zero bytes pos = ok none
walk_extensions (suc fuel) bytes pos = if ltb (length bytes) (pos + 4) then ok none else do
  ext_type ← read_u16 bytes pos
  ext_len ← read_u16 bytes (pos + 2)
  if ext_type == 0 then ok (some pos) else walk_extensions fuel bytes (pos + 4 + ext_len)

-- The fields behind the session id, the cipher suites and the compression methods.
after_compression : (bytes : List ℕ) (pos : ℕ) → Result (Option ℕ)
after_compression bytes pos =
    if ltb (length bytes) (pos + 2)
    then ok none
    else do extensions_len ← read_u16 bytes pos; walk_extensions (length bytes) bytes (pos + 2)

after_suites : (bytes : List ℕ) (pos : ℕ) → Result (Option ℕ)
unfolding after_compression
after_suites bytes pos = if leb (length bytes) pos then ok none else do
  comp_methods_len ← index bytes pos
  after_compression bytes (pos + (1 + comp_methods_len))

after_session : (bytes : List ℕ) (pos : ℕ) → Result (Option ℕ)
unfolding after_suites
after_session bytes pos = if ltb (length bytes) (pos + 2) then ok none else do
  cipher_suites_len ← read_u16 bytes pos
  after_suites bytes (pos + (2 + cipher_suites_len))

-- From the end of the random field on.
after_random : (bytes : List ℕ) → Result (Option ℕ)
unfolding after_session
after_random bytes =
    if ltb (length bytes) 43
    then ok none
    else if leb (length bytes) 43
    then ok none
    else do session_id_len ← index bytes 43; after_session bytes (43 + (1 + session_id_len))

pub find_sni_offset : (bytes : List ℕ) → Result (Option ℕ)
unfolding after_random
find_sni_offset bytes = if ltb (length bytes) 5 then ok none else do
  content_type ← index bytes 0
  if not (content_type == 0x16) then ok none else do
    record_len ← read_u16 bytes 3
    if ltb (length bytes) (5 + record_len) then ok none else after_random bytes

-- ===== src/Protocol/Wire/Control.antt =====
-- `ControlMessage`, `SackRange` and `validate_sack_ranges` of crates/kanrin-protocol/src/wire.rs.
-- A string is its UTF-8 bytes, and the `f32` of a score report is its bit pattern.
pub mod Ranges
pub mod RoundTrip
pub mod Safety
use kanrin.Common.{
  ℕ, ◌+◌, ◌*◌, ◌%◌, ◌^◌, ◌<◌, ◌≤◌, ◌≡◌, Bool, List, [], ◌∷◌, ◌++◌, ltb, leb, ◌==◌, if◌then◌else◌,
  length, drop, take, zero, suc,
}
use kanrin.Common.Bytes.{to_be, of_be}
use kanrin.Protocol.Error.{
  Result, ok, err, ◌>>=◌, ◌>>◌, fail_if, index, slice, buffer_too_short, invalid_chunk,
  empty_control_message, unknown_disconnect_reason, too_many_sack_ranges, sack_start_after_end,
  sack_not_ascending, unknown_control_message_type,
}

abbrev pub max_sack_ranges : ℕ
max_sack_ranges = 32

-- An inclusive range of sequences.
pub record SackRange : Type 0 where
  pub start : ℕ
  pub end : ℕ

pub data DisconnectReason : Type 0 where
  client_close server_close auth_failed traffic_exceeded expired timeout : DisconnectReason

pub data ControlMessage : Type 0 where
  ping : (timestamp : ℕ) → ControlMessage
  pong : (timestamp : ℕ) → ControlMessage
  config_update : (config_hash url : List ℕ) → ControlMessage
  score_report : (node_id : List ℕ) (score : ℕ) → ControlMessage
  session_migrate : (new_token : List ℕ) → ControlMessage
  disconnect : (reason : DisconnectReason) → ControlMessage
  ack : (next_expected : ℕ) (ranges : List SackRange) → ControlMessage

-- `reason as u8`
pub reason_byte : DisconnectReason → ℕ
reason_byte client_close = 0x00
reason_byte server_close = 0x01
reason_byte auth_failed = 0x02
reason_byte traffic_exceeded = 0x03
reason_byte expired = 0x04
reason_byte timeout = 0x05

pub reason_of_byte : ℕ → Result DisconnectReason
reason_of_byte b =
    if b == 0x00
    then ok client_close
    else if b == 0x01
    then ok server_close
    else if b == 0x02
    then ok auth_failed
    else if b == 0x03
    then ok traffic_exceeded
    else if b == 0x04
    then ok expired
    else if b == 0x05
    then ok timeout
    else err (invalid_chunk unknown_disconnect_reason)

-- The loop over the ranges of an ack.
pub encode_ranges : List SackRange → List ℕ
encode_ranges [] = []
encode_ranges (r ∷ rs) = to_be 8 r.start ++ (to_be 8 r.end ++ encode_ranges rs)

-- `len() as u16` and `len() as u8` truncate.
pub encode : ControlMessage → List ℕ
unfolding reason_byte encode_ranges
encode (ping timestamp) = 0x01 ∷ to_be 8 timestamp
encode (pong timestamp) = 0x02 ∷ to_be 8 timestamp
encode (config_update config_hash url) =
    0x03 ∷ (config_hash ++ (to_be 2 (length url % 2 ^ 16) ++ url))
encode (score_report node_id score) = 0x04 ∷ (length node_id % 256) ∷ (node_id ++ to_be 4 score)
encode (session_migrate new_token) = 0x05 ∷ (to_be 2 (length new_token % 2 ^ 16) ++ new_token)
encode (disconnect reason) = 0x06 ∷ reason_byte reason ∷ []
encode (ack next_expected ranges) =
    0x07 ∷ (to_be 8 next_expected ++ ((length ranges % 256) ∷ encode_ranges ranges))

-- The loop of `validate_sack_ranges`; `floor` is a `u128`, which `end + 1` cannot overflow.
pub validate_from : (floor : ℕ) → List SackRange → Result (Unit {0})
validate_from floor [] = ok tt
validate_from floor (r ∷ rs) = do
  fail_if (ltb r.end r.start) (invalid_chunk sack_start_after_end)
  fail_if (leb r.start floor) (invalid_chunk sack_not_ascending)
  validate_from (r.end + 1) rs

pub validate_sack_ranges : (next_expected : ℕ) → List SackRange → Result (Unit {0})
unfolding validate_from
validate_sack_ranges next_expected ranges = validate_from next_expected ranges

-- `chunks_exact(16)` of a slice of `count * 16` bytes, each read as two integers.
pub decode_ranges : (count : ℕ) → List ℕ → List SackRange
decode_ranges zero bytes = []
decode_ranges (suc count) bytes =
    record { start = of_be (take 8 bytes); end = of_be (take 8 (drop 8 bytes)) }
    ∷ decode_ranges count (drop 16 bytes)

decode_timestamp : (ℕ → ControlMessage) → List ℕ → Result ControlMessage
decode_timestamp message bytes = do
  fail_if (ltb (length bytes) 9) (buffer_too_short 9 (length bytes))
  timestamp ← slice bytes 1 9
  ok (message (of_be timestamp))

decode_disconnect : List ℕ → Result ControlMessage
unfolding reason_of_byte
decode_disconnect bytes = do
  fail_if (ltb (length bytes) 2) (buffer_too_short 2 (length bytes))
  byte ← index bytes 1
  reason ← reason_of_byte byte
  ok (disconnect reason)

decode_ack : List ℕ → Result ControlMessage
unfolding decode_ranges
decode_ack bytes = do
  fail_if (ltb (length bytes) 10) (buffer_too_short 10 (length bytes))
  next_expected ← slice bytes 1 9
  count ← index bytes 9
  fail_if (ltb max_sack_ranges count) (invalid_chunk (too_many_sack_ranges count))
  let need = 10 + count * 16
  fail_if (ltb (length bytes) need) (buffer_too_short need (length bytes))
  body ← slice bytes 10 need
  let ranges = decode_ranges count body
  validate_sack_ranges (of_be next_expected) ranges
  ok (ack (of_be next_expected) ranges)

-- The arms of the match on the first byte.
decode_kind : ℕ → List ℕ → Result ControlMessage
decode_kind kind bytes =
    if kind == 0x01
    then decode_timestamp ping bytes
    else if kind == 0x02
    then decode_timestamp pong bytes
    else if kind == 0x06
    then decode_disconnect bytes
    else if kind == 0x07
    then decode_ack bytes
    else err (invalid_chunk (unknown_control_message_type kind))

pub decode : List ℕ → Result ControlMessage
unfolding decode_kind
decode bytes = do
  fail_if (length bytes == 0) (invalid_chunk empty_control_message)
  kind ← index bytes 0
  decode_kind kind bytes

-- ===== src/Protocol/Wire/Control/Safety.antt =====
-- Decoding a control message ends without a panic on every input.
use kanrin.Common.{ℕ, ◌+◌, ◌*◌, ◌≢◌, List, length, arith, ltb, ◌==◌}
use kanrin.Common.Bytes.{of_be}
use kanrin.Protocol.Error.{panic}
use kanrin.Protocol.Error.Safety.{long_enough-then, fail_if-then, index-then, slice-then, bind-then}
use kanrin.Protocol.Wire.Control.{
  ControlMessage, ping, pong, reason_of_byte, decode_timestamp, decode_disconnect, decode_ack,
  decode_kind, decode, decode_ranges, validate_sack_ranges,
}
use kanrin.Protocol.Wire.Control.Ranges.{validate_from-ne-panic}

reason_of_byte-ne-panic : (b : ℕ) → reason_of_byte b ≢ panic
unfolding reason_of_byte
reason_of_byte-ne-panic b = ground arith

decode_timestamp-ne-panic :
    (message : ℕ → ControlMessage) (bytes : List ℕ) → decode_timestamp message bytes ≢ panic
unfolding decode_timestamp
decode_timestamp-ne-panic message bytes =
    long_enough-then (length bytes) 9 _ _
      λ long. slice-then bytes 1 9 _ (omega arith) long λ ys _ p. cc

decode_disconnect-ne-panic : (bytes : List ℕ) → decode_disconnect bytes ≢ panic
unfolding decode_disconnect
decode_disconnect-ne-panic bytes = long_enough-then (length bytes) 2 _ _ λ long.
    index-then bytes 1 _ long
      λ byte. bind-then (reason_of_byte byte) _ (reason_of_byte-ne-panic byte) λ reason _ p. cc

decode_ack-ne-panic : (bytes : List ℕ) → decode_ack bytes ≢ panic
unfolding decode_ack validate_sack_ranges
decode_ack-ne-panic bytes = long_enough-then (length bytes) 10 _ _ λ long.
    slice-then bytes 1 9 _ (omega arith) (omega arith) λ next _. index-then bytes 9 _ long λ count.
      fail_if-then (ltb 32 count) _ _ λ _.
        long_enough-then (length bytes) (10 + count * 16) _ _ λ whole.
          slice-then bytes 10 (10 + count * 16) _ (omega arith) whole λ body _.
            bind-then (validate_sack_ranges (of_be next) (decode_ranges count body)) _
              (validate_from-ne-panic (of_be next) (decode_ranges count body)) λ _ _ p. cc

decode_kind-ne-panic : (kind : ℕ) (bytes : List ℕ) → decode_kind kind bytes ≢ panic
unfolding decode_kind
decode_kind-ne-panic kind bytes = ground (
  arith,
  decode_timestamp-ne-panic ping bytes,
  decode_timestamp-ne-panic pong bytes,
  decode_disconnect-ne-panic bytes,
  decode_ack-ne-panic bytes,
)

-- Whatever bytes arrive, decoding a control message gives a message or an error and never indexes
-- out of range.
pub decode_control-ne-panic : (bytes : List ℕ) → decode bytes ≢ panic
unfolding decode
decode_control-ne-panic bytes =
    fail_if-then (length bytes == 0) _ _
      λ some_byte. index-then bytes 0 _ (ground arith) λ kind. decode_kind-ne-panic kind bytes

-- ===== src/Protocol/Wire/Proxy/Safety.antt =====
-- Decoding a proxy request ends without a panic on every input.
use kanrin.Common.{ℕ, ◌+◌, ◌≢◌, List, length, arith, ◌==◌}
use kanrin.Common.Bytes.{of_be}
use kanrin.Protocol.Error.{panic}
use kanrin.Protocol.Error.Safety.{long_enough-then, fail_if-then, index-then, slice-then}
use kanrin.Protocol.Wire.Proxy.{decode_tcp, decode_udp, decode_dns, decode_kind, decode}

module _ (bytes : List ℕ) where
  decode_tcp-ne-panic : decode_tcp bytes ≢ panic
  unfolding decode_tcp
  decode_tcp-ne-panic = long_enough-then (length bytes) 4 _ _ λ long.
      index-then bytes 1 _ (omega arith) λ addr_len.
        long_enough-then (length bytes) (2 + addr_len + 2) _ _ λ whole.
          slice-then bytes 2 (2 + addr_len) _ (omega arith) (omega arith) λ address _.
            slice-then bytes (2 + addr_len) (2 + addr_len + 2) _ (omega arith) whole λ port _ p. cc

  decode_udp-ne-panic : decode_udp bytes ≢ panic
  unfolding decode_udp
  decode_udp-ne-panic = long_enough-then (length bytes) 8 _ _ λ long.
      slice-then bytes 1 5 _ (omega arith) (omega arith) λ session_id _.
        index-then bytes 5 _ (omega arith) λ addr_len.
          long_enough-then (length bytes) (6 + addr_len + 4) _ _ λ room.
            slice-then bytes 6 (6 + addr_len) _ (omega arith) (omega arith) λ address _.
              slice-then bytes (6 + addr_len) (6 + addr_len + 2) _ (omega arith) (omega arith)
                λ port _.
                  slice-then bytes (6 + addr_len + 2) (6 + addr_len + 4) _ (omega arith) room
                    λ size _.
                      long_enough-then (length bytes) (6 + addr_len + 4 + of_be size) _ _ λ whole.
                        slice-then bytes (6 + addr_len + 4) (6 + addr_len + 4 + of_be size) _
                          (omega arith) whole λ payload _ p. cc

  decode_dns-ne-panic : decode_dns bytes ≢ panic
  unfolding decode_dns
  decode_dns-ne-panic = long_enough-then (length bytes) 5 _ _ λ long.
      slice-then bytes 1 3 _ (omega arith) (omega arith) λ id _.
        slice-then bytes 3 5 _ (omega arith) long λ size _.
          long_enough-then (length bytes) (5 + of_be size) _ _
            λ whole. slice-then bytes 5 (5 + of_be size) _ (omega arith) whole λ query _ p. cc

  decode_kind-ne-panic : (kind : ℕ) → decode_kind kind bytes ≢ panic
  unfolding decode_kind
  decode_kind-ne-panic kind =
      ground (arith, decode_tcp-ne-panic, decode_udp-ne-panic, decode_dns-ne-panic)

-- Whatever bytes arrive, decoding a proxy request gives a request or an error and never indexes out
-- of range.
pub decode_proxy-ne-panic : (bytes : List ℕ) → decode bytes ≢ panic
unfolding decode
decode_proxy-ne-panic bytes =
    fail_if-then (length bytes == 0) _ _
      λ some_byte. index-then bytes 0 _ (ground arith) λ kind. decode_kind-ne-panic bytes kind

-- ===== src/Protocol/Wire/Control/RoundTrip.antt =====
-- Which control messages read back, and what a decoded ack promises.
use kanrin.Common.{
  ℕ, ◌+◌, ◌*◌, ◌^◌, ◌<◌, ◌≤◌, ◌≡◌, ◌≢◌, sym, ◌∙◌, List, [], ◌∷◌, ◌++◌, length, arith, take,
  length-append, take-append, All, Option-cases, inl, inr,
}
use kanrin.Common.Bytes.{to_be, of_be, of_be-to_be, slice?, get_elem?}
use kanrin.Protocol.Error.{ok, err, invalid_chunk, unknown_control_message_type}
use kanrin.Protocol.Wire.Control.{
  ControlMessage, SackRange, DisconnectReason, ping, pong, config_update, score_report,
  session_migrate, disconnect, ack, decode_kind, reason_byte, reason_of_byte, encode, decode,
  decode_timestamp, decode_disconnect, decode_ack, encode_ranges, decode_ranges,
  validate_sack_ranges, max_sack_ranges,
}
use kanrin.Protocol.Wire.Control.Ranges.{
  IsCanonical, IsRange, validate_from-ok, validate_from-IsCanonical, length-encode_ranges,
  decode_ranges-encode_ranges, length-decode_ranges,
}

-- The messages that `decode` has an arm for, with fields of the widths of their types. An ack is
-- canonical and carries at most 32 ranges.
abbrev pub IsDecodable : ControlMessage → Type 0
IsDecodable (ping timestamp) = timestamp < 2 ^ 64
IsDecodable (pong timestamp) = timestamp < 2 ^ 64
IsDecodable (config_update config_hash url) = ⊥
IsDecodable (score_report node_id score) = ⊥
IsDecodable (session_migrate new_token) = ⊥
IsDecodable (disconnect reason) = Unit {0}
IsDecodable (ack next_expected ranges) =
    (next_expected < 2 ^ 64)
    × All IsRange ranges
    × IsCanonical next_expected ranges
    × (length ranges ≤ max_sack_ranges)

reason_of_byte-reason_byte : (r : DisconnectReason) → reason_of_byte (reason_byte r) ≡ ok r
unfolding reason_of_byte reason_byte
reason_of_byte-reason_byte r = ground arith

body_slice :
    (ranges : List SackRange) (rest : List ℕ)
    → take (length ranges * 16) (encode_ranges ranges ++ rest) ≡ encode_ranges ranges
body_slice rs rest = rw (← length-encode_ranges rs) (take-append (encode_ranges rs) rest)

decode-encode_ack :
    (next_expected : ℕ) (ranges : List SackRange) (rest : List ℕ)
    → IsDecodable (ack next_expected ranges)
    → decode (encode (ack next_expected ranges) ++ rest) ≡ ok (ack next_expected ranges)
unfolding decode decode_ack encode validate_sack_ranges slice? get_elem? to_be
decode-encode_ack n rs rest (small, wide, canonical, few) = ground (
  arith,
  length-encode_ranges rs,
  length-append (encode_ranges rs) rest,
  of_be-to_be 8 n small,
  body_slice rs rest,
  decode_ranges-encode_ranges rs wide,
  validate_from-ok n rs canonical,
)

-- Pings, pongs, disconnects and canonical acks of at most 32 ranges, with numbers that fit 64 bits,
-- read back as themselves, whatever bytes follow them.
pub decode-encode_control :
    (m : ControlMessage) (rest : List ℕ) → IsDecodable m → decode (encode m ++ rest) ≡ ok m
unfolding decode decode_timestamp decode_disconnect encode slice? get_elem? to_be
decode-encode_control (ping t) rest v = ground (arith, of_be-to_be 8 t v)
decode-encode_control (pong t) rest v = ground (arith, of_be-to_be 8 t v)
decode-encode_control (disconnect r) rest v = ground (arith, reason_of_byte-reason_byte r)
decode-encode_control (ack n rs) rest v = decode-encode_ack n rs rest v
decode-encode_control (config_update hash url) rest v = absurd v
decode-encode_control (score_report id score) rest v = absurd v
decode-encode_control (session_migrate token) rest v = absurd v

decode_ack-IsCanonical :
    (bytes : List ℕ) (n : ℕ) (rs : List SackRange)
    → decode_ack bytes ≡ ok (ack n rs)
    → IsCanonical n rs × (length rs ≤ max_sack_ranges)
unfolding decode_ack validate_sack_ranges
decode_ack-IsCanonical bytes n rs e = elim (Option-cases (slice? 1 9 bytes)) [
  | inl f ↦ ground arith
  | inr (next, e1) ↦ elim (Option-cases (get_elem? bytes 9)) [
    | inl f ↦ ground arith
    | inr (count, e2) ↦ elim (Option-cases (slice? 10 (10 + count * 16) bytes)) [
      | inl f ↦ ground arith
      | inr (body, e3) ↦ ground (
        arith,
        validate_from-IsCanonical (of_be next) (decode_ranges count body),
        length-decode_ranges count body,
      )
    ]
  ]
]

module _ (bytes : List ℕ) (n : ℕ) (rs : List SackRange) where
  ping-ne-ack : decode_timestamp ping bytes ≢ ok (ack n rs)
  unfolding decode_timestamp
  ping-ne-ack e = elim (Option-cases (slice? 1 9 bytes)) [
    | inl f ↦ ground arith
    | inr (ys, e1) ↦ ground arith
  ]

  pong-ne-ack : decode_timestamp pong bytes ≢ ok (ack n rs)
  unfolding decode_timestamp
  pong-ne-ack e = elim (Option-cases (slice? 1 9 bytes)) [
    | inl f ↦ ground arith
    | inr (ys, e1) ↦ ground arith
  ]

  disconnect-ne-ack : decode_disconnect bytes ≢ ok (ack n rs)
  unfolding decode_disconnect reason_of_byte
  disconnect-ne-ack e = ground arith

  -- Only the ack's arm gives an ack.
  decode_kind-ack :
      (kind : ℕ) → decode_kind kind bytes ≡ ok (ack n rs) → decode_ack bytes ≡ ok (ack n rs)
  unfolding decode_kind
  decode_kind-ack kind e = ground (arith, ping-ne-ack, pong-ne-ack, disconnect-ne-ack)

decode-cons : (b : ℕ) (bs : List ℕ) → decode (b ∷ bs) ≡ decode_kind b (b ∷ bs)
unfolding decode get_elem?
decode-cons b bs = ground arith

-- An ack that is decoded, whatever bytes the peer sent, has at most 32 ranges, each with its start
-- not after its end, in ascending order with gaps between them and above the cumulative point.
pub decode-IsCanonical :
    (bytes : List ℕ) (n : ℕ) (rs : List SackRange)
    → decode bytes ≡ ok (ack n rs)
    → IsCanonical n rs × (length rs ≤ max_sack_ranges)
decode-IsCanonical [] n rs e = unfold decode in cc
decode-IsCanonical (b ∷ bs) n rs e =
    decode_ack-IsCanonical (b ∷ bs) n rs
      (decode_kind-ack (b ∷ bs) n rs b (sym (decode-cons b bs) ∙ e))

-- Config updates, score reports and session migrations are encoded under the types 3, 4 and 5, and
-- the decoder rejects each of them as an unknown type.
pub decode-encode_rejected :
    (config_hash url node_id new_token : List ℕ) (score : ℕ)
    → (decode (encode (config_update config_hash url))
        ≡ err (invalid_chunk (unknown_control_message_type 0x03)))
      × (decode (encode (score_report node_id score))
          ≡ err (invalid_chunk (unknown_control_message_type 0x04)))
      × (decode (encode (session_migrate new_token))
          ≡ err (invalid_chunk (unknown_control_message_type 0x05)))
unfolding decode encode get_elem?
decode-encode_rejected config_hash url node_id new_token score = ground arith

-- ===== src/Protocol/Wire/Control/Ranges.antt =====
-- The canonical form of the ranges of an ack, and the two loops over them.
use kanrin.Common.{
  ℕ, ◌+◌, ◌*◌, ◌^◌, ◌<◌, ◌≤◌, ◌≡◌, refl, ap, List, [], ◌∷◌, length, arith, zero, suc, drop, All,
}
use kanrin.Common.Bytes.{to_be, of_be-to_be}
use kanrin.Protocol.Error.{ok, panic}
use kanrin.Protocol.Wire.Control.{SackRange, encode_ranges, decode_ranges, validate_from}

-- Each range is well formed and starts with a gap above what came before.
abbrev pub IsCanonical : (floor : ℕ) → List SackRange → Type 0
IsCanonical floor [] = Unit {0}
IsCanonical floor (r ∷ rs) = (r.start ≤ r.end) × (floor < r.start) × IsCanonical (r.end + 1) rs

abbrev pub IsRange : SackRange → Type 0
IsRange r = (r.start < 2 ^ 64) × (r.end < 2 ^ 64)

-- `validate_sack_ranges` accepts the canonical ranges.
pub validate_from-ok :
    (floor : ℕ) (ranges : List SackRange)
    → IsCanonical floor ranges
    → validate_from floor ranges ≡ ok tt
unfolding validate_from
validate_from-ok floor [] h = refl
validate_from-ok floor (r ∷ rs) h = ground (arith, validate_from-ok (r.end + 1) rs h.2)

-- It accepts nothing else.
pub validate_from-IsCanonical :
    (floor : ℕ) (ranges : List SackRange)
    → validate_from floor ranges ≡ ok tt
    → IsCanonical floor ranges
unfolding validate_from
validate_from-IsCanonical floor [] e = tt
validate_from-IsCanonical floor (r ∷ rs) e =
    ground (arith, validate_from-IsCanonical (r.end + 1) rs)

pub validate_from-ne-panic :
    (floor : ℕ) (ranges : List SackRange) → validate_from floor ranges ≡ panic → ⊥
unfolding validate_from
validate_from-ne-panic floor [] e = cc
validate_from-ne-panic floor (r ∷ rs) e = ground (arith, validate_from-ne-panic (r.end + 1) rs)

pub length-encode_ranges :
    (ranges : List SackRange) → length (encode_ranges ranges) ≡ length ranges * 16
unfolding encode_ranges to_be
length-encode_ranges [] = refl
length-encode_ranges (r ∷ rs) = omega (arith, length-encode_ranges rs)

pub decode_ranges-encode_ranges :
    (ranges : List SackRange)
    → All IsRange ranges
    → decode_ranges (length ranges) (encode_ranges ranges) ≡ ranges
unfolding encode_ranges decode_ranges to_be
decode_ranges-encode_ranges [] h = refl
decode_ranges-encode_ranges (r ∷ rs) h = ground (
  arith,
  of_be-to_be 8 r.start h.0.0,
  of_be-to_be 8 r.end h.0.1,
  decode_ranges-encode_ranges rs h.1,
)

pub length-decode_ranges : (count : ℕ) (bytes : List ℕ) → length (decode_ranges count bytes) ≡ count
unfolding decode_ranges
length-decode_ranges zero bytes = refl
length-decode_ranges (suc count) bytes = ap suc (length-decode_ranges count (drop 16 bytes))

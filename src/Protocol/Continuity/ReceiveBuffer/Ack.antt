-- ===== src/Protocol/Continuity/ReceiveBuffer/Ack.antt =====
-- The ack that the receive buffer builds: canonical, bounded, and true of what has been received.
use kanrin.Common.{
  ℕ, suc, ◌+◌, ◌≤◌, ◌<◌, ◌≡◌, refl, Bool, true, false, ◌&&◌, ◌||◌, List, [], ◌∷◌, ◌++◌, arith,
  length, leb, ◌==◌, All,
}
use kanrin.Common.SortedMap.{Map, Above, Within, contains_key, keys}
use kanrin.Protocol.Error.{ok}
use kanrin.Protocol.Wire.Control
use kanrin.Protocol.Wire.Control.{SackRange, max_sack_ranges, ControlMessage}
use kanrin.Protocol.Wire.Control.Ranges.{IsCanonical, IsRange}
use kanrin.Protocol.Wire.Control.RoundTrip.{decode-encode_control}
use kanrin.Protocol.Continuity.SendBuffer.Acks.{covers, acked}
use kanrin.Protocol.Continuity.ReceiveBuffer.{ReceiveBuffer, coalesce, sack_ranges, build_ack}
use kanrin.Protocol.Continuity.ReceiveBuffer.Inv.{IsValid, max_sequence}
use kanrin.Protocol.Continuity.ReceiveBuffer.Progress.{received}

-- In ascending order between two bounds.
abbrev Ascends : (low top : ℕ) → List ℕ → Type 0
Ascends low top [] = Unit {0}
Ascends low top (k ∷ ks) = (low < k) × (k < top) × Ascends k top ks

keys-Ascends :
    {V : Type 0} (low top : ℕ) (m : Map V) → Above low m → Within top m → Ascends low top (keys m)
unfolding keys
keys-Ascends low top [] h w = tt
keys-Ascends low top ((k, v) ∷ m) h w = (h.0, w.0, keys-Ascends k top m h.1 w.1)

abbrev member : ℕ → List ℕ → Bool
member k [] = false
member k (x ∷ xs) = x == k || member k xs

member-keys : {V : Type 0} (k : ℕ) (m : Map V) → member k (keys m) ≡ contains_key k m
unfolding keys contains_key
member-keys k [] = refl
member-keys k ((j, v) ∷ m) = ground (arith, member-keys k m)

coalesce-IsCanonical :
    (floor closed : ℕ) (last : SackRange) (seqs : List ℕ)
    → floor < last.start
    → last.start ≤ last.end
    → Ascends last.end max_sequence seqs
    → IsCanonical floor (coalesce closed last seqs)
unfolding coalesce
coalesce-IsCanonical floor closed last [] h k up = (k, h, tt)
coalesce-IsCanonical floor closed last (seq ∷ seqs) h k up = ground (
  arith,
  coalesce-IsCanonical floor closed (record last { end = seq }) seqs h,
  coalesce-IsCanonical (last.end + 1) (suc closed) (record { start = seq; end = seq }) seqs,
)

length-coalesce :
    (closed : ℕ) (last : SackRange) (seqs : List ℕ)
    → closed < max_sack_ranges
    → closed + length (coalesce closed last seqs) ≤ max_sack_ranges
unfolding coalesce
length-coalesce closed last [] h = omega arith
length-coalesce closed last (seq ∷ seqs) h = ground (
  arith,
  length-coalesce closed (record last { end = seq }) seqs h,
  length-coalesce (suc closed) (record { start = seq; end = seq }) seqs,
)

coalesce-IsRange :
    (closed : ℕ) (last : SackRange) (seqs : List ℕ)
    → IsRange last
    → (low : ℕ) → Ascends low max_sequence seqs
    → All IsRange (coalesce closed last seqs)
unfolding coalesce
coalesce-IsRange closed last [] h low up = (h, tt)
coalesce-IsRange closed last (seq ∷ seqs) h low up = ground (
  arith,
  coalesce-IsRange closed (record last { end = seq }) seqs (omega arith) seq up.2,
  coalesce-IsRange (suc closed) (record { start = seq; end = seq }) seqs (omega arith) seq up.2,
)

-- A range covers only sequences that are among the keys.
covers-coalesce :
    (k closed : ℕ) (last : SackRange) (seqs : List ℕ)
    → Ascends last.end max_sequence seqs
    → covers (coalesce closed last seqs) k ≡ true
    → ((leb last.start k && leb k last.end) || member k seqs) ≡ true
unfolding coalesce
covers-coalesce k closed last [] up e = ground arith
covers-coalesce k closed last (seq ∷ seqs) up e = ground (
  arith,
  covers-coalesce k closed (record last { end = seq }) seqs up.2,
  covers-coalesce k (suc closed) (record { start = seq; end = seq }) seqs up.2,
)

sack_ranges-IsCanonical :
    (floor : ℕ) (ks : List ℕ) → Ascends floor max_sequence ks → IsCanonical floor (sack_ranges ks)
unfolding sack_ranges
sack_ranges-IsCanonical floor [] up = tt
sack_ranges-IsCanonical floor (k ∷ ks) up =
    coalesce-IsCanonical floor 0 (record { start = k; end = k }) ks up.0 (omega arith) up.2

length-sack_ranges : (ks : List ℕ) → length (sack_ranges ks) ≤ max_sack_ranges
unfolding sack_ranges
length-sack_ranges [] = omega arith
length-sack_ranges (k ∷ ks) =
    omega (arith, length-coalesce 0 (record { start = k; end = k }) ks (omega arith))

sack_ranges-IsRange :
    (low : ℕ) (ks : List ℕ) → Ascends low max_sequence ks → All IsRange (sack_ranges ks)
unfolding sack_ranges
sack_ranges-IsRange low [] up = tt
sack_ranges-IsRange low (k ∷ ks) up =
    coalesce-IsRange 0 (record { start = k; end = k }) ks (omega arith) k up.2

covers-sack_ranges :
    (k low : ℕ) (ks : List ℕ)
    → Ascends low max_sequence ks
    → covers (sack_ranges ks) k ≡ true
    → member k ks ≡ true
unfolding sack_ranges
covers-sack_ranges k low [] up e = e
covers-sack_ranges k low (j ∷ ks) up e =
    ground (arith, covers-coalesce k 0 (record { start = j; end = j }) ks up.2)

module _ (r : ReceiveBuffer) (h : IsValid r) where
  pending-Ascends : Ascends r.next_expected max_sequence (keys r.pending)
  pending-Ascends = keys-Ascends r.next_expected max_sequence r.pending h.above h.wide

  -- The ack that a valid receive buffer builds is accepted by the decoder of control messages and
  -- reads back as it is, whatever bytes follow it.
  pub decode-encode-build_ack :
      (rest : List ℕ) → Control.decode (Control.encode (build_ack r) ++ rest) ≡ ok (build_ack r)
  unfolding build_ack
  decode-encode-build_ack rest = decode-encode_control (build_ack r) rest (
    omega (arith, h.cursor),
    sack_ranges-IsRange r.next_expected (keys r.pending) pending-Ascends,
    sack_ranges-IsCanonical r.next_expected (keys r.pending) pending-Ascends,
    length-sack_ranges (keys r.pending),
  )

  -- The ack that a valid receive buffer builds names no sequence that has not been received.
  pub acked-received :
      (k : ℕ) → acked r.next_expected (sack_ranges (keys r.pending)) k ≡ true → received k r ≡ true
  acked-received k e = ground (
    arith,
    covers-sack_ranges k r.next_expected (keys r.pending) pending-Ascends,
    member-keys k r.pending,
  )

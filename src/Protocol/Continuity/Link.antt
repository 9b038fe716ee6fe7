-- ===== src/Protocol/Continuity/Link.antt =====
-- One direction of a session: the two ends that use it as `Carrying` says, and between them a network
-- that delivers what was written, and acks, in any order, late, repeatedly or never. Data and control
-- chunks take their sequences from one counter.
mod Ends
mod Invariant
pub mod NoLoss
pub mod Resume
mod Tests
use kanrin.Common.{
  ℕ, ◌+◌, ◌<◌, ◌≡◌, Bool, false, not, ◌||◌, ◌==◌, List, [], ◌∷◌, ◌++◌, if◌then◌else◌,
}
use kanrin.Common.SortedMap.{keys}
use kanrin.Protocol.Error.{ok}
use kanrin.Protocol.Crypto.{Primitives, SessionKeys}
use kanrin.Protocol.Wire.Control.{SackRange}
use kanrin.Protocol.Wire.Chunk.{Chunk, encode_sequenced}
use kanrin.Protocol.Session as Sessions
use kanrin.Protocol.Session.{Session, write_key}
use kanrin.Protocol.Continuity.SendBuffer
use kanrin.Protocol.Continuity.SendBuffer.{SendBuffer}
use kanrin.Protocol.Continuity.ReceiveBuffer as Receiver
use kanrin.Protocol.Continuity.ReceiveBuffer.{ReceiveBuffer, sack_ranges}
use kanrin.Protocol.Continuity.Carrying.{write_chunk, read_chunk}
use kanrin.Protocol.Continuity.Carrying.Sending.{was_retained}

-- `retained` are the sequences that ever went into the send buffer, and `acks` the acks ever built,
-- each with its fields, which control chunks of the other direction or a resumption carry.
pub record Channel : Type 0 where
  pub sending : Session
  pub sender : SendBuffer
  pub receiving : Session
  pub receiver : ReceiveBuffer
  pub retained : List ℕ
  pub acks : List (ℕ × List SackRange)

unfoldable pub start :
    (id : List ℕ) (shared : SessionKeys) (now send_bound receive_bound : ℕ) → Channel
start id shared now send_bound receive_bound = record {
  sending = Sessions.new id shared now;
  sender = SendBuffer.new send_bound;
  receiving = Sessions.new id shared now;
  receiver = Receiver.new receive_bound;
  retained = [];
  acks = [];
}

unfoldable pub listed : ℕ → List ℕ → Bool
listed k [] = false
listed k (j ∷ js) = (j == k) || listed k js

-- `chunks k` is the chunk that the sender gives the sequence `k`, data or control, and `padding k` the
-- padding drawn for it.
module _ (prim : Primitives) (shared : SessionKeys) (is_client : Bool) (chunks : ℕ → Chunk)
    (padding : ℕ → List ℕ) where
  -- The bytes that are written for a sequence.
  abbrev pub WrittenAs : ℕ → List ℕ → Type 0
  WrittenAs k bytes =
      encode_sequenced prim (chunks k) (write_key shared is_client) k (padding k) ≡ ok bytes

  pub data Step (c : Channel) : Channel → Type 0 where
    -- The next chunk is written.
    send :
        (now : ℕ) (bytes : List ℕ) (s : Session) (b : SendBuffer) (d : Channel)
        → write_chunk prim c.sending c.sender
            (chunks c.sending.send_seq)
            is_client
            (padding c.sending.send_seq)
            now
          ≡ ok (bytes, s, b)
        → d ≡ record c {
          sending = s;
          sender = b;
          retained =
              if was_retained c.sender (chunks c.sending.send_seq) c.sending.send_seq bytes
              then c.sending.send_seq ∷ c.retained
              else c.retained;
        }
        → Step c d
    -- Some copy of a chunk that was written arrives, and is read.
    arrive :
        (k now : ℕ) (bytes : List ℕ) (payloads : List (List ℕ)) (t : Session) (r : ReceiveBuffer)
        (d : Channel)
        → k < c.sending.send_seq
        → WrittenAs k bytes
        → read_chunk prim c.receiving c.receiver bytes (not is_client) now ≡ ok (payloads, t, r)
        → d ≡ record c { receiving = t; receiver = r }
        → Step c d
    -- The receiver builds an ack.
    build :
        (d : Channel)
        → d ≡ record c {
          acks = (c.receiver.next_expected, sack_ranges (keys c.receiver.pending)) ∷ c.acks;
        }
        → Step c d
    -- The receiver tells its cursor when a connection is resumed, which acts as an ack without ranges.
    announce :
        (d : Channel) → d ≡ record c { acks = (c.receiver.next_expected, []) ∷ c.acks } → Step c d
    -- Some ack that was built, new or old, arrives at the sender.
    apply :
        (older newer : List (ℕ × List SackRange)) (next_expected : ℕ) (ranges : List SackRange)
        (d : Channel)
        → c.acks ≡ newer ++ ((next_expected, ranges) ∷ older)
        → d ≡ record c { sender = (SendBuffer.apply_ack c.sender next_expected ranges).1 }
        → Step c d

  pub data Reach (c : Channel) : Channel → Type 0 where
    here : Reach c c
    next : {d e : Channel} → Reach c d → Step d e → Reach c e

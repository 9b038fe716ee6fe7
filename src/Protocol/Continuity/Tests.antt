-- ===== src/Protocol/Continuity/Tests.antt =====
-- Runs of the continuity layer on small inputs.
use kanrin.Common.{
  ℕ, ◌+◌, ◌≡◌, ◌<◌, ◌⊎◌, refl, true, ◌||◌, ◌==◌, List, [], ◌∷◌, ◌++◌, none, some, arith, length,
  if◌then◌else◌,
}
use kanrin.Common.SortedMap.{find, insert, remove, contains_key, keys}
use kanrin.Protocol.Error.{ok, err, send_buffer_full}
use kanrin.Protocol.Wire.Control
use kanrin.Protocol.Wire.Control.{SackRange}
use kanrin.Protocol.Continuity.SendBuffer.{SendBuffer, push, apply_ack, is_empty}
use kanrin.Protocol.Continuity.SendBuffer as Sender
use kanrin.Protocol.Continuity.SendBuffer.Bytes.{
  Released, push-IsValid, new-IsValid, apply_ack-Released, push_cases,
}
use kanrin.Protocol.Continuity.SendBuffer.Acks.{acked, find-apply_ack}
use kanrin.Protocol.Continuity.ReceiveBuffer as Receiver
use kanrin.Protocol.Continuity.ReceiveBuffer.{
  ReceiveBuffer, Received, ready, buffered, accept, hold, deliver, unblock, push_ready, build_ack,
  sack_ranges, coalesce,
}
use kanrin.Protocol.Continuity.ReceiveBuffer.Inv.{IsValid, accept-IsValid}
use kanrin.Protocol.Continuity.ReceiveBuffer.Progress.{received}
use kanrin.Protocol.Continuity.ReceiveBuffer.Stream.{Event, arrive, drain, run, prefix, run-prefix}
use kanrin.Protocol.Continuity.ReceiveBuffer.Ack.{decode-encode-build_ack}

-- The payload of a sequence is its number.
abbrev stream : ℕ → List ℕ
stream k = k ∷ []

-- Two chunks sent, the later one arrived.
abbrev sent_one : SendBuffer
sent_one = record { chunks = (0, 50 ∷ []) ∷ []; buffered_bytes = 1; max_bytes = 100 }

abbrev sent_two : SendBuffer
sent_two = record {
  chunks = (0, 50 ∷ []) ∷ (1, 60 ∷ 61 ∷ []) ∷ [];
  buffered_bytes = 3;
  max_bytes = 100;
}

abbrev holding : ReceiveBuffer
holding = record {
  next_expected = 0;
  pending = (1, 1 ∷ []) ∷ [];
  ready = [];
  buffered_bytes = 1;
  max_bytes = 100;
}

push-first : push (Sender.new 100) 0 (50 ∷ []) ≡ ok sent_one
unfolding Sender.new push is_empty insert find
push-first = refl

push-second : push sent_one 1 (60 ∷ 61 ∷ []) ≡ ok sent_two
unfolding push is_empty insert find
push-second = refl

accept-ahead : accept (Receiver.new 100) 1 (1 ∷ []) ≡ ok (buffered, holding)
unfolding Receiver.new accept hold insert find contains_key
accept-ahead = refl

abbrev events : List Event
events = arrive 1 (1 ∷ []) ∷ arrive 0 (0 ∷ []) ∷ drain ∷ arrive 0 (0 ∷ []) ∷ []

run-prefix_example :
    IsValid (run (Receiver.new 4) events).1
    × ((run (Receiver.new 4) events).0 ++ (run (Receiver.new 4) events).1.ready
        ≡ prefix stream (run (Receiver.new 4) events).1.next_expected)
run-prefix_example =
    run-prefix stream 4 events
      ((omega arith, refl), ((omega arith, refl), (tt, ((omega arith, refl), tt))))

sent_two-IsValid : Sender.Bytes.IsValid sent_two
sent_two-IsValid =
    push-IsValid sent_one 1 (60 ∷ 61 ∷ []) {b' = sent_two}
      (push-IsValid (Sender.new 100) 0 (50 ∷ []) {b' = sent_one} (new-IsValid 100) (omega arith)
        push-first)
      (omega arith) push-second

holding-IsValid : IsValid holding
holding-IsValid =
    accept-IsValid (Receiver.new 100) 1 (1 ∷ []) {result = buffered} {r' = holding}
      (Receiver.Inv.new-IsValid 100) (omega arith) accept-ahead

abbrev ranges : List SackRange
ranges = record { start = 1; end = 1 } ∷ []

find-apply_ack_example :
    find 0 (apply_ack sent_two 0 ranges).1.chunks
    ≡ (if acked 0 ranges 0 then none else find 0 sent_two.chunks)
find-apply_ack_example = find-apply_ack sent_two 0 ranges 0 sent_two-IsValid (omega arith)

apply_ack-Released_example : Released sent_two (apply_ack sent_two 0 ranges)
apply_ack-Released_example = apply_ack-Released sent_two 0 ranges sent_two-IsValid

abbrev bytes : List ℕ
bytes = 9 ∷ []

push_cases_example :
    ((0 < length sent_two.chunks)
      × (100 < 3 + length bytes)
      × (push sent_two 2 bytes ≡ err (send_buffer_full 3 100)))
    ⊎ ((b' : SendBuffer) × (push sent_two 2 bytes ≡ ok b')
        × Sender.Bytes.IsValid b'
        × (b'.max_bytes ≡ 100)
        × ((k : ℕ) → find k b'.chunks ≡ (if 2 == k then some bytes else find k sent_two.chunks)))
push_cases_example = push_cases sent_two 2 bytes sent_two-IsValid (omega arith)

abbrev caught_up : ReceiveBuffer
caught_up = record {
  next_expected = 2;
  pending = [];
  ready = (0 ∷ []) ∷ (1 ∷ []) ∷ [];
  buffered_bytes = 0;
  max_bytes = 100;
}

accept-missing : accept holding 0 (0 ∷ []) ≡ ok (ready, caught_up)
unfolding accept deliver unblock push_ready find remove contains_key
accept-missing = refl

caught_up-IsValid : IsValid caught_up
caught_up-IsValid =
    accept-IsValid holding 0 (0 ∷ []) {result = ready} {r' = caught_up} holding-IsValid
      (omega arith) accept-missing

accept-IsValid_example : IsValid caught_up
accept-IsValid_example =
    accept-IsValid holding 0 (0 ∷ []) {result = ready} {r' = caught_up} holding-IsValid
      (omega arith) accept-missing

received-pending : (received 1 holding || (0 == 1)) ≡ true
unfolding contains_key
received-pending = refl

caught_up-received : (k : ℕ) → k < 2 → received k caught_up ≡ true
caught_up-received k h = ground arith

decode-encode-build_ack_example :
    Control.decode (Control.encode (build_ack holding) ++ (9 ∷ [])) ≡ ok (build_ack holding)
decode-encode-build_ack_example = decode-encode-build_ack holding holding-IsValid (9 ∷ [])

acked-pending : acked holding.next_expected (sack_ranges (keys holding.pending)) 1 ≡ true
unfolding sack_ranges coalesce keys
acked-pending = refl

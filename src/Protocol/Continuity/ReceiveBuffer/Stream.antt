-- ===== src/Protocol/Continuity/ReceiveBuffer/Stream.antt =====
-- The receive buffer against the sender's stream: what it delivers is the stream, in order, each
-- payload once, however the chunks arrive.
use kanrin.Common.{
  ℕ, zero, suc, ◌-◌, ◌<◌, ◌≡◌, refl, sym, ◌∙◌, List, [], ◌∷◌, ◌++◌, some, arith, length,
  Option-cases, inl, inr, All, append_assoc, append-nil,
}
use kanrin.Common.SortedMap.{Map, find, insert, remove}
use kanrin.Common.Word.{add_u64}
use kanrin.Protocol.Error.{Result, ok, err, panic}
use kanrin.Protocol.Continuity.ReceiveBuffer.{
  ReceiveBuffer, Received, new, push_ready, unblock, deliver, accept, drain_ready,
}
use kanrin.Protocol.Continuity.ReceiveBuffer.Inv.{
  IsValid, IsOpen, max_sequence, unblock-IsOpen, push_ready-IsOpen, accept-IsValid,
  drain_ready-IsValid, new-IsValid, From-lt,
}

-- What reaches the buffer and what is asked of it: a decrypted chunk, or a call of `drain_ready`.
pub data Event : Type 0 where
  arrive : (sequence : ℕ) (payload : List ℕ) → Event
  drain : Event

-- A refused chunk is dropped, and changes nothing.
after_accept : ReceiveBuffer → Result (Received × ReceiveBuffer) → ReceiveBuffer
after_accept r (ok (result, r')) = r'
after_accept r (err e) = r
after_accept r panic = r

-- What one event delivers, and the buffer after it.
unfoldable pub handle : ReceiveBuffer → Event → List (List ℕ) × ReceiveBuffer
unfolding after_accept
handle r (arrive sequence payload) = ([], after_accept r (accept r sequence payload))
handle r drain = drain_ready r

unfoldable pub run : ReceiveBuffer → List Event → List (List ℕ) × ReceiveBuffer
run r [] = ([], r)
run r (e ∷ es) = let (out, r') = handle r e in let (outs, r'') = run r' es in (out ++ outs, r'')

-- `stream k` is the payload that the sender gave the sequence `k`.
module _ (stream : ℕ → List ℕ) where
  pub prefix : ℕ → List (List ℕ)
  prefix zero = []
  prefix (suc n) = prefix n ++ (stream n ∷ [])

  -- The event carries what the sender sent.
  abbrev pub IsAuthentic : Event → Type 0
  IsAuthentic (arrive sequence payload) = (sequence < max_sequence) × (payload ≡ stream sequence)
  IsAuthentic drain = Unit {0}

  -- Everything that was delivered or is ready is the stream up to the cursor, and what is held
  -- belongs to it.
  pub record Tracks (delivered : List (List ℕ)) (r : ReceiveBuffer) : Type 0 where
    pub whole : delivered ++ r.ready ≡ prefix r.next_expected
    pub held : All (λ e. e.1 ≡ stream e.0) r.pending

  held-find :
      (m : Map (List ℕ)) (k : ℕ) (v : List ℕ)
      → All (λ e. e.1 ≡ stream e.0) m
      → find k m ≡ some v
      → v ≡ stream k
  unfolding find
  held-find [] k v h e = cc
  held-find ((j, w) ∷ m) k v h e = ground (arith, held-find m k v h.1)

  held-remove :
      (m : Map (List ℕ)) (k : ℕ)
      → All (λ e. e.1 ≡ stream e.0) m
      → All (λ e. e.1 ≡ stream e.0) (remove k m)
  unfolding remove
  held-remove [] k h = tt
  held-remove ((j, w) ∷ m) k h = ground (arith, held-remove m k h.1)

  held-insert :
      (m : Map (List ℕ)) (k : ℕ) (v : List ℕ)
      → All (λ e. e.1 ≡ stream e.0) m
      → v ≡ stream k
      → All (λ e. e.1 ≡ stream e.0) (insert k v m)
  unfolding insert
  held-insert [] k v h e = (e, tt)
  held-insert ((j, w) ∷ m) k v h e = ground (arith, held-insert m k v h.1 e)

  prefix-next : (n : ℕ) → n < max_sequence → prefix (add_u64 n 1) ≡ prefix n ++ (stream n ∷ [])
  unfolding prefix
  prefix-next n room = let next : add_u64 n 1 ≡ suc n = omega arith in rw next refl

  push_ready-Tracks :
      (out : List (List ℕ)) (r : ReceiveBuffer) (v : List ℕ)
      → Tracks out r
      → r.next_expected < max_sequence
      → v ≡ stream r.next_expected
      → Tracks out (push_ready r v)
  unfolding push_ready
  push_ready-Tracks out r v t room e = record {
    whole =
        sym (append_assoc out r.ready (v ∷ []))
        ∙ rw (t.whole, e) (sym (prefix-next r.next_expected room));
    held = t.held;
  }

  unblock-Tracks :
      (out : List (List ℕ)) (r : ReceiveBuffer) (v : List ℕ)
      → Tracks out r
      → IsOpen r
      → find r.next_expected r.pending ≡ some v
      → Tracks out (unblock r v)
  unfolding unblock
  unblock-Tracks out r v t h e =
      push_ready-Tracks out
        (record r {
          pending = remove r.next_expected r.pending;
          buffered_bytes = r.buffered_bytes - length v;
        })
        v (record { whole = t.whole; held = held-remove r.pending r.next_expected t.held })
        (From-lt r.next_expected max_sequence r.pending v h.wide e)
        (held-find r.pending r.next_expected v t.held e)

  deliver-Tracks :
      (out : List (List ℕ)) (fuel : ℕ) (r : ReceiveBuffer)
      → Tracks out r
      → IsOpen r
      → Tracks out (deliver fuel r)
  unfolding deliver
  deliver-Tracks out zero r t h = t
  deliver-Tracks out (suc fuel) r t h = elim (Option-cases (find r.next_expected r.pending)) [
    | inl e ↦ rw (e, deliver) t
    | inr (v, e) ↦
        rw (e, deliver)
          (deliver-Tracks out fuel (unblock r v) (unblock-Tracks out r v t h e)
            (unblock-IsOpen r v h e))
  ]

  accept-Tracks :
      (out : List (List ℕ)) (r : ReceiveBuffer) (k : ℕ) (v : List ℕ) {result : Received}
      {r' : ReceiveBuffer}
      → Tracks out r
      → IsValid r
      → IsAuthentic (arrive k v)
      → accept r k v ≡ ok (result, r')
      → Tracks out r'
  unfolding accept
  accept-Tracks out r k v {result} {r'} t h genuine e = ground (
    arith,
    held-insert r.pending k v t.held genuine.1,
    push_ready-Tracks out r v t,
    push_ready-IsOpen r v h,
    deliver-Tracks out (length r.pending) (push_ready r v),
  )

  drain_ready-Tracks :
      (out : List (List ℕ)) (r : ReceiveBuffer)
      → Tracks out r
      → Tracks (out ++ r.ready) (drain_ready r).1
  unfolding drain_ready
  drain_ready-Tracks out r t = record {
    whole = append-nil (out ++ r.ready) ∙ t.whole;
    held = t.held;
  }

  handle-arrive :
      (out : List (List ℕ)) (r : ReceiveBuffer) (k : ℕ) (v : List ℕ)
      → Tracks out r
      → IsValid r
      → IsAuthentic (arrive k v)
      → IsValid (handle r (arrive k v)).1 × Tracks out (handle r (arrive k v)).1
  unfolding handle
  handle-arrive out r k v t h genuine = go (accept r k v) refl
    where
      go :
          (a : Result (Received × ReceiveBuffer))
          → accept r k v ≡ a
          → IsValid (after_accept r a) × Tracks out (after_accept r a)
      go (ok (result, r')) e =
          (accept-IsValid r k v h genuine.0 e, accept-Tracks out r k v t h genuine e)
      go (err x) e = (h, t)
      go panic e = (h, t)

  run-Tracks :
      (out : List (List ℕ)) (r : ReceiveBuffer) (es : List Event)
      → Tracks out r
      → IsValid r
      → All IsAuthentic es
      → IsValid (run r es).1 × Tracks (out ++ (run r es).0) (run r es).1
  unfolding run handle drain_ready
  run-Tracks out r [] t h genuine = rw append-nil (h, t)
  run-Tracks out r (arrive k v ∷ es) t h genuine =
      let (h', t') = handle-arrive out r k v t h genuine.0 in
      let (h'', t'') = run-Tracks out (handle r (arrive k v)).1 es t' h' genuine.1 in (h'', t'')
  run-Tracks out r (drain ∷ es) t h genuine =
      let r' = (drain_ready r).1 in
      let (h'', t'') =
        run-Tracks (out ++ r.ready) r' es (drain_ready-Tracks out r t) (drain_ready-IsValid r h)
          genuine.1 in
      (h'', rw append_assoc at t'')

  -- For any list of drains and arrivals of a stream, each with a sequence below 2^64 - 1 and in any
  -- order and number, from a new receive buffer, the payloads taken and those ready together are
  -- the stream up to the cursor, in order and each once, and the buffer is valid.
  pub run-prefix :
      (max_bytes : ℕ) (es : List Event)
      → All IsAuthentic es
      → IsValid (run (new max_bytes) es).1
        × ((run (new max_bytes) es).0 ++ (run (new max_bytes) es).1.ready
            ≡ prefix (run (new max_bytes) es).1.next_expected)
  run-prefix max_bytes es genuine =
      let start : Tracks [] (new max_bytes) =
        unfold new prefix in record { whole = refl; held = tt } in
      let (h, t) = run-Tracks [] (new max_bytes) es start (new-IsValid max_bytes) genuine in
      (h, t.whole)

-- ===== src/Server/FrontDoor/SingleUse.antt =====
-- A token enters the tunnel only with the right authenticator and in its window, and once.
use kanrin.Common.{
  ℕ, ◌+◌, ◌≡◌, ◌≤◌, ◌<◌, ◌⊎◌, ◌↔◌, refl, sym, true, false, Bool-cases, Option-cases, inl, inr, List,
  [], ◌∷◌, ◌++◌, some, ltb, leb, arith,
}
use mathlib.Core.Path.{subst}
use kanrin.Common.Table.{same_bytes_refl}
use kanrin.Protocol.Crypto.{Primitives, constant_time_eq}
use kanrin.Protocol.Crypto.Compare.{constant_time_eq_iff}
use kanrin.Server.Http.{RequestHead}
use kanrin.Server.FrontDoor.{
  web, tunnel, Token, Admitter, clock_gap, retain_seen, has_nonce, spend, compute, admit_token,
  admit, read_token,
}

-- The token is among those that are remembered.
Spent : Token → List (ℕ × List ℕ) → Type 0
Spent c [] = ⊥
Spent c ((t, n) ∷ seen) = ((t ≡ c.timestamp) × (n ≡ c.nonce)) ⊎ Spent c seen

-- It is spent, or too old for good.
record Used (c : Token) (a : Admitter) (now : ℕ) : Type 0 where
  reached : c.timestamp ≤ now + a.max_age
  used : (c.timestamp + a.max_age < now) ⊎ Spent c a.seen

retain_seen-Spent :
    (c : Token) (max_age now : ℕ) (seen : List (ℕ × List ℕ))
    → clock_gap now c.timestamp ≤ max_age
    → Spent c seen
    → Spent c (retain_seen max_age now seen)
unfolding Spent retain_seen
retain_seen-Spent c max_age now [] near s = s
retain_seen-Spent c max_age now ((t, n) ∷ seen) near (inl same) =
    let here : leb (clock_gap now t) max_age ≡ true = ground (arith, same) in rw here (inl same)
retain_seen-Spent c max_age now ((t, n) ∷ seen) near (inr s) =
    let rest = retain_seen-Spent c max_age now seen near s in
    elim (Bool-cases (leb (clock_gap now t) max_age)) [
      | inl stays ↦ rw stays (inr rest)
      | inr goes ↦ rw goes rest
    ]

append-Spent : (c : Token) (seen more : List (ℕ × List ℕ)) → Spent c seen → Spent c (seen ++ more)
unfolding Spent
append-Spent c [] more s = absurd s
append-Spent c (entry ∷ seen) more (inl same) = inl same
append-Spent c (entry ∷ seen) more (inr s) = inr (append-Spent c seen more s)

last-Spent :
    (c : Token) (seen : List (ℕ × List ℕ)) → Spent c (seen ++ ((c.timestamp, c.nonce) ∷ []))
unfolding Spent
last-Spent c [] = inl (refl, refl)
last-Spent c (entry ∷ seen) = inr (last-Spent c seen)

has_nonce-Spent :
    (c : Token) (seen : List (ℕ × List ℕ)) → Spent c seen → has_nonce c.nonce seen ≡ true
unfolding Spent has_nonce
has_nonce-Spent c [] s = absurd s
has_nonce-Spent c ((t, n) ∷ seen) (inl (_, same)) = ground (arith, same, same_bytes_refl c.nonce)
has_nonce-Spent c ((t, n) ∷ seen) (inr s) = ground (arith, has_nonce-Spent c seen s)

-- Spending any token keeps those that are spent.
spend-Used :
    (c d : Token) (a : Admitter) (now later : ℕ)
    → now ≤ later
    → Used c a now
    → Used c (spend a d later).1 later
unfolding spend
spend-Used c d a now later h v =
    let seen = retain_seen a.max_age later a.seen in
    let still : (c.timestamp + a.max_age < later) ⊎ Spent c seen = elim v.used [
      | inl old ↦ inl (omega (arith, h))
      | inr s ↦ elim (Bool-cases (ltb (c.timestamp + a.max_age) later)) [
        | inl old ↦ inl (ground arith)
        | inr young ↦
            inr (retain_seen-Spent c a.max_age later a.seen (ground (arith, v.reached, h, young)) s)
      ]
    ] in
    elim (Bool-cases (has_nonce d.nonce seen)) [
      | inl known ↦
          rw (spend, known) (record { reached = omega (arith, v.reached, h); used = still })
      | inr fresh ↦
          rw (spend, fresh)
            (record {
              reached = omega (arith, v.reached, h);
              used = elim still [
                | inl old ↦ inl old
                | inr s ↦ inr (append-Spent c seen ((d.timestamp, d.nonce) ∷ []) s)
              ];
            })
    ]

later-Used :
    (c : Token) (a : Admitter) (now later : ℕ) → now ≤ later → Used c a now → Used c a later
later-Used c a now later h v = record {
  reached = omega (arith, v.reached, h);
  used = elim v.used [ inl old ↦ inl (omega (arith, h)) | inr s ↦ inr s ];
}

module _ (prim : Primitives) where
  admit_token-Used :
      (c d : Token) (a : Admitter) (now later : ℕ)
      → now ≤ later
      → Used c a now
      → Used c (admit_token prim a d later).1 later
  unfolding admit_token
  admit_token-Used c d a now later h v =
      elim (Bool-cases (ltb a.max_age (clock_gap later d.timestamp))) [
        | inl stale ↦ rw (admit_token, stale) (later-Used c a now later h v)
        | inr near ↦
            elim (Bool-cases (constant_time_eq prim (compute prim a d.timestamp d.nonce) d.mac)) [
              | inl right ↦ rw (admit_token, near, right) (spend-Used c d a now later h v)
              | inr wrong ↦ rw (admit_token, near, wrong) (later-Used c a now later h v)
            ]
      ]

  -- A request without a token that reads changes nothing.
  admit-Used :
      (c : Token) (head : RequestHead) (a : Admitter) (now later : ℕ)
      → now ≤ later
      → Used c a now
      → Used c (admit prim a head later).1 later
  unfolding admit
  admit-Used c head a now later h v = elim (Option-cases (read_token head)) [
    | inl absent ↦ rw (admit, absent) (later-Used c a now later h v)
    | inr (d, read) ↦ rw (admit, read) (admit_token-Used c d a now later h v)
  ]

  -- Requests one after another, each with how long after the one before it comes.
  pub admit_all : Admitter → (now : ℕ) → List (ℕ × RequestHead) → Admitter × ℕ
  admit_all a now [] = (a, now)
  admit_all a now ((wait, head) ∷ more) =
      admit_all (admit prim a head (now + wait)).1 (now + wait) more

  admit_all-Used :
      (c : Token) (a : Admitter) (now : ℕ) (requests : List (ℕ × RequestHead))
      → Used c a now
      → Used c (admit_all a now requests).0 (admit_all a now requests).1
  unfolding admit_all
  admit_all-Used c a now [] v = v
  admit_all-Used c a now ((wait, head) ∷ more) v =
      admit_all-Used c (admit prim a head (now + wait)).1 (now + wait) more
        (admit-Used c head a now (now + wait) (omega arith) v)

  pub admit_token_iff :
      (a : Admitter) (c : Token) (now : ℕ)
      → ((admit_token prim a c now).0 ≡ tunnel) ↔ (
          (clock_gap now c.timestamp ≤ a.max_age)
          × (compute prim a c.timestamp c.nonce ≡ c.mac)
          × (has_nonce c.nonce (retain_seen a.max_age now a.seen) ≡ false))
  unfolding admit_token spend
  admit_token_iff a c now =
      ground (arith, constant_time_eq_iff prim (compute prim a c.timestamp c.nonce) c.mac)

  admit_token-web :
      (c : Token) (a : Admitter) (now : ℕ) → Used c a now → (admit_token prim a c now).0 ≡ web
  unfolding admit_token spend
  admit_token-web c a now v = elim v.used [
    | inl old ↦ ground arith
    | inr s ↦ elim (Bool-cases (leb (clock_gap now c.timestamp) a.max_age)) [
      | inl near ↦ ground (
        arith,
        near,
        has_nonce-Spent c _ (retain_seen-Spent c a.max_age now a.seen (ground (arith, near)) s),
      )
      | inr far ↦ ground (arith, far)
    ]
  ]

  admit_token-spent :
      (a : Admitter) (c : Token) (now : ℕ)
      → (admit_token prim a c now).0 ≡ tunnel
      → Used c (admit_token prim a c now).1 now
  unfolding admit_token spend
  admit_token-spent a c now e =
      let kept = retain_seen a.max_age now a.seen in
      let after : Admitter = record a { seen = kept ++ ((c.timestamp, c.nonce) ∷ []) } in
      let moved : (admit_token prim a c now).1 ≡ after = ground (arith, e) in
      let near : clock_gap now c.timestamp ≤ a.max_age = ground (arith, e) in
      subst (λ b. Used c b now) (sym moved)
        (record { reached = omega (arith, near); used = inr (last-Spent c kept) })

  -- A token that one request entered the tunnel with enters it no second time: after any requests
  -- between, at times that do not go back, a request with the same token is served as an ordinary
  -- one.
  pub admit-once :
      (a : Admitter) (first second : RequestHead) (c : Token) (now wait : ℕ)
      (between : List (ℕ × RequestHead))
      → read_token first ≡ some c
      → read_token second ≡ some c
      → (admit prim a first now).0 ≡ tunnel
      → let (b, later) = admit_all (admit prim a first now).1 now between in
        (admit prim b second (later + wait)).0 ≡ web
  unfolding admit
  admit-once a first second c now wait between e f admitted =
      let entered : admit prim a first now ≡ admit_token prim a c now = ground (arith, e) in
      let used : Used c (admit prim a first now).1 now =
        rw entered (admit_token-spent a c now (rw entered at admitted)) in
      let (b, later) = admit_all (admit prim a first now).1 now between in
      let again : admit prim b second (later + wait) ≡ admit_token prim b c (later + wait) =
        ground (arith, f) in
      rw again (
        admit_token-web c b (later + wait) (
          later-Used c b later (later + wait) (omega arith)
            (admit_all-Used c (admit prim a first now).1 now between used)))

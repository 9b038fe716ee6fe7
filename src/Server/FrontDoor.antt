-- ===== src/Server/FrontDoor.antt =====
-- crates/kanrin-server/src/frontdoor.rs: which requests enter the tunnel, and when they are answered.
-- Times are numbers of seconds in the admission and of nanoseconds in the timer; the clock and the
-- random bytes are arguments.
pub mod SingleUse
pub mod Timing
mod Tests
use kanrin.Common.{
  ℕ, ◌+◌, ◌-◌, ◌*◌, ◌%◌, ◌^◌, Bool, true, false, ◌||◌, not, List, [], ◌∷◌, ◌++◌, Option, none, some,
  ltb, leb, ◌==◌, if◌then◌else◌, length,
}
use kanrin.Common.Bytes.{to_be}
use kanrin.Common.Table.{same_bytes}
use kanrin.Common.Text.{split_on, split_once, trim, from_hex}
use kanrin.Protocol.Crypto.{Primitives, mac_sha256, constant_time_eq}
use kanrin.Server.Http.{RequestHead, header}

-- "sid", "cookie", "kanrin-frontdoor" and "kanrin-admit"
abbrev auth_cookie : List ℕ
auth_cookie = 115 ∷ 105 ∷ 100 ∷ []

abbrev cookie_name : List ℕ
cookie_name = 99 ∷ 111 ∷ 111 ∷ 107 ∷ 105 ∷ 101 ∷ []

abbrev frontdoor_label : List ℕ
frontdoor_label =
    107 ∷ 97 ∷ 110 ∷ 114 ∷ 105 ∷ 110 ∷ 45 ∷ 102 ∷ 114 ∷ 111 ∷ 110 ∷ 116 ∷ 100 ∷ 111 ∷ 111 ∷ 114 ∷ []

abbrev admit_label : List ℕ
admit_label = 107 ∷ 97 ∷ 110 ∷ 114 ∷ 105 ∷ 110 ∷ 45 ∷ 97 ∷ 100 ∷ 109 ∷ 105 ∷ 116 ∷ []

abbrev zeros_32 : List ℕ
zeros_32 =
    0 ∷ 0 ∷ 0 ∷ 0 ∷ 0 ∷ 0 ∷ 0 ∷ 0 ∷ 0 ∷ 0 ∷ 0 ∷ 0 ∷ 0 ∷ 0 ∷ 0 ∷ 0 ∷ 0 ∷ 0 ∷ 0 ∷ 0 ∷ 0 ∷ 0 ∷ 0 ∷ 0
    ∷ 0 ∷ 0 ∷ 0 ∷ 0 ∷ 0 ∷ 0 ∷ 0 ∷ 0 ∷ []

pub data Admission : Type 0 where
  web tunnel : Admission

-- What a token says, once it is read.
pub record Token : Type 0 where
  pub timestamp : ℕ
  pub nonce : List ℕ
  pub mac : List ℕ

pub record Admitter : Type 0 where
  pub key : List ℕ
  pub max_age : ℕ
  pub seen : List (ℕ × List ℕ)

unhex_pairs : List ℕ → Option (List ℕ)
unhex_pairs [] = some []
unhex_pairs (a ∷ []) = none
unhex_pairs (a ∷ (b ∷ s)) = elim (from_hex 255 (a ∷ b ∷ [])) [
  | none ↦ none
  | some byte ↦ elim (unhex_pairs s) [ none ↦ none | some out ↦ some (byte ∷ out) ]
]

unhex : (n : ℕ) → List ℕ → Option (List ℕ)
unfolding unhex_pairs
unhex n s = if not (length s == n * 2) then none else unhex_pairs s

-- The fields of a token, all of which must be read.
token_of : Option ℕ → (nonce mac : Option (List ℕ)) → Option Token
token_of (some timestamp) (some nonce) (some mac) =
    some (record { timestamp = timestamp; nonce = nonce; mac = mac })
token_of _ _ _ = none

token_parts : List (List ℕ) → Option Token
unfolding unhex token_of
token_parts (ts ∷ (nonce ∷ (mac ∷ []))) =
    token_of (from_hex (2 ^ 64 - 1) ts) (unhex 16 nonce) (unhex 32 mac)
token_parts _ = none

pub parse_token : (token : List ℕ) → Option Token
unfolding token_parts
parse_token token = token_parts (split_on 58 token)

-- The first of the pairs with this name.
find_cookie : (name : List ℕ) → List (List ℕ) → Option (List ℕ)
find_cookie name [] = none
find_cookie name (pair ∷ pairs) =
    let rest = find_cookie name pairs in
    elim (split_once 61 pair) [
      | none ↦ rest
      | some (k, v) ↦ if same_bytes (trim k) name then some (trim v) else rest
    ]

pub cookie_value : (header name : List ℕ) → Option (List ℕ)
unfolding find_cookie
cookie_value header name = find_cookie name (split_on 59 header)

-- `head.header("cookie").unwrap_or("")`
cookie_header : RequestHead → List ℕ
cookie_header head = elim (header head cookie_name) [ none ↦ [] | some value ↦ value ]

-- The token of a request, if it has one that reads.
pub read_token : RequestHead → Option Token
unfolding cookie_header
read_token head = elim (cookie_value (cookie_header head) auth_cookie) [
  | none ↦ none
  | some token ↦ parse_token token
]

abbrev pub clock_gap : ℕ → ℕ → ℕ
clock_gap a b = (a - b) + (b - a)

pub retain_seen : (max_age now : ℕ) → List (ℕ × List ℕ) → List (ℕ × List ℕ)
retain_seen max_age now [] = []
retain_seen max_age now ((t, n) ∷ seen) =
    let rest = retain_seen max_age now seen in
    if leb (clock_gap now t) max_age then (t, n) ∷ rest else rest

pub has_nonce : List ℕ → List (ℕ × List ℕ) → Bool
has_nonce nonce [] = false
has_nonce nonce ((t, n) ∷ seen) = same_bytes n nonce || has_nonce nonce seen

-- A valid token is spent, unless it was spent before.
spend : Admitter → Token → (now : ℕ) → Admission × Admitter
unfolding retain_seen has_nonce
spend a c now =
    let seen = retain_seen a.max_age now a.seen in
    if has_nonce c.nonce seen
    then (web, record a { seen = seen })
    else (tunnel, record a { seen = seen ++ ((c.timestamp, c.nonce) ∷ []) })

module _ (prim : Primitives) where
  new_admitter : (password : List ℕ) → Admitter
  new_admitter password = record {
    key = mac_sha256 prim zeros_32 (frontdoor_label ∷ password ∷ []);
    max_age = 120;
    seen = [];
  }

  pub compute : Admitter → (timestamp : ℕ) (nonce : List ℕ) → List ℕ
  compute a timestamp nonce = mac_sha256 prim a.key (admit_label ∷ to_be 8 timestamp ∷ nonce ∷ [])

  -- The rest of `admit`, behind the reading of the token.
  pub admit_token : Admitter → Token → (now : ℕ) → Admission × Admitter
  unfolding spend
  admit_token a c now =
      if ltb a.max_age (clock_gap now c.timestamp)
      then (web, a)
      else if not (constant_time_eq prim (compute a c.timestamp c.nonce) c.mac)
      then (web, a)
      else spend a c now

  pub admit : Admitter → RequestHead → (now : ℕ) → Admission × Admitter
  admit a head now = elim (read_token head) [ none ↦ (web, a) | some c ↦ admit_token a c now ]

pub record ResponseTimer : Type 0 where
  pub started : ℕ
  pub target : ℕ

abbrev pub response_floor : ℕ
response_floor = 25 * 1000000

abbrev pub response_jitter : ℕ
response_jitter = 15 * 1000000

-- `random` is what `rand::random::<u64>()` gives. The nanoseconds of the jitter are cut to a `u64`.
pub with_floor : (floor jitter random now : ℕ) → ResponseTimer
with_floor floor jitter random now = record {
  started = now;
  target = floor + (if jitter == 0 then 0 else random % (jitter % 2 ^ 64));
}

pub start : (random now : ℕ) → ResponseTimer
unfolding with_floor
start random now = with_floor response_floor response_jitter random now

-- What is still owed; it stops at zero.
pub remaining : ResponseTimer → (now : ℕ) → ℕ
remaining t now = t.target - (now - t.started)

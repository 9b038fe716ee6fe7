-- ===== src/Server/FrontDoor/Tests.antt =====
-- Runs of the front door over the toy primitives.
use kanrin.Common.{ℕ, ◌≡◌, ◌+◌, refl, List, [], ◌∷◌, ◌++◌, some, arith}
use kanrin.Common.Table.{same_bytes}
use kanrin.Common.Assoc.{get}
use kanrin.Common.Text.{trim, split_on, split_once, grow, from_hex}
use kanrin.Protocol.Crypto.{mac_sha256}
use kanrin.Protocol.Crypto.Tests.{toy, tag}
use kanrin.Server.Http.{RequestHead, header}
use kanrin.Server.FrontDoor.{
  Token, Admitter, web, tunnel, retain_seen, has_nonce, compute, admit, read_token, cookie_header,
  cookie_value, find_cookie, parse_token, token_parts, token_of, unhex, unhex_pairs,
}
use kanrin.Server.FrontDoor.SingleUse.{admit_all, admit-once, admit_token_iff}

abbrev admitter : Admitter
admitter = record { key = tag ++ tag; max_age = 120; seen = [] }

abbrev token : Token
token = record { timestamp = 1000; nonce = tag; mac = tag ++ tag }

-- "0" as often as in sixteen bytes.
abbrev zeros : List ℕ
zeros =
    48 ∷ 48 ∷ 48 ∷ 48 ∷ 48 ∷ 48 ∷ 48 ∷ 48 ∷ 48 ∷ 48 ∷ 48 ∷ 48 ∷ 48 ∷ 48 ∷ 48 ∷ 48 ∷ 48 ∷ 48 ∷ 48
    ∷ 48 ∷ 48 ∷ 48 ∷ 48 ∷ 48 ∷ 48 ∷ 48 ∷ 48 ∷ 48 ∷ 48 ∷ 48 ∷ 48 ∷ 48 ∷ []

-- "sid=3e8:", the nonce and the mac.
abbrev cookie : List ℕ
cookie = 115 ∷ 105 ∷ 100 ∷ 61 ∷ 51 ∷ 101 ∷ 56 ∷ 58 ∷ (zeros ++ (58 ∷ (zeros ++ zeros)))

abbrev request : RequestHead
request = record {
  method = 71 ∷ 69 ∷ 84 ∷ [];
  target = 47 ∷ [];
  version = 72 ∷ [];
  headers = (99 ∷ 111 ∷ 111 ∷ 107 ∷ 105 ∷ 101 ∷ [], cookie) ∷ [];
  head_len = 0;
  raw = [];
}

reads : read_token request ≡ some token
unfolding read_token cookie_header header cookie_value find_cookie parse_token token_parts token_of
    unhex unhex_pairs split_on split_once grow from_hex get same_bytes trim
reads = refl

enters : (admit toy admitter request 1010).0 ≡ tunnel
unfolding admit compute mac_sha256 has_nonce retain_seen
enters =
    let accepted = (admit_token_iff toy admitter token 1010).1 (omega arith, refl, refl) in
    ground (arith, reads, accepted)

admit-once_example :
    (admit toy
      (admit_all toy (admit toy admitter request 1010).1 1010 ((5, request) ∷ [])).0
      request
      ((admit_all toy (admit toy admitter request 1010).1 1010 ((5, request) ∷ [])).1 + 3)).0
    ≡ web
admit-once_example =
    admit-once toy admitter request request token 1010 3 ((5, request) ∷ []) reads reads enters

-- ===== src/Server/Http.antt =====
-- crates/kanrin-server/src/http.rs: the head of a request, responses, and the files that a path
-- names. Text is its UTF-8 bytes, and a file path the list of its components.
pub mod Framing
pub mod Paths
pub mod Response
mod Tests
use kanrin.Common.{
  ℕ, suc, ◌+◌, ◌*◌, Bool, true, false, ◌&&◌, ◌||◌, not, List, [], ◌∷◌, ◌++◌, Option, none, some,
  ltb, ◌==◌, if◌then◌else◌, length, take,
}
use kanrin.Common.Bytes.{slice?}
use kanrin.Common.Utf8.{is_utf8}
use kanrin.Common.Table.{same_bytes}
use kanrin.Common.Assoc.{Assoc, get, insert}
use kanrin.Common.Text.{
  split_on, split_lines, split_once, starts_with, contains, trim, to_ascii_lowercase, from_hex,
}

abbrev pub max_head_bytes : ℕ
max_head_bytes = 16 * 1024

pub record RequestHead : Type 0 where
  pub method : List ℕ
  pub target : List ℕ
  pub version : List ℕ
  pub headers : Assoc (List ℕ) (List ℕ)
  pub head_len : ℕ
  pub raw : List ℕ

pub data ParseError : Type 0 where
  incomplete malformed too_large : ParseError

-- `Result<A, ParseError>`
pub data Parsed (A : Type 0) : Type 0 where
  done : A → Parsed A
  failed : ParseError → Parsed A

-- "\r\n\r\n"
abbrev pub blank_line : List ℕ
blank_line = 13 ∷ 10 ∷ 13 ∷ 10 ∷ []

-- "HTTP/"
abbrev http_slash : List ℕ
http_slash = 72 ∷ 84 ∷ 84 ∷ 80 ∷ 47 ∷ []

-- `windows(4).position(…)`
pub find_head_end : List ℕ → Option ℕ
find_head_end [] = none
find_head_end (b ∷ bs) =
    let rest = find_head_end bs in
    if starts_with blank_line (b ∷ bs)
    then some 0
    else elim rest [ none ↦ none | some n ↦ some (suc n) ]

-- The three tokens of a request line.
request_line : List (List ℕ) → Option (List ℕ × List ℕ × List ℕ)
request_line (method ∷ (target ∷ (version ∷ []))) =
    if length method == 0 || (length target == 0) || (length version == 0)
    then none
    else if not (starts_with http_slash version)
    then none
    else some (method, target, version)
request_line _ = none

-- One line `name: value`.
header_line : Assoc (List ℕ) (List ℕ) → (line : List ℕ) → Option (Assoc (List ℕ) (List ℕ))
header_line headers line = if length line == 0 then some headers else elim (split_once 58 line) [
  | none ↦ none
  | some (name, value) ↦
      if length name == 0 || contains (32 ∷ []) name
      then none
      else some (insert same_bytes (to_ascii_lowercase name) (trim value) headers)
]

header_lines : Assoc (List ℕ) (List ℕ) → (lines : List (List ℕ)) → Option (Assoc (List ℕ) (List ℕ))
header_lines headers [] = some headers
header_lines headers (line ∷ lines) = elim (header_line headers line) [
  | none ↦ none
  | some more ↦ header_lines more lines
]

-- What the lines of a head say.
head_of : (head_len : ℕ) (raw : List ℕ) (lines : List (List ℕ)) → Parsed RequestHead
unfolding request_line header_lines header_line
head_of head_len raw [] = failed malformed
head_of head_len raw (line ∷ lines) = elim (request_line (split_on 32 line)) [
  | none ↦ failed malformed
  | some (method, target, version) ↦ elim (header_lines [] lines) [
    | none ↦ failed malformed
    | some headers ↦ done (record {
      method = method;
      target = target;
      version = version;
      headers = headers;
      head_len = head_len;
      raw = raw;
    })
  ]
]

-- The blank line is in the buffer, so that both slices are.
pub parse : List ℕ → Parsed RequestHead
unfolding head_of
parse buf = if ltb max_head_bytes (length buf) then failed too_large else elim (find_head_end buf) [
  | none ↦ failed incomplete
  | some head_end ↦
      if not (is_utf8 (take head_end buf))
      then failed malformed
      else head_of (head_end + 4) (take (head_end + 4) buf) (split_lines (take head_end buf))
]

unfoldable pub header : RequestHead → (name : List ℕ) → Option (List ℕ)
header h name = get same_bytes name h.headers

-- The target up to a question mark.
pub path : RequestHead → List ℕ
path h = elim (split_on 63 h.target) [ [] ↦ 47 ∷ [] | piece ∷ pieces ↦ piece ]

-- "connection", "close", "keep-alive" and "HTTP/1.0"
abbrev connection_name : List ℕ
connection_name = 99 ∷ 111 ∷ 110 ∷ 110 ∷ 101 ∷ 99 ∷ 116 ∷ 105 ∷ 111 ∷ 110 ∷ []

abbrev close_value : List ℕ
close_value = 99 ∷ 108 ∷ 111 ∷ 115 ∷ 101 ∷ []

abbrev keep_alive_value : List ℕ
keep_alive_value = 107 ∷ 101 ∷ 101 ∷ 112 ∷ 45 ∷ 97 ∷ 108 ∷ 105 ∷ 118 ∷ 101 ∷ []

abbrev http_1_0 : List ℕ
http_1_0 = 72 ∷ 84 ∷ 84 ∷ 80 ∷ 47 ∷ 49 ∷ 46 ∷ 48 ∷ []

eq_ignore_ascii_case : List ℕ → List ℕ → Bool
eq_ignore_ascii_case a b = same_bytes (to_ascii_lowercase a) (to_ascii_lowercase b)

pub wants_keep_alive : RequestHead → Bool
unfolding header eq_ignore_ascii_case
wants_keep_alive h =
    let by_version = not (same_bytes h.version http_1_0) in
    elim (header h connection_name) [
      | none ↦ by_version
      | some v ↦
          if eq_ignore_ascii_case v close_value
          then false
          else if eq_ignore_ascii_case v keep_alive_value
          then true
          else by_version
    ]

prepend : ℕ → Option (List ℕ) → Option (List ℕ)
prepend b none = none
prepend b (some bs) = some (b ∷ bs)

-- The loop of `percent_decode`. Both characters of an escape must be digits, or a sign and a digit.
decode_escapes : List ℕ → Option (List ℕ)
unfolding prepend
decode_escapes [] = some []
decode_escapes (b ∷ []) = if b == 37 then none else some (b ∷ [])
decode_escapes (b ∷ (c ∷ [])) = elim (b == 37) [
  | true ↦ none
  | false ↦ prepend b (decode_escapes (c ∷ []))
]
decode_escapes (b ∷ (c ∷ (d ∷ bs))) = elim (b == 37) [
  | true ↦ elim (from_hex 255 (c ∷ d ∷ [])) [ none ↦ none | some v ↦ prepend v (decode_escapes bs) ]
  | false ↦ prepend b (decode_escapes (c ∷ (d ∷ bs)))
]

pub percent_decode : List ℕ → Option (List ℕ)
unfolding decode_escapes
percent_decode input = elim (decode_escapes input) [
  | none ↦ none
  | some out ↦ if is_utf8 out then some out else none
]

-- `trim_start_matches('/')`
trim_slashes : List ℕ → List ℕ
trim_slashes [] = []
trim_slashes (b ∷ bs) = let rest = trim_slashes bs in if b == 47 then rest else b ∷ bs

-- "index.html"
abbrev pub index_file : List ℕ
index_file = 105 ∷ 110 ∷ 100 ∷ 101 ∷ 120 ∷ 46 ∷ 104 ∷ 116 ∷ 109 ∷ 108 ∷ []

pub is_refused : (segment : List ℕ) → Bool
is_refused segment =
    contains (46 ∷ 46 ∷ []) segment || contains (92 ∷ []) segment || contains (58 ∷ []) segment

-- The loop over the segments; empty ones and "." are passed over.
push_segments : (out : List (List ℕ)) (segments : List (List ℕ)) → Option (List (List ℕ))
unfolding is_refused
push_segments out [] = some out
push_segments out (segment ∷ segments) =
    elim (length segment == 0 || same_bytes segment (46 ∷ [])) [
      | true ↦ push_segments out segments
      | false ↦ elim (is_refused segment) [
        | true ↦ none
        | false ↦ push_segments (out ++ (segment ∷ [])) segments
      ]
    ]

-- `is_dir` is what the file system says.
module _ (is_dir : List (List ℕ) → Bool) where
  pub resolve_path : (root : List (List ℕ)) (request_path : List ℕ) → Option (List (List ℕ))
  unfolding percent_decode trim_slashes push_segments
  resolve_path root request_path = elim (percent_decode request_path) [
    | none ↦ none
    | some decoded ↦
        let trimmed = trim_slashes decoded in
        let relative = if length trimmed == 0 then index_file else trimmed in
        elim (push_segments root (split_on 47 relative)) [
          | none ↦ none
          | some out ↦ some (if is_dir out then out ++ (index_file ∷ []) else out)
        ]
  ]

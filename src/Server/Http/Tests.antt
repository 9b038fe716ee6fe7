-- ===== src/Server/Http/Tests.antt =====
-- Runs of the HTTP front end: "GET /a?b HTTP/1.1", and the path "/css/../x".
use kanrin.Common.{ℕ, ◌≡◌, refl, Bool, false, List, [], ◌∷◌, ◌++◌, none, some, All}
use kanrin.Common.Utf8.{is_utf8}
use kanrin.Common.Table.{same_bytes}
use kanrin.Common.Text.{split_on, split_lines, starts_with, contains, grow, from_hex}
use kanrin.Server.Http.{
  RequestHead, done, find_head_end, request_line, header_line, header_lines, head_of, parse, path,
  percent_decode, decode_escapes, prepend, trim_slashes, push_segments, is_refused, resolve_path,
}
use kanrin.Server.Http.Paths.{IsPlain, resolve_path-stays_below}

abbrev request : List ℕ
request =
    71 ∷ 69 ∷ 84 ∷ 32 ∷ 47 ∷ 97 ∷ 63 ∷ 98 ∷ 32 ∷ 72 ∷ 84 ∷ 84 ∷ 80 ∷ 47 ∷ 49 ∷ 46 ∷ 49 ∷ 13 ∷ 10
    ∷ 13 ∷ 10 ∷ []

abbrev head : RequestHead
head = record {
  method = 71 ∷ 69 ∷ 84 ∷ [];
  target = 47 ∷ 97 ∷ 63 ∷ 98 ∷ [];
  version = 72 ∷ 84 ∷ 84 ∷ 80 ∷ 47 ∷ 49 ∷ 46 ∷ 49 ∷ [];
  headers = [];
  head_len = 21;
  raw = request;
}

parses : parse request ≡ done head
unfolding parse find_head_end head_of request_line header_lines header_line starts_with split_on
    split_lines grow is_utf8
parses = refl

path_of : path head ≡ 47 ∷ 97 ∷ []
unfolding path split_on grow
path_of = refl

abbrev no_dirs : List (List ℕ) → Bool
no_dirs out = false

abbrev root : List (List ℕ)
root = (119 ∷ []) ∷ []

-- "/a%62"
abbrev escaped : List ℕ
escaped = 47 ∷ 97 ∷ 37 ∷ 54 ∷ 50 ∷ []

resolves : resolve_path no_dirs root escaped ≡ some (root ++ ((97 ∷ 98 ∷ []) ∷ []))
unfolding resolve_path percent_decode decode_escapes prepend trim_slashes push_segments is_refused
    split_on grow contains starts_with same_bytes is_utf8 from_hex
resolves = refl

climbs : resolve_path no_dirs root (47 ∷ 46 ∷ 37 ∷ 50 ∷ 69 ∷ []) ≡ none
unfolding resolve_path percent_decode decode_escapes prepend trim_slashes push_segments is_refused
    split_on grow contains starts_with same_bytes is_utf8 from_hex
climbs = refl

resolve_path-stays_below_example :
    (added : List (List ℕ)) × (root ++ ((97 ∷ 98 ∷ []) ∷ []) ≡ root ++ added) × All IsPlain added
resolve_path-stays_below_example =
    resolve_path-stays_below no_dirs root escaped (root ++ ((97 ∷ 98 ∷ []) ∷ [])) resolves

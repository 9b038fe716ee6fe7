-- ===== src/Server/Http/Response.antt =====
-- The responses of crates/kanrin-server/src/http.rs, and the lengths of bodies, in decimal digits.
pub mod Lengths
use kanrin.Common.{
  ℕ, zero, suc, ◌+◌, ◌-◌, ◌*◌, ◌/◌, ◌%◌, ◌^◌, Bool, true, false, ◌&&◌, not, List, [], ◌∷◌, ◌++◌,
  Option, none, some, ltb, ◌==◌, if◌then◌else◌, length,
}
use kanrin.Common.Assoc.{Assoc, get}
use kanrin.Common.Table.{same_bytes}
use kanrin.Common.Text.{to_ascii_lowercase}
use kanrin.Server.Http.{RequestHead, header}

abbrev status_line : List ℕ
status_line = 72 ∷ 84 ∷ 84 ∷ 80 ∷ 47 ∷ 49 ∷ 46 ∷ 49 ∷ 32 ∷ []

abbrev line_end : List ℕ
line_end = 13 ∷ 10 ∷ []

abbrev content_length_field : List ℕ
content_length_field =
    67 ∷ 111 ∷ 110 ∷ 116 ∷ 101 ∷ 110 ∷ 116 ∷ 45 ∷ 76 ∷ 101 ∷ 110 ∷ 103 ∷ 116 ∷ 104 ∷ 58 ∷ 32 ∷ []

abbrev content_length_name : List ℕ
content_length_name =
    99 ∷ 111 ∷ 110 ∷ 116 ∷ 101 ∷ 110 ∷ 116 ∷ 45 ∷ 108 ∷ 101 ∷ 110 ∷ 103 ∷ 116 ∷ 104 ∷ []

abbrev not_found_reason : List ℕ
not_found_reason = 78 ∷ 111 ∷ 116 ∷ 32 ∷ 70 ∷ 111 ∷ 117 ∷ 110 ∷ 100 ∷ []

abbrev bad_request_reason : List ℕ
bad_request_reason = 66 ∷ 97 ∷ 100 ∷ 32 ∷ 82 ∷ 101 ∷ 113 ∷ 117 ∷ 101 ∷ 115 ∷ 116 ∷ []

abbrev text_html : List ℕ
text_html =
    116 ∷ 101 ∷ 120 ∷ 116 ∷ 47 ∷ 104 ∷ 116 ∷ 109 ∷ 108 ∷ 59 ∷ 32 ∷ 99 ∷ 104 ∷ 97 ∷ 114 ∷ 115 ∷ 101
    ∷ 116 ∷ 61 ∷ 117 ∷ 116 ∷ 102 ∷ 45 ∷ 56 ∷ []

abbrev text_css : List ℕ
text_css = 116 ∷ 101 ∷ 120 ∷ 116 ∷ 47 ∷ 99 ∷ 115 ∷ 115 ∷ []

abbrev application_javascript : List ℕ
application_javascript =
    97 ∷ 112 ∷ 112 ∷ 108 ∷ 105 ∷ 99 ∷ 97 ∷ 116 ∷ 105 ∷ 111 ∷ 110 ∷ 47 ∷ 106 ∷ 97 ∷ 118 ∷ 97 ∷ 115
    ∷ 99 ∷ 114 ∷ 105 ∷ 112 ∷ 116 ∷ []

abbrev application_json : List ℕ
application_json =
    97 ∷ 112 ∷ 112 ∷ 108 ∷ 105 ∷ 99 ∷ 97 ∷ 116 ∷ 105 ∷ 111 ∷ 110 ∷ 47 ∷ 106 ∷ 115 ∷ 111 ∷ 110 ∷ []

abbrev image_png : List ℕ
image_png = 105 ∷ 109 ∷ 97 ∷ 103 ∷ 101 ∷ 47 ∷ 112 ∷ 110 ∷ 103 ∷ []

abbrev image_jpeg : List ℕ
image_jpeg = 105 ∷ 109 ∷ 97 ∷ 103 ∷ 101 ∷ 47 ∷ 106 ∷ 112 ∷ 101 ∷ 103 ∷ []

abbrev image_svg : List ℕ
image_svg = 105 ∷ 109 ∷ 97 ∷ 103 ∷ 101 ∷ 47 ∷ 115 ∷ 118 ∷ 103 ∷ 43 ∷ 120 ∷ 109 ∷ 108 ∷ []

abbrev image_icon : List ℕ
image_icon = 105 ∷ 109 ∷ 97 ∷ 103 ∷ 101 ∷ 47 ∷ 120 ∷ 45 ∷ 105 ∷ 99 ∷ 111 ∷ 110 ∷ []

abbrev text_plain : List ℕ
text_plain =
    116 ∷ 101 ∷ 120 ∷ 116 ∷ 47 ∷ 112 ∷ 108 ∷ 97 ∷ 105 ∷ 110 ∷ 59 ∷ 32 ∷ 99 ∷ 104 ∷ 97 ∷ 114 ∷ 115
    ∷ 101 ∷ 116 ∷ 61 ∷ 117 ∷ 116 ∷ 102 ∷ 45 ∷ 56 ∷ []

abbrev octet_stream : List ℕ
octet_stream =
    97 ∷ 112 ∷ 112 ∷ 108 ∷ 105 ∷ 99 ∷ 97 ∷ 116 ∷ 105 ∷ 111 ∷ 110 ∷ 47 ∷ 111 ∷ 99 ∷ 116 ∷ 101 ∷ 116
    ∷ 45 ∷ 115 ∷ 116 ∷ 114 ∷ 101 ∷ 97 ∷ 109 ∷ []

-- `parse::<usize>` behind its sign: no digit, another character or an overflow is `none`.
pub read_digits : (acc : ℕ) → List ℕ → Option ℕ
read_digits acc [] = some acc
read_digits acc (d ∷ ds) =
    let value = acc * 10 + (d - 48) in
    let rest = read_digits value ds in
    if ltb d 48 then none else if ltb 57 d then none else if ltb value (2 ^ 64) then rest else none

pub parse_usize : List ℕ → Option ℕ
unfolding read_digits
parse_usize [] = none
parse_usize (d ∷ []) = read_digits 0 (d ∷ [])
parse_usize (c ∷ d ∷ ds) = if c == 43 then read_digits 0 (d ∷ ds) else read_digits 0 (c ∷ d ∷ ds)

pub content_length : RequestHead → Option ℕ
content_length h = elim (header h content_length_name) [ none ↦ none | some v ↦ parse_usize v ]

pub record Response : Type 0 where
  pub status : ℕ
  pub reason : List ℕ
  pub headers : List (List ℕ × List ℕ)
  pub body : List ℕ

pub new_response : (status : ℕ) (reason : List ℕ) → Response
new_response status reason = record { status = status; reason = reason; headers = []; body = [] }

pub with_header : Response → (name value : List ℕ) → Response
with_header r name value = record r { headers = r.headers ++ ((name, value) ∷ []) }

pub with_body : Response → (body : List ℕ) → Response
with_body r body = record r { body = body }

-- The decimal digits of a number in front of some text; a digit is taken off in each round.
pub digits : (fuel n : ℕ) → List ℕ → List ℕ
digits zero n text = text
digits (suc fuel) n text =
    let more = digits fuel (n / 10) ((48 + n % 10) ∷ text) in
    if ltb n 10 then (48 + n) ∷ text else more

pub decimal : ℕ → List ℕ
decimal n = digits (suc n) n []

header_text : List (List ℕ × List ℕ) → List ℕ
header_text [] = []
header_text ((name, value) ∷ headers) =
    name ++ (58 ∷ 32 ∷ []) ++ value ++ line_end ++ header_text headers

pub encode : Response → List ℕ
unfolding header_text
encode r =
    status_line
    ++ decimal r.status
    ++ (32 ∷ [])
    ++ r.reason
    ++ line_end
    ++ header_text r.headers
    ++ content_length_field
    ++ decimal (length r.body)
    ++ line_end
    ++ line_end
    ++ r.body

pub not_found : Response
unfolding new_response
not_found = new_response 404 not_found_reason

pub bad_request : Response
unfolding new_response
bad_request = new_response 400 bad_request_reason

-- What is behind the last dot.
extension : List ℕ → Option (List ℕ)
extension [] = none
extension (c ∷ path) =
    let later = extension path in
    elim later [ some ext ↦ some ext | none ↦ if c == 46 then some path else none ]

content_types : Assoc (List ℕ) (List ℕ)
content_types =
    (104 ∷ 116 ∷ 109 ∷ 108 ∷ [], text_html)
    ∷ (104 ∷ 116 ∷ 109 ∷ [], text_html)
    ∷ (99 ∷ 115 ∷ 115 ∷ [], text_css)
    ∷ (106 ∷ 115 ∷ [], application_javascript)
    ∷ (106 ∷ 115 ∷ 111 ∷ 110 ∷ [], application_json)
    ∷ (112 ∷ 110 ∷ 103 ∷ [], image_png)
    ∷ (106 ∷ 112 ∷ 103 ∷ [], image_jpeg)
    ∷ (106 ∷ 112 ∷ 101 ∷ 103 ∷ [], image_jpeg)
    ∷ (115 ∷ 118 ∷ 103 ∷ [], image_svg)
    ∷ (105 ∷ 99 ∷ 111 ∷ [], image_icon)
    ∷ (116 ∷ 120 ∷ 116 ∷ [], text_plain)
    ∷ []

pub content_type_for : (path : List ℕ) → List ℕ
unfolding extension content_types
content_type_for path = elim (extension path) [
  | none ↦ octet_stream
  | some ext ↦ elim (get same_bytes (to_ascii_lowercase ext) content_types) [
    | none ↦ octet_stream
    | some name ↦ name
  ]
]

-- ===== src/Common/Text.antt =====
-- Operations of Rust's `str` on UTF-8 bytes: `split`, `split_once`, `trim`, `to_ascii_lowercase` and
-- `from_str_radix(_, 16)`.
use kanrin.Common.{
  ℕ, zero, suc, ◌+◌, ◌-◌, ◌*◌, Bool, true, false, ◌&&◌, ◌||◌, List, [], ◌∷◌, Option, none, some,
  ltb, leb, ◌==◌, if◌then◌else◌, length, drop,
}
use mathlib.Core.List.{reverse}

-- Adds a byte to the first piece.
unfoldable pub grow : ℕ → List (List ℕ) → List (List ℕ)
grow b [] = (b ∷ []) ∷ []
grow b (piece ∷ pieces) = (b ∷ piece) ∷ pieces

-- `split(c)` for an ASCII character.
unfoldable pub split_on : (c : ℕ) → List ℕ → List (List ℕ)
split_on c [] = [] ∷ []
split_on c (b ∷ bs) = let rest = split_on c bs in if b == c then [] ∷ rest else grow b rest

-- `split("\r\n")`
unfoldable pub split_lines : List ℕ → List (List ℕ)
unfolding grow
split_lines [] = [] ∷ []
split_lines (b ∷ []) = (b ∷ []) ∷ []
split_lines (b ∷ (c ∷ bs)) = elim ((b == 13) && (c == 10)) [
  | true ↦ [] ∷ split_lines bs
  | false ↦ grow b (split_lines (c ∷ bs))
]

-- `split_once(c)`
unfoldable pub split_once : (c : ℕ) → List ℕ → Option (List ℕ × List ℕ)
split_once c [] = none
split_once c (b ∷ bs) =
    let rest = split_once c bs in
    if b == c
    then some ([], bs)
    else elim rest [ none ↦ none | some (before, after) ↦ some (b ∷ before, after) ]

unfoldable pub starts_with : (prefix : List ℕ) → List ℕ → Bool
starts_with [] xs = true
starts_with (p ∷ ps) [] = false
starts_with (p ∷ ps) (x ∷ xs) = (p == x) && starts_with ps xs

-- `contains` of a string.
unfoldable pub contains : (part : List ℕ) → List ℕ → Bool
unfolding starts_with
contains part [] = starts_with part []
contains part (x ∷ xs) = starts_with part (x ∷ xs) || contains part xs

-- The encodings of the characters of Unicode's White_Space.
abbrev white_spaces : List (List ℕ)
white_spaces =
    (9 ∷ [])
    ∷ (10 ∷ [])
    ∷ (11 ∷ [])
    ∷ (12 ∷ [])
    ∷ (13 ∷ [])
    ∷ (32 ∷ [])
    ∷ (0xc2 ∷ 0x85 ∷ [])
    ∷ (0xc2 ∷ 0xa0 ∷ [])
    ∷ (0xe1 ∷ 0x9a ∷ 0x80 ∷ [])
    ∷ (0xe2 ∷ 0x80 ∷ 0x80 ∷ [])
    ∷ (0xe2 ∷ 0x80 ∷ 0x81 ∷ [])
    ∷ (0xe2 ∷ 0x80 ∷ 0x82 ∷ [])
    ∷ (0xe2 ∷ 0x80 ∷ 0x83 ∷ [])
    ∷ (0xe2 ∷ 0x80 ∷ 0x84 ∷ [])
    ∷ (0xe2 ∷ 0x80 ∷ 0x85 ∷ [])
    ∷ (0xe2 ∷ 0x80 ∷ 0x86 ∷ [])
    ∷ (0xe2 ∷ 0x80 ∷ 0x87 ∷ [])
    ∷ (0xe2 ∷ 0x80 ∷ 0x88 ∷ [])
    ∷ (0xe2 ∷ 0x80 ∷ 0x89 ∷ [])
    ∷ (0xe2 ∷ 0x80 ∷ 0x8a ∷ [])
    ∷ (0xe2 ∷ 0x80 ∷ 0xa8 ∷ [])
    ∷ (0xe2 ∷ 0x80 ∷ 0xa9 ∷ [])
    ∷ (0xe2 ∷ 0x80 ∷ 0xaf ∷ [])
    ∷ (0xe2 ∷ 0x81 ∷ 0x9f ∷ [])
    ∷ (0xe3 ∷ 0x80 ∷ 0x80 ∷ [])
    ∷ []

-- How many bytes of `xs` the first of the spaces that it starts with takes; none takes zero.
space_length : List (List ℕ) → (xs : List ℕ) → ℕ
unfolding starts_with
space_length [] xs = 0
space_length (space ∷ spaces) xs =
    let rest = space_length spaces xs in if starts_with space xs then length space else rest

-- Spaces are dropped while there are some; a space takes a byte at least, so that the length is
-- fuel enough.
drop_spaces : (fuel : ℕ) → List (List ℕ) → List ℕ → List ℕ
unfolding space_length
drop_spaces zero spaces xs = xs
drop_spaces (suc fuel) spaces xs =
    let n = space_length spaces xs in
    let rest = drop_spaces fuel spaces (drop n xs) in if n == 0 then xs else rest

reversed : List (List ℕ) → List (List ℕ)
reversed [] = []
reversed (xs ∷ xss) = reverse xs ∷ reversed xss

unfoldable pub trim : List ℕ → List ℕ
unfolding drop_spaces reversed
trim xs =
    let front = drop_spaces (length xs) white_spaces xs in
    reverse (drop_spaces (length front) (reversed white_spaces) (reverse front))

ascii_lower : ℕ → ℕ
ascii_lower b = if leb 65 b && leb b 90 then b + 32 else b

unfoldable pub to_ascii_lowercase : List ℕ → List ℕ
unfolding ascii_lower
to_ascii_lowercase [] = []
to_ascii_lowercase (b ∷ bs) = ascii_lower b ∷ to_ascii_lowercase bs

unfoldable pub hex_value : ℕ → Option ℕ
hex_value b =
    if leb 48 b && leb b 57
    then some (b - 48)
    else if leb 97 b && leb b 102
    then some (b - 87)
    else if leb 65 b && leb b 70
    then some (b - 55)
    else none

-- The digits behind those that made `acc`; an overflow is an error.
unfoldable pub hex_digits : (most acc : ℕ) → List ℕ → Option ℕ
unfolding hex_value
hex_digits most acc [] = some acc
hex_digits most acc (b ∷ bs) = elim (hex_value b) [
  | none ↦ none
  | some d ↦ elim (ltb most (acc * 16 + d)) [
    | true ↦ none
    | false ↦ hex_digits most (acc * 16 + d) bs
  ]
]

-- `from_str_radix(text, 16)` of an unsigned type whose greatest value is `most`; a sign `+` may
-- stand before the digits.
unfoldable pub from_hex : (most : ℕ) → List ℕ → Option ℕ
unfolding hex_digits
from_hex most [] = none
from_hex most (b ∷ []) = hex_digits most 0 (b ∷ [])
from_hex most (b ∷ (c ∷ bs)) =
    if b == 43 then hex_digits most 0 (c ∷ bs) else hex_digits most 0 (b ∷ (c ∷ bs))

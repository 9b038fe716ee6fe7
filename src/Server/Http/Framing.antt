-- ===== src/Server/Http/Framing.antt =====
-- What follows the head of a request does not change how it is read.
use kanrin.Common.{
  ℕ, zero, suc, ◌+◌, ◌≡◌, ◌≤◌, refl, ap, true, Bool-cases, Option-cases, inl, inr, List, [], ◌∷◌,
  ◌++◌, some, arith, length, take, length-append,
}
use kanrin.Common.Utf8.{is_utf8}
use kanrin.Common.Text.{starts_with, split_lines, split_on}
use kanrin.Server.Http.{
  RequestHead, done, max_head_bytes, blank_line, find_head_end, request_line, header_lines, head_of,
  parse,
}

starts_with-append :
    (prefix xs more : List ℕ)
    → starts_with prefix xs ≡ true
    → starts_with prefix (xs ++ more) ≡ true
unfolding starts_with
starts_with-append [] xs more e = refl
starts_with-append (p ∷ ps) [] more e = absurd cc
starts_with-append (p ∷ ps) (x ∷ xs) more e = ground (arith, starts_with-append ps xs more)

-- A shorter text may only not start with what a longer one starts with.
starts_with-prefix :
    (prefix xs more : List ℕ)
    → length prefix ≤ length xs
    → starts_with prefix (xs ++ more) ≡ starts_with prefix xs
unfolding starts_with
starts_with-prefix [] xs more h = refl
starts_with-prefix (p ∷ ps) [] more h = absurd (omega arith)
starts_with-prefix (p ∷ ps) (x ∷ xs) more h = ground (arith, starts_with-prefix ps xs more)

starts_with-length : (prefix xs : List ℕ) → starts_with prefix xs ≡ true → length prefix ≤ length xs
unfolding starts_with
starts_with-length [] xs e = omega arith
starts_with-length (p ∷ ps) [] e = absurd cc
starts_with-length (p ∷ ps) (x ∷ xs) e = ground (arith, starts_with-length ps xs)

-- The blank line that is found is whole.
find_head_end-lt : (buf : List ℕ) (n : ℕ) → find_head_end buf ≡ some n → n + 4 ≤ length buf
unfolding find_head_end
find_head_end-lt [] n e = absurd cc
find_head_end-lt (b ∷ bs) n e = elim (Bool-cases (starts_with blank_line (b ∷ bs))) [
  | inl here ↦ ground (arith, here, starts_with-length blank_line (b ∷ bs) here)
  | inr later ↦ elim (Option-cases (find_head_end bs)) [
    | inl absent ↦ ground (arith, later, absent)
    | inr (m, found) ↦ ground (arith, later, found, find_head_end-lt bs m found)
  ]
]

find_head_end-append :
    (buf more : List ℕ) (n : ℕ) → find_head_end buf ≡ some n → find_head_end (buf ++ more) ≡ some n
unfolding find_head_end
find_head_end-append [] more n e = absurd cc
find_head_end-append (b ∷ bs) more n e = elim (Bool-cases (starts_with blank_line (b ∷ bs))) [
  | inl here ↦ ground (arith, here, starts_with-append blank_line (b ∷ bs) more here)
  | inr later ↦ elim (Option-cases (find_head_end bs)) [
    | inl absent ↦ ground (arith, later, absent)
    | inr (m, found) ↦
        let room : 4 ≤ length (b ∷ bs) = omega (arith, find_head_end-lt bs m found) in
        ground (
          arith,
          later,
          found,
          find_head_end-append bs more m found,
          starts_with-prefix blank_line (b ∷ bs) more room,
        )
  ]
]

take-prefix : (n : ℕ) (xs more : List ℕ) → n ≤ length xs → take n (xs ++ more) ≡ take n xs
take-prefix zero xs more h = refl
take-prefix (suc n) [] more h = absurd (omega arith)
take-prefix (suc n) (x ∷ xs) more h = ap (◌∷◌ x) (take-prefix n xs more (omega arith))

head_of-done :
    (n : ℕ) (raw : List ℕ) (lines : List (List ℕ)) (h : RequestHead)
    → head_of n raw lines ≡ done h
    → (h.head_len ≡ n) × (h.raw ≡ raw)
unfolding head_of
head_of-done n raw [] h e = absurd cc
head_of-done n raw (line ∷ lines) h e = elim (Option-cases (request_line (split_on 32 line))) [
  | inl absent ↦ ground (arith, absent)
  | inr (tokens, found) ↦ elim (Option-cases (header_lines [] lines)) [
    | inl wrong ↦ ground (arith, found, wrong)
    | inr (headers, read) ↦ ground (arith, found, read)
  ]
]

-- A request head that is read is read the same whatever bytes follow it, as long as the buffer is
-- within its bound, and it is a prefix of the buffer.
pub parse-append :
    (buf more : List ℕ) (h : RequestHead)
    → length (buf ++ more) ≤ max_head_bytes
    → parse buf ≡ done h
    → (parse (buf ++ more) ≡ done h) × (h.head_len ≤ length buf) × (h.raw ≡ take h.head_len buf)
unfolding parse
parse-append buf more h fits e = elim (Option-cases (find_head_end buf)) [
  | inl absent ↦ ground (arith, absent)
  | inr (n, found) ↦
      let whole = find_head_end-lt buf n found in
      let text = take-prefix n buf more (omega (arith, whole)) in
      let raw = take-prefix (n + 4) buf more whole in
      let size = length-append buf more in
      let valid : is_utf8 (take n buf) ≡ true = ground (arith, found) in
      let read : head_of (n + 4) (take (n + 4) buf) (split_lines (take n buf)) ≡ done h =
        ground (arith, found, valid) in
      let (len, same) = head_of-done (n + 4) (take (n + 4) buf) (split_lines (take n buf)) h read in
      (
        rw (find_head_end-append buf more n found, text, raw) (ground (arith, valid, read)),
        omega (arith, len, whole),
        ground (arith, len, same),
      )
]

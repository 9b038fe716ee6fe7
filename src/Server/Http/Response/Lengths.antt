-- ===== src/Server/Http/Response/Lengths.antt =====
-- A length that is written in decimal digits reads back.
use kanrin.Common.{
  ℕ, zero, suc, ◌+◌, ◌/◌, ◌%◌, ◌^◌, ◌<◌, ◌≡◌, refl, sym, ap, ◌∙◌, List, [], ◌∷◌, some, ltb,
  Bool-cases, inl, inr, arith,
}
use kanrin.Server.Http.Response.{read_digits, parse_usize, digits, decimal}

read_digits-digits :
    (fuel n : ℕ) (text : List ℕ)
    → n < fuel
    → n < 2 ^ 64
    → read_digits 0 (digits fuel n text) ≡ read_digits n text
unfolding read_digits digits
read_digits-digits zero n text h small = absurd (omega arith)
read_digits-digits (suc fuel) n text h small = elim (Bool-cases (ltb n 10)) [
  | inl last ↦ ground (arith, last)
  | inr more ↦ rw more (
      read_digits-digits fuel (n / 10) ((48 + n % 10) ∷ text) (ground (arith, more)) (omega arith)
      ∙ ground arith)
]

-- The first digit, which is no sign.
digits_first :
    (fuel n : ℕ) (text : List ℕ)
    → n < fuel
    → (d : ℕ) × (ds : List ℕ) × (digits fuel n text ≡ d ∷ ds) × (47 < d)
unfolding digits
digits_first zero n text h = absurd (omega arith)
digits_first (suc fuel) n text h = elim (Bool-cases (ltb n 10)) [
  | inl last ↦ (48 + n, text, rw last refl, omega arith)
  | inr more ↦ rw more (digits_first fuel (n / 10) ((48 + n % 10) ∷ text) (ground (arith, more)))
]

parse_usize_unsigned :
    (d : ℕ) (ds : List ℕ) → 47 < d → parse_usize (d ∷ ds) ≡ read_digits 0 (d ∷ ds)
unfolding parse_usize
parse_usize_unsigned d [] h = refl
parse_usize_unsigned d (e ∷ ds) h = ground arith

-- The number of any length of a body, as it stands in the head of a response, reads back.
parse_usize-decimal : (n : ℕ) → n < 2 ^ 64 → parse_usize (decimal n) ≡ some n
unfolding decimal read_digits
parse_usize-decimal n h =
    let (d, ds, e, behind) = digits_first (suc n) n [] (omega arith) in
    ap parse_usize e
    ∙ parse_usize_unsigned d ds behind
    ∙ ap (read_digits 0) (sym e)
    ∙ read_digits-digits (suc n) n [] (omega arith) h

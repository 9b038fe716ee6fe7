-- ===== src/Tun/Dns/Question.antt =====
-- Reading the domain of a query: the loop ends, it never indexes out of range, and it reads back the
-- labels of a question.
use kanrin.Common.{
  ℕ, zero, suc, ◌+◌, ◌≡◌, ◌≢◌, ◌<◌, ◌⊎◌, refl, sym, ap, ◌∙◌, true, leb, ltb, ◌==◌, Bool-cases, inl,
  inr, List, [], ◌∷◌, ◌++◌, some, arith, length, length-append, append_assoc, append-nil, All,
}
use kanrin.Common.Utf8.{is_utf8}
use kanrin.Common.Bytes.{get_elem?_total, slice?_total, get_elem?-append, slice?-append}
use kanrin.Protocol.Error.{ok, panic}
use kanrin.Tun.Dns.{
  broken, ended, read, label_at, turn_of, next_label, labels, join, domain_of,
  parse_dns_query_domain,
}

-- A turn ends, and a label makes progress.
next_label_cases :
    (packet : List ℕ) (pos : ℕ)
    → (next_label packet pos ≡ ok broken)
      ⊎ ((next_label packet pos ≡ ok ended)
          ⊎ ((label : List ℕ) × (next : ℕ) × (next_label packet pos ≡ ok (read label next))
              × (pos < length packet)
              × (pos + 1 < next)))
unfolding next_label label_at turn_of
next_label_cases packet pos = elim (Bool-cases (leb (length packet) pos)) [
  | inl past ↦ inl (rw past refl)
  | inr inside ↦
      let (n, e) = get_elem?_total packet pos (ground arith) in
      elim (Bool-cases (n == 0)) [
        | inl last ↦ inr (inl (rw (inside, e, last) refl))
        | inr more ↦ elim (Bool-cases (ltb (length packet) (pos + 1 + n))) [
          | inl cut ↦ inl (rw (inside, e, more, cut) refl)
          | inr whole ↦
              let (label, f, _) =
                slice?_total (pos + 1) (pos + 1 + n) packet (omega arith) (ground arith) in
              elim (Bool-cases (is_utf8 label)) [
                | inl text ↦ inr (
                    inr (
                      label,
                      pos + 1 + n,
                      rw (inside, e, more, whole, f, text) refl,
                      ground arith,
                      ground arith,
                    ))
                | inr bad ↦ inl (rw (inside, e, more, whole, f, bad) refl)
              ]
        ]
      ]
]

labels-ne-panic :
    (fuel : ℕ) (packet : List ℕ) (pos : ℕ) (parts : List (List ℕ))
    → 0 < fuel
    → length packet < pos + fuel
    → labels fuel packet pos parts ≢ panic
unfolding labels
labels-ne-panic zero packet pos parts some_fuel enough = absurd (omega arith)
labels-ne-panic (suc fuel) packet pos parts some_fuel enough = elim (next_label_cases packet pos) [
  | inl wrong ↦ rw (labels, wrong) (λ p. cc)
  | inr (inl last) ↦ rw (labels, last) (λ p. cc)
  | inr (inr (label, next, e, inside, further)) ↦
      rw (labels, e)
        (labels-ne-panic fuel packet next (parts ++ (label ∷ [])) (omega arith) (omega arith))
]

pub parse_dns_query_domain-ne-panic : (packet : List ℕ) → parse_dns_query_domain packet ≢ panic
unfolding parse_dns_query_domain
parse_dns_query_domain-ne-panic packet =
    ground (arith, labels-ne-panic (length packet) packet 12 [])

-- The labels of a question, each behind its length, and the zero that ends them.
pub question : List (List ℕ) → List ℕ
question [] = 0 ∷ []
question (label ∷ more) = length label ∷ (label ++ question more)

-- A label has some bytes of UTF-8.
abbrev pub IsLabel : List ℕ → Type 0
IsLabel label = (0 < length label) × (is_utf8 label ≡ true)

next_label-question :
    (front label tail : List ℕ) (pos : ℕ)
    → pos ≡ length front
    → IsLabel label
    → next_label (front ++ (length label ∷ (label ++ tail))) pos
      ≡ ok (read label (pos + 1 + length label))
unfolding next_label label_at turn_of
next_label-question front label tail pos place (bytes, text) =
    let n = length label in
    let front' = front ++ (n ∷ []) in
    let behind =
      slice?-append front' label tail (pos + 1) (pos + 1 + n)
        (omega (arith, length-append front (n ∷ []))) refl in
    ground (
      arith,
      length-append front (n ∷ (label ++ tail)),
      length-append label tail,
      get_elem?-append front n (label ++ tail) pos place,
      rw append_assoc at behind,
      text,
    )

labels-question :
    (fuel : ℕ) (front : List ℕ) (pos : ℕ) (parts more : List (List ℕ)) (rest : List ℕ)
    → pos ≡ length front
    → length more < fuel
    → All IsLabel more
    → labels fuel (front ++ (question more ++ rest)) pos parts ≡ ok (some (parts ++ more))
unfolding labels question next_label
labels-question zero front pos parts more rest place enough h = absurd (omega arith)
labels-question (suc fuel) front pos parts [] rest place enough h =
    rw append-nil
      (ground (arith, length-append front (0 ∷ rest), get_elem?-append front 0 rest pos place))
labels-question (suc fuel) front pos parts (label ∷ more) rest place enough h =
    let n = length label in
    let front' = front ++ (n ∷ label) in
    let tail = question more ++ rest in
    let one = next_label-question front label tail pos place h.0 in
    let next =
      labels-question fuel front' (pos + 1 + n) (parts ++ (label ∷ [])) more rest
        (omega (arith, length-append front (n ∷ label))) (omega arith) h.1 in
    let inner : (label ++ question more) ++ rest ≡ label ++ tail =
      append_assoc label (question more) rest in
    let same : front ++ (question (label ∷ more) ++ rest) ≡ front ++ (n ∷ (label ++ tail)) =
      ap (λ t. front ++ (n ∷ t)) inner in
    let moved : front' ++ tail ≡ front ++ (n ∷ (label ++ tail)) =
      append_assoc front (n ∷ label) tail in
    let parted : (parts ++ (label ∷ [])) ++ more ≡ parts ++ (label ∷ more) =
      append_assoc parts (label ∷ []) more in
    ap (λ b. labels (suc fuel) b pos parts) same ∙ rw (labels, one) (rw (moved, parted) at next)

length-question : (more : List (List ℕ)) → length more < length (question more)
unfolding question
length-question [] = omega arith
length-question (label ∷ more) =
    omega (arith, length-append label (question more), length-question more)

-- A query with some labels names the domain that joins them.
pub parse_dns_query_domain-question :
    (header : List ℕ) (label : List ℕ) (more : List (List ℕ)) (rest : List ℕ)
    → length header ≡ 12
    → All IsLabel (label ∷ more)
    → parse_dns_query_domain (header ++ (question (label ∷ more) ++ rest))
      ≡ ok (some (join (label ∷ more)))
unfolding parse_dns_query_domain domain_of
parse_dns_query_domain-question header label more rest twelve h =
    let asked = question (label ∷ more) in
    let packet = header ++ (asked ++ rest) in
    let size : length packet ≡ 12 + length asked + length rest =
      omega (arith, length-append header (asked ++ rest), length-append asked rest) in
    let found =
      labels-question (length packet) header 12 [] (label ∷ more) rest (sym twelve)
        (omega (arith, length-question (label ∷ more))) h in
    ground (arith, size, found)

-- ===== src/Protocol/Error/Safety.antt =====
-- Rules for "ends without a panic", one for each step of a decoder.
use kanrin.Common.{
  ◌⊎◌, inl, inr, ℕ, ◌-◌, ◌<◌, ◌≤◌, ◌≡◌, ◌≢◌, refl, Bool, true, false, List, ltb, arith, length,
}
use kanrin.Common.Bytes.{get_elem?_total, slice?_total}
use kanrin.Protocol.Error.{
  Result, ok, err, panic, ProtocolError, ◌>>=◌, ◌>>◌, fail_if, index, slice,
}

module _ {B : Type 0} where
  pub fail_if-then :
      (test : Bool) (e : ProtocolError) (k : Result B)
      → (test ≡ false → k ≢ panic)
      → (fail_if test e >> k) ≢ panic
  fail_if-then true e k h = λ p. cc
  fail_if-then false e k h = h refl

  -- Behind a length check the buffer is long enough.
  pub long_enough-then :
      (len need : ℕ) (e : ProtocolError) (k : Result B)
      → (need ≤ len → k ≢ panic)
      → (fail_if (ltb len need) e >> k) ≢ panic
  long_enough-then len need e k h = fail_if-then (ltb len need) e k (λ n. h (ground arith))

  pub index-then :
      (xs : List ℕ) (i : ℕ) (f : ℕ → Result B)
      → i < length xs
      → ((x : ℕ) → f x ≢ panic)
      → (index xs i >>= f) ≢ panic
  index-then xs i f h k = let (x, e) = get_elem?_total xs i h in rw e (k x)

  pub slice-then :
      (xs : List ℕ) (a b : ℕ) (f : List ℕ → Result B)
      → a ≤ b
      → b ≤ length xs
      → ((ys : List ℕ) → length ys ≡ b - a → f ys ≢ panic)
      → (slice xs a b >>= f) ≢ panic
  slice-then xs a b f h k rest = let (ys, e, size) = slice?_total a b xs h k in rw e (rest ys size)

  pub bind-then {ℓ} :
      {A : Type ℓ} (m : Result A) (f : A → Result B)
      → m ≢ panic
      → ((a : A) → m ≡ ok a → f a ≢ panic)
      → (m >>= f) ≢ panic
  bind-then (ok a) f h k = k a refl
  bind-then (err e) f h k = λ p. cc
  bind-then panic f h k = λ p. h refl

pub Result-cases {ℓ} :
    {A : Type ℓ} (m : Result A)
    → ((a : A) × (m ≡ ok a)) ⊎ (((e : ProtocolError) × (m ≡ err e)) ⊎ (m ≡ panic))
Result-cases (ok a) = inl (a, refl)
Result-cases (err e) = inr (inl (e, refl))
Result-cases panic = inr (inr refl)

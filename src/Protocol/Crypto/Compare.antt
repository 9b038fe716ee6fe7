-- ===== src/Protocol/Crypto/Compare.antt =====
-- The comparison of byte strings is equality.
use kanrin.Common.{ℕ, ◌≡◌, ap, ◌↔◌, Bool-cases, inl, inr, true, List, ◌==◌, arith, length}
use kanrin.Protocol.Crypto.{Primitives, constant_time_eq}

module _ (prim : Primitives) where
  pub constant_time_eq_iff : (a b : List ℕ) → (constant_time_eq prim a b ≡ true) ↔ (a ≡ b)
  unfolding constant_time_eq
  constant_time_eq_iff a b = elim (Bool-cases (length a == length b)) [
    | inl same ↦ rw same (prim.ct_eq_iff a b (ground arith))
    | inr other ↦ (λ e. ground arith, λ e. ground (arith, ap length e))
  ]

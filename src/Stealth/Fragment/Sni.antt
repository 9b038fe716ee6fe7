-- ===== src/Stealth/Fragment/Sni.antt =====
-- The search for the server name finds it wherever it is, and never leaves the message.
use kanrin.Common.{
  ℕ, zero, suc, ◌+◌, ◌≤◌, ◌≡◌, List, refl, ap, Bool-cases, inl, inr, ◌==◌, if◌then◌else◌, some,
  arith, length, ltb,
}
use kanrin.Protocol.Error.{ok}
use kanrin.Stealth.Fragment.{walk_extensions}
use kanrin.Stealth.Fragment.Soundness.{read_u16_total}

-- The length of the message is bound enough for the walk: more rounds find nothing more.
walk_extensions_enough :
    (fuel more : ℕ) (bytes : List ℕ) (pos : ℕ)
    → length bytes ≤ pos + fuel
    → walk_extensions (fuel + more) bytes pos ≡ walk_extensions fuel bytes pos
unfolding walk_extensions
walk_extensions_enough zero zero bytes pos enough = refl
walk_extensions_enough zero (suc more) bytes pos enough =
    let next : zero + suc more ≡ suc more = omega arith in rw next (ground arith)
walk_extensions_enough (suc fuel) more bytes pos enough =
    let next : suc fuel + more ≡ suc (fuel + more) = omega arith in
    rw next (elim (Bool-cases (ltb (length bytes) (pos + 4))) [
      | inl short ↦ rw short refl
      | inr room ↦
          let (t, e, _) = read_u16_total bytes pos (ground arith) in
          let (n, f, _) = read_u16_total bytes (pos + 2) (ground arith) in
          rw (room, e, f)
            (ap (λ w. if t == 0 then ok (some pos) else w)
              (walk_extensions_enough fuel more bytes (pos + 4 + n) (omega arith)))
    ])

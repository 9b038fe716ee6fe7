-- ===== src/Client/Multipath/Credits.antt =====
-- The passes over the healthy paths, whose positions are in range: totals, shares, and the picks.
use kanrin.Common.{
  nth, ℕ, suc, ◌≡◌, ◌≢◌, ◌<◌, refl, ◌∙◌, true, ltb, ◌==◌, Bool-cases, inl, inr, List, [], ◌∷◌, ◌++◌,
  some, arith, length, length-append, append_assoc, All,
}
use kanrin.Client.Multipath.{
  Double, PathHealth, set_nth, is_healthy, healthy_from, total_capacity, share_out, richest,
  quickest, rtt_or_max, except,
}
use kanrin.Client.Multipath.Positions.{nth_total, nth-lt, nth-front, length-set_nth}

module _ (f : Double) where
  -- The path at a position, which is healthy.
  pub record Fit (paths : List (PathHealth f)) (now i : ℕ) : Type 0 where
    pub path : PathHealth f
    pub there : nth paths i ≡ some path
    pub healthy : is_healthy f path now ≡ true

  pub healthy_from-Fit :
      (front paths : List (PathHealth f)) (i now : ℕ)
      → i ≡ length front
      → All (Fit (front ++ paths) now) (healthy_from f i now paths)
  unfolding healthy_from
  healthy_from-Fit front [] i now place = tt
  healthy_from-Fit front (p ∷ paths) i now place =
      let rest : All (Fit (front ++ (p ∷ paths)) now) (healthy_from f (suc i) now paths) =
        rw append_assoc at (
          healthy_from-Fit (front ++ (p ∷ [])) paths (suc i) now
            (omega (arith, length-append front (p ∷ [])))) in
      elim (Bool-cases (is_healthy f p now)) [
        | inl fit ↦
            rw fit
              (record { path = p; there = rw place (nth-front front p paths); healthy = fit }, rest)
        | inr unfit ↦ rw unfit rest
      ]

  pub total_capacity_total :
      (acc : f.Carrier) (paths : List (PathHealth f)) (now : ℕ) (healthy : List ℕ)
      → All (Fit paths now) healthy
      → (total : f.Carrier) × (total_capacity f acc paths healthy ≡ some total)
  unfolding total_capacity
  total_capacity_total acc paths now [] h = (acc, refl)
  total_capacity_total acc paths now (i ∷ healthy) (fit, h) =
      let (total, e) = total_capacity_total (f.plus acc fit.path.capacity) paths now healthy h in
      (total, rw (total_capacity, fit.there) e)

  pub share_out_total :
      (total : f.Carrier) (paths : List (PathHealth f)) (now : ℕ) (credits : List f.Carrier)
      (healthy : List ℕ)
      → length credits ≡ length paths
      → All (Fit paths now) healthy
      → (credits' : List f.Carrier) × (share_out f total paths credits healthy ≡ some credits')
        × (length credits' ≡ length paths)
  unfolding share_out
  share_out_total total paths now credits [] size h = (credits, refl, size)
  share_out_total total paths now credits (i ∷ healthy) size (fit, h) =
      let (c, e) = nth_total credits i (omega (arith, nth-lt paths i fit.there)) in
      let more = set_nth i (f.plus c (f.divide fit.path.capacity total)) credits in
      let (credits', g, same) =
        share_out_total total paths now more healthy (length-set_nth i _ credits ∙ size) h in
      (credits', rw (share_out, e, fit.there) g, same)

  pub richest-All :
      (P : ℕ → Type 0) (credits : List f.Carrier) (best : ℕ) (healthy : List ℕ)
      → ((i : ℕ) → P i → i < length credits)
      → P best
      → All P healthy
      → (c : ℕ) × (richest f credits best healthy ≡ some c) × P c
  unfolding richest
  richest-All P credits best [] inside b h = (best, refl, b)
  richest-All P credits best (i ∷ healthy) inside b (q, h) =
      let (most, e) = nth_total credits best (inside best b) in
      let (c, g) = nth_total credits i (inside i q) in
      elim (Bool-cases (f.total_below c most)) [
        | inl below ↦
            let (w, k, p) = richest-All P credits best healthy inside b h in
            (w, rw (richest, e, g, below) k, p)
        | inr above ↦
            let (w, k, p) = richest-All P credits i healthy inside q h in
            (w, rw (richest, e, g, above) k, p)
      ]

  pub quickest-All :
      (P : ℕ → Type 0) (paths : List (PathHealth f)) (best : ℕ) (healthy : List ℕ)
      → ((i : ℕ) → P i → i < length paths)
      → P best
      → All P healthy
      → (c : ℕ) × (quickest f paths best healthy ≡ some c) × P c
  unfolding quickest
  quickest-All P paths best [] inside b h = (best, refl, b)
  quickest-All P paths best (i ∷ healthy) inside b (q, h) =
      let (p, e) = nth_total paths best (inside best b) in
      let (r, g) = nth_total paths i (inside i q) in
      elim (Bool-cases (ltb (rtt_or_max f r) (rtt_or_max f p))) [
        | inl quicker ↦
            let (w, k, o) = quickest-All P paths i healthy inside q h in
            (w, rw (quickest, e, g, quicker) k, o)
        | inr slower ↦
            let (w, k, o) = quickest-All P paths best healthy inside b h in
            (w, rw (quickest, e, g, slower) k, o)
      ]

  pub except-All :
      (P : ℕ → Type 0) (chosen : ℕ) (healthy : List ℕ)
      → All P healthy
      → All (λ i. P i × (i ≢ chosen)) (except f chosen healthy)
  unfolding except
  except-All P chosen [] h = tt
  except-All P chosen (i ∷ healthy) (p, h) = elim (Bool-cases (i == chosen)) [
    | inl same ↦ rw same (except-All P chosen healthy h)
    | inr other ↦ rw other ((p, λ e. ground (arith, other, e)), except-All P chosen healthy h)
  ]

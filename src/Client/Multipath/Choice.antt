-- ===== src/Client/Multipath/Choice.antt =====
-- A chunk goes to a healthy path, and its copy to another one; no index is out of range.
use kanrin.Common.{
  nth, ℕ, ◌≡◌, ◌≢◌, ◌⊎◌, refl, ◌∙◌, Bool, true, ◌&&◌, Bool-cases, Option-cases, inl, inr, List, [],
  ◌∷◌, Option, none, some, arith, length, length-append, All,
}
use kanrin.Client.Multipath.{
  Double, PathHealth, Scheduler, Assignment, set_nth, record_sent, healthy_from, healthy_count,
  except, send_on, hedge_on, assign_among, assign, nothing, add_path, remove_path, position,
  new_path,
}
use kanrin.Client.Multipath.Positions.{
  nth_total, nth-lt, length-set_nth, nth-set_nth_other, remove_nth-length,
}
use kanrin.Client.Multipath.Credits.{
  Fit, total_capacity_total, share_out_total, richest-All, quickest-All, except-All,
  healthy_from-Fit,
}

module _ (f : Double) where
  -- The path of an assignment, and the other one, if its copy goes to one.
  pub record Chosen (s : Scheduler f) (latency_critical : Bool) (now : ℕ) (a : Assignment)
      (after : Scheduler f) : Type 0 where
    pub index : ℕ
    pub fit : Fit f s.paths now index
    pub primary : a.primary ≡ fit.path.name
    pub hedge :
        (a.hedge ≡ none)
        ⊎ ((j : ℕ) × (other : Fit f s.paths now j) × (j ≢ index)
            × (a.hedge ≡ some other.path.name)
            × (latency_critical && s.hedging ≡ true))
    pub paths : length after.paths ≡ length s.paths
    pub credits : length after.credits ≡ length after.paths

  send_on_there :
      (paths : List (PathHealth f)) (i : ℕ) (p : PathHealth f)
      → nth paths i ≡ some p
      → send_on f paths i ≡ some (p.name, set_nth i (record_sent f p) paths)
  unfolding send_on
  send_on_there paths i p e = ground (arith, e)

  Hedged : List (PathHealth f) → (now chosen : ℕ) → Option (List ℕ) → Type 0
  Hedged paths now chosen h =
      (h ≡ none)
      ⊎ ((j : ℕ) × (other : Fit f paths now j) × (j ≢ chosen) × (h ≡ some other.path.name))

  hedge_on-Hedged :
      (paths : List (PathHealth f)) (now chosen : ℕ) (p : PathHealth f) (others : List ℕ)
      → All (λ i. Fit f paths now i × (i ≢ chosen)) others
      → (h : Option (List ℕ)) × (after : List (PathHealth f)) × (hedge_on f
            (set_nth chosen p paths)
            others
          ≡ some (h, after))
        × (length after ≡ length paths)
        × Hedged paths now chosen h
  unfolding hedge_on send_on Hedged
  hedge_on-Hedged paths now chosen p [] h = (none, _, refl, length-set_nth chosen p paths, inl refl)
  hedge_on-Hedged paths now chosen p (i ∷ others) (first, h) =
      let sent = set_nth chosen p paths in
      let size = length-set_nth chosen p paths in
      let (j, e, (fit, differ)) =
        quickest-All f (λ i. Fit f paths now i × (i ≢ chosen)) sent i others
          (λ k (fit, _). omega (arith, size, nth-lt paths k fit.there)) first h in
      let there : nth sent j ≡ some fit.path =
        nth-set_nth_other chosen j p paths differ ∙ fit.there in
      (
        some fit.path.name,
        set_nth j (record_sent f fit.path) sent,
        rw (hedge_on, e, there) refl,
        length-set_nth j _ sent ∙ size,
        inr (j, fit, differ, refl),
      )

  assign_among-Chosen :
      (s : Scheduler f) (latency_critical : Bool) (now first : ℕ) (others : List ℕ)
      → length s.credits ≡ length s.paths
      → All (Fit f s.paths now) (first ∷ others)
      → (a : Assignment) × (after : Scheduler f) × (assign_among f s latency_critical first others
          ≡ some (a, after))
        × Chosen s latency_critical now a after
  unfolding assign_among Hedged
  assign_among-Chosen s latency_critical now first others size (b, h) =
      let (total, e) = total_capacity_total f (nothing f) s.paths now (first ∷ others) (b, h) in
      let (credits, g, same) =
        share_out_total f total s.paths now s.credits (first ∷ others) size (b, h) in
      let (chosen, k, fit) =
        richest-All f (Fit f s.paths now) credits first others
          (λ i fit. omega (arith, same, nth-lt s.paths i fit.there)) b h in
      let (credit, l) =
        nth_total credits chosen (omega (arith, same, nth-lt s.paths chosen fit.there)) in
      let spent = set_nth chosen (f.minus credit (f.of_nat 1)) credits in
      let (hedge, after, m, wide, hedged) =
        hedge_on-Hedged s.paths now chosen (record_sent f fit.path)
          (except f chosen (first ∷ others))
          (except-All f (Fit f s.paths now) chosen (first ∷ others) (b, h)) in
      let sent = send_on_there s.paths chosen fit.path fit.there in
      let once = length-set_nth chosen (record_sent f fit.path) s.paths in
      let bill = length-set_nth chosen (f.minus credit (f.of_nat 1)) credits in
      elim (Bool-cases (latency_critical && s.hedging)) [
        | inl copied ↦ (
          record { primary = fit.path.name; hedge = hedge },
          record s { paths = after; credits = spent },
          rw (assign_among, e, g, k, l, sent, copied, m) refl,
          record {
            index = chosen;
            fit = fit;
            primary = refl;
            hedge = elim hedged [
              | inl alone ↦ inl alone
              | inr (j, other, differ, named) ↦ inr (j, other, differ, named, copied)
            ];
            paths = wide;
            credits = omega (arith, bill, same, wide);
          },
        )
        | inr single ↦ (
          record { primary = fit.path.name; hedge = none },
          record s { paths = set_nth chosen (record_sent f fit.path) s.paths; credits = spent },
          rw (assign_among, e, g, k, l, sent, single) refl,
          record {
            index = chosen;
            fit = fit;
            primary = refl;
            hedge = inl refl;
            paths = once;
            credits = omega (arith, bill, same, once);
          },
        )
      ]

  -- For a scheduler with one credit for each path, a chunk gets no path and nothing changes if no
  -- path is healthy; otherwise no index is out of range, the chunk goes to a healthy path, its copy
  -- to a different healthy path or nowhere, and only if the chunk is latency-critical and hedging
  -- is on, and there is still one credit for each path.
  pub assign_cases :
      (s : Scheduler f) (latency_critical : Bool) (now : ℕ)
      → length s.credits ≡ length s.paths
      → ((healthy_count f s now ≡ 0) × (assign f s latency_critical now ≡ some (none, s)))
        ⊎ ((a : Assignment) × (after : Scheduler f) × (assign f s latency_critical now
              ≡ some (some a, after))
            × Chosen s latency_critical now a after)
  unfolding assign healthy_count
  assign_cases s latency_critical now size =
      among (healthy_from f 0 now s.paths) refl (healthy_from-Fit f [] s.paths 0 now refl)
    where
      among :
          (healthy : List ℕ)
          → healthy_from f 0 now s.paths ≡ healthy
          → All (Fit f s.paths now) healthy
          → ((healthy_count f s now ≡ 0) × (assign f s latency_critical now ≡ some (none, s)))
            ⊎ ((a : Assignment) × (after : Scheduler f) × (assign f s latency_critical now
                  ≡ some (some a, after))
                × Chosen s latency_critical now a after)
      among [] e h = inl (rw (healthy_count, e) refl, rw (assign, e) refl)
      among (first ∷ others) e h =
          let (a, after, g, chosen) =
            assign_among-Chosen s latency_critical now first others size h in
          inr (a, after, rw (assign, e, g) refl, chosen)

  -- Paths that come and go take their credits with them.
  add_path-length :
      (s : Scheduler f) (name : List ℕ) (now : ℕ)
      → length s.credits ≡ length s.paths
      → length (add_path f s name now).credits ≡ length (add_path f s name now).paths
  unfolding add_path
  add_path-length s name now size = elim (Option-cases (position f name s.paths)) [
    | inl new ↦
        rw (add_path, new)
          (omega (
            arith,
            size,
            length-append s.credits (nothing f ∷ []),
            length-append s.paths (new_path f name now ∷ []),
          ))
    | inr (i, known) ↦ rw (add_path, known) size
  ]

  remove_path-length :
      (s : Scheduler f) (name : List ℕ)
      → length s.credits ≡ length s.paths
      → length (remove_path f s name).credits ≡ length (remove_path f s name).paths
  unfolding remove_path
  remove_path-length s name size = elim (Option-cases (position f name s.paths)) [
    | inl absent ↦ rw (remove_path, absent) size
    | inr (i, known) ↦ rw (remove_path, known) (remove_nth-length i s.credits s.paths size)
  ]

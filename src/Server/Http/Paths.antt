-- ===== src/Server/Http/Paths.antt =====
-- A resolved path stays below its root.
use kanrin.Common.{
  ℕ, ◌≡◌, refl, ◌∙◌, ap, false, ◌||◌, ◌==◌, Bool, Bool-cases, Option-cases, inl, inr, List, [], ◌∷◌,
  ◌++◌, some, if◌then◌else◌, arith, length, append_assoc, append-nil, All, All-append,
}
use kanrin.Common.Table.{same_bytes}
use kanrin.Common.Text.{split_on, grow, contains, starts_with}
use kanrin.Server.Http.{
  percent_decode, trim_slashes, push_segments, is_refused, index_file, resolve_path,
}

-- The names that a resolved path adds to its root: not empty, not ".", and with no "..", no slash
-- of either kind and no colon.
pub record IsPlain (segment : List ℕ) : Type 0 where
  pub some_byte : (length segment == 0) ≡ false
  pub no_dot : same_bytes segment (46 ∷ []) ≡ false
  pub no_slash : contains (47 ∷ []) segment ≡ false
  pub no_dots : contains (46 ∷ 46 ∷ []) segment ≡ false
  pub no_backslash : contains (92 ∷ []) segment ≡ false
  pub no_colon : contains (58 ∷ []) segment ≡ false

grow-no_slash :
    (c x : ℕ) (pieces : List (List ℕ))
    → (x == c) ≡ false
    → All (λ piece. contains (c ∷ []) piece ≡ false) pieces
    → All (λ piece. contains (c ∷ []) piece ≡ false) (grow x pieces)
unfolding contains starts_with grow
grow-no_slash c x [] other h = (ground (arith, other), tt)
grow-no_slash c x (piece ∷ pieces) other h = (ground (arith, other, h.0), h.1)

-- A piece between slashes has none.
split_on-no_slash :
    (c : ℕ) (xs : List ℕ) → All (λ piece. contains (c ∷ []) piece ≡ false) (split_on c xs)
unfolding split_on contains starts_with grow
split_on-no_slash c [] = (refl, tt)
split_on-no_slash c (x ∷ xs) = elim (Bool-cases (x == c)) [
  | inl cut ↦ rw cut (refl, split_on-no_slash c xs)
  | inr other ↦ rw other (grow-no_slash c x (split_on c xs) other (split_on-no_slash c xs))
]

-- What is pushed is plain, and stands behind what was there.
push_segments-IsPlain :
    (out segments result : List (List ℕ))
    → All (λ piece. contains (47 ∷ []) piece ≡ false) segments
    → push_segments out segments ≡ some result
    → (added : List (List ℕ)) × (result ≡ out ++ added) × All IsPlain added
unfolding push_segments is_refused
push_segments-IsPlain out [] result h e = ([], ground (arith, append-nil out), tt)
push_segments-IsPlain out (segment ∷ segments) result h e =
    elim (Bool-cases (length segment == 0 || same_bytes segment (46 ∷ []))) [
      | inl skipped ↦
          push_segments-IsPlain out segments result h.1 (rw (push_segments, skipped) at e)
      | inr kept ↦ elim (Bool-cases (is_refused segment)) [
        | inl refused ↦ let stuck = rw (push_segments, kept, refused) at e in absurd cc
        | inr fine ↦
            let (added, same, plain) =
              push_segments-IsPlain (out ++ (segment ∷ [])) segments result h.1
                (rw (push_segments, kept, fine) at e) in
            let p : IsPlain segment = record {
              some_byte = ground (arith, kept);
              no_dot = ground (arith, kept);
              no_slash = h.0;
              no_dots = ground (arith, fine);
              no_backslash = ground (arith, fine);
              no_colon = ground (arith, fine);
            } in
            (segment ∷ added, same ∙ append_assoc out (segment ∷ []) added, (p, plain))
      ]
    ]

index_file-IsPlain : IsPlain index_file
unfolding contains starts_with same_bytes is_refused
index_file-IsPlain = record {
  some_byte = refl;
  no_dot = refl;
  no_slash = refl;
  no_dots = refl;
  no_backslash = refl;
  no_colon = refl;
}

-- A path that resolves is the root followed by names none of which is empty or ".", and none of
-- which has a ".." or a slash of either kind or a colon in it, whatever the request and the file
-- system are.
pub resolve_path-stays_below :
    (is_dir : List (List ℕ) → Bool) (root : List (List ℕ)) (request_path : List ℕ)
    (result : List (List ℕ))
    → resolve_path is_dir root request_path ≡ some result
    → (added : List (List ℕ)) × (result ≡ root ++ added) × All IsPlain added
unfolding resolve_path
resolve_path-stays_below is_dir root request_path result e =
    elim (Option-cases (percent_decode request_path)) [
      | inl bad ↦ ground (arith, bad)
      | inr (decoded, found) ↦
          let trimmed = trim_slashes decoded in
          let relative = if length trimmed == 0 then index_file else trimmed in
          elim (Option-cases (push_segments root (split_on 47 relative))) [
            | inl refused ↦ ground (arith, found, refused)
            | inr (out, pushed) ↦
                let (added, same, plain) =
                  push_segments-IsPlain root (split_on 47 relative) out
                    (split_on-no_slash 47 relative) pushed in
                elim (Bool-cases (is_dir out)) [
                  | inl dir ↦
                      let value : result ≡ out ++ (index_file ∷ []) =
                        ground (arith, found, pushed, dir) in
                      (
                        added ++ (index_file ∷ []),
                        value
                            ∙ ap (λ o. o ++ (index_file ∷ [])) same
                            ∙ append_assoc root added (index_file ∷ []),
                        All-append IsPlain added (index_file ∷ []) plain (index_file-IsPlain, tt),
                      )
                  | inr file ↦
                      let value : result ≡ out = ground (arith, found, pushed, file) in
                      (added, value ∙ same, plain)
                ]
          ]
    ]

-- ===== src/Routing/Rules/Order.antt =====
-- Which rule decides.
use kanrin.Common.{
  ℕ, ◌≤◌, ◌≡◌, refl, Option-cases, inl, inr, sym, ◌∙◌, ap, List, [], ◌∷◌, ◌++◌, append-nil,
  append_assoc, Option, none, some, leb, if◌then◌else◌, All, arith,
}
use kanrin.Routing.Rules.{
  RouteDecision, RoutingContext, RoutingRule, RoutingEngine, new, insert_rule, sort_by_priority,
  add_rule, first_match, decide,
}

-- Of two candidates the one of lower priority number, and the first of them if these are equal.
abbrev pub better : Option RoutingRule → Option RoutingRule → Option RoutingRule
better none o = o
better (some r) none = some r
better (some r) (some s) = if leb r.priority s.priority then some r else some s

-- The best of the rules that match, in the order in which they were added.
pub best : RoutingContext → List RoutingRule → Option RoutingRule
best ctx [] = none
best ctx (r ∷ rs) = better (if r.matches ctx then some r else none) (best ctx rs)

-- The engine after rules are added one by one.
pub add_all : RoutingEngine → List RoutingRule → RoutingEngine
add_all e [] = e
add_all e (r ∷ rs) = add_all (add_rule e r) rs

abbrev Least : ℕ → List RoutingRule → Type 0
Least p rs = All (λ s. p ≤ s.priority) rs

abbrev IsSorted : List RoutingRule → Type 0
IsSorted [] = Unit {0}
IsSorted (r ∷ rs) = Least r.priority rs × IsSorted rs

Least-mono : (p q : ℕ) (rs : List RoutingRule) → p ≤ q → Least q rs → Least p rs
Least-mono p q [] h least = tt
Least-mono p q (r ∷ rs) h least = (omega arith, Least-mono p q rs h least.1)

insert_rule-Least :
    (p : ℕ) (r : RoutingRule) (rs : List RoutingRule)
    → p ≤ r.priority
    → Least p rs
    → Least p (insert_rule r rs)
unfolding insert_rule
insert_rule-Least p r [] h least = (h, tt)
insert_rule-Least p r (s ∷ rs) h least = ground (arith, insert_rule-Least p r rs h least.1)

insert_rule-IsSorted :
    (r : RoutingRule) (rs : List RoutingRule) → IsSorted rs → IsSorted (insert_rule r rs)
unfolding insert_rule
insert_rule-IsSorted r [] h = (tt, tt)
insert_rule-IsSorted r (s ∷ rs) h = ground (
  arith,
  Least-mono r.priority s.priority rs,
  insert_rule-Least s.priority r rs,
  insert_rule-IsSorted r rs h.1,
)

sort_by_priority-IsSorted : (rs : List RoutingRule) → IsSorted (sort_by_priority rs)
unfolding sort_by_priority
sort_by_priority-IsSorted [] = tt
sort_by_priority-IsSorted (r ∷ rs) =
    insert_rule-IsSorted r (sort_by_priority rs) (sort_by_priority-IsSorted rs)

module _ (ctx : RoutingContext) where
  first_match-Least :
      (p : ℕ) (rs : List RoutingRule) (s : RoutingRule)
      → Least p rs
      → first_match ctx rs ≡ some s
      → p ≤ s.priority
  unfolding first_match
  first_match-Least p [] s least e = cc
  first_match-Least p (r ∷ rs) s least e = ground (arith, first_match-Least p rs s least.1)

  first_match-insert_rule :
      (r : RoutingRule) (rs : List RoutingRule)
      → IsSorted rs
      → first_match ctx (insert_rule r rs)
        ≡ better (if r.matches ctx then some r else none) (first_match ctx rs)
  unfolding first_match insert_rule
  first_match-insert_rule r [] h = ground arith
  first_match-insert_rule r (s ∷ rs) h =
      let rest = first_match-insert_rule r rs h.1 in
      elim (Option-cases (first_match ctx rs)) [
        | inl missing ↦ ground (arith, rest, missing)
        | inr (t, found) ↦ ground (arith, rest, found, first_match-Least s.priority rs t h.0 found)
      ]

  first_match-sort_by_priority :
      (rs : List RoutingRule) → first_match ctx (sort_by_priority rs) ≡ best ctx rs
  unfolding first_match sort_by_priority best
  first_match-sort_by_priority [] = refl
  first_match-sort_by_priority (r ∷ rs) =
      first_match-insert_rule r (sort_by_priority rs) (sort_by_priority-IsSorted rs)
      ∙ ap (better (if r.matches ctx then some r else none)) (first_match-sort_by_priority rs)

  first_match-best : (rs : List RoutingRule) → IsSorted rs → first_match ctx rs ≡ best ctx rs
  unfolding first_match best
  first_match-best [] h = refl
  first_match-best (r ∷ rs) h = elim (Option-cases (first_match ctx rs)) [
    | inl missing ↦ ground (arith, missing, first_match-best rs h.1)
    | inr (t, found) ↦
        ground (arith, found, first_match-best rs h.1, first_match-Least r.priority rs t h.0 found)
  ]

  -- Sorting does not change which rule is best.
  best-sort_by_priority : (rs : List RoutingRule) → best ctx (sort_by_priority rs) ≡ best ctx rs
  best-sort_by_priority rs =
      sym (first_match-best (sort_by_priority rs) (sort_by_priority-IsSorted rs))
      ∙ first_match-sort_by_priority rs

  better_assoc : (a b c : Option RoutingRule) → better (better a b) c ≡ better a (better b c)
  better_assoc none b c = refl
  better_assoc (some r) none c = refl
  better_assoc (some r) (some s) none = ground arith
  better_assoc (some r) (some s) (some t) = ground arith

  best-append :
      (rs ss : List RoutingRule) → best ctx (rs ++ ss) ≡ better (best ctx rs) (best ctx ss)
  unfolding best
  best-append [] ss = refl
  best-append (r ∷ rs) ss =
      rw (best-append rs ss)
        (sym (better_assoc (if r.matches ctx then some r else none) (best ctx rs) (best ctx ss)))

  -- What was added, in the order of the additions, and what the engine holds have one best rule.
  record Added (e : RoutingEngine) (rs : List RoutingRule) : Type 0 where
    pub sorted : IsSorted (add_all e rs).rules
    pub same : best ctx (add_all e rs).rules ≡ best ctx (e.rules ++ rs)
    pub default : (add_all e rs).default_decision ≡ e.default_decision

  add_all-Added : (e : RoutingEngine) (rs : List RoutingRule) → IsSorted e.rules → Added e rs
  unfolding add_all add_rule
  add_all-Added e [] h = record { sorted = h; same = rw append-nil refl; default = refl }
  add_all-Added e (r ∷ rs) h =
      let joined = e.rules ++ (r ∷ []) in
      let rest = add_all-Added (add_rule e r) rs (sort_by_priority-IsSorted joined) in
      record {
        sorted = rest.sorted;
        same =
            rest.same
            ∙ best-append (sort_by_priority joined) rs
            ∙ ap (λ o. better o (best ctx rs)) (best-sort_by_priority joined)
            ∙ sym (best-append joined rs)
            ∙ ap (best ctx) (append_assoc e.rules (r ∷ []) rs);
        default = rest.default;
      }

  -- However rules were added, the routing engine follows the matching rule of lowest priority
  -- number, the one added first among equals, and its default if no rule matches.
  pub decide-add_all :
      (default_decision : RouteDecision) (rs : List RoutingRule)
      → decide (add_all (new default_decision) rs) ctx
        ≡ elim (best ctx rs) [ none ↦ default_decision | some rule ↦ rule.decision ]
  unfolding decide new
  decide-add_all default_decision rs =
      let added = add_all-Added (new default_decision) rs tt in
      ground (
        arith,
        added.default,
        added.same,
        first_match-best (add_all (new default_decision) rs).rules added.sorted,
      )

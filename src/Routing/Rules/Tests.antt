-- ===== src/Routing/Rules/Tests.antt =====
-- Runs of the routing engine.
use kanrin.Common.{ℕ, ◌≡◌, List, [], ◌∷◌, none, some}
use kanrin.Routing.Rules.{
  RoutingContext, RoutingRule, proxy, direct, block, tcp, v4, new, decide, domain_rule, port_rule,
}
use kanrin.Routing.Rules.Order.{best, add_all, decide-add_all}

-- "a.ir", port 443.
abbrev ctx : RoutingContext
ctx = record {
  src_ip = v4 1;
  dst_ip = v4 167772161;
  dst_port = 443;
  domain = some (97 ∷ 46 ∷ 105 ∷ 114 ∷ []);
  protocol = tcp;
  process_name = none;
  process_path = none;
}

-- "*.ir" sent directly, and port 443 through the tunnel, with the lower priority number.
abbrev rules : List RoutingRule
rules = domain_rule (42 ∷ 46 ∷ 105 ∷ 114 ∷ []) direct 20 ∷ port_rule (80 ∷ 443 ∷ []) proxy 10 ∷ []

decide-add_all_example :
    decide (add_all (new block) rules) ctx
    ≡ elim (best ctx rules) [ none ↦ block | some rule ↦ rule.decision ]
decide-add_all_example = decide-add_all ctx block rules

abbrev network : ℕ
network = 167772160

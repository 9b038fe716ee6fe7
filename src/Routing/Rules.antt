-- ===== src/Routing/Rules.antt =====
-- crates/kanrin-routing/src/rules.rs. A rule, there a trait object, is its three methods; a string is
-- its bytes, and an address its number.
pub mod Order
pub mod Prefix
mod Tests
use kanrin.Common.{
  ℕ, zero, suc, ◌+◌, ◌-◌, ◌%◌, ◌^◌, Bool, true, false, ◌&&◌, ◌||◌, not, List, [], ◌∷◌, ◌++◌, Option,
  none, some, map, ltb, leb, ◌==◌, if◌then◌else◌, length, drop,
}
use kanrin.Common.Table.{same_bytes}

pub data RouteDecision : Type 0 where
  proxy direct block : RouteDecision

pub data Protocol : Type 0 where
  tcp udp icmp : Protocol
  other : ℕ → Protocol

pub data IpAddr : Type 0 where
  v4 v6 : ℕ → IpAddr

pub record RoutingContext : Type 0 where
  pub src_ip : IpAddr
  pub dst_ip : IpAddr
  pub dst_port : ℕ
  pub domain : Option (List ℕ)
  pub protocol : Protocol
  pub process_name : Option (List ℕ)
  pub process_path : Option (List ℕ)

pub record RoutingRule : Type 0 where
  pub matches : RoutingContext → Bool
  pub decision : RouteDecision
  pub priority : ℕ

pub record RoutingEngine : Type 0 where
  pub rules : List RoutingRule
  pub default_decision : RouteDecision

pub new : RouteDecision → RoutingEngine
new default_decision = record { rules = []; default_decision = default_decision }

-- `sort_by_key` is stable: a rule goes in front of those of its priority that stood behind it.
insert_rule : RoutingRule → List RoutingRule → List RoutingRule
insert_rule r [] = r ∷ []
insert_rule r (s ∷ rs) =
    let rest = insert_rule r rs in if leb r.priority s.priority then r ∷ s ∷ rs else s ∷ rest

sort_by_priority : List RoutingRule → List RoutingRule
sort_by_priority [] = []
sort_by_priority (r ∷ rs) = insert_rule r (sort_by_priority rs)

pub add_rule : RoutingEngine → RoutingRule → RoutingEngine
add_rule e rule = record e { rules = sort_by_priority (e.rules ++ (rule ∷ [])) }

-- The loop of `decide`: the first rule that matches.
first_match : RoutingContext → List RoutingRule → Option RoutingRule
first_match ctx [] = none
first_match ctx (r ∷ rs) = let rest = first_match ctx rs in if r.matches ctx then some r else rest

pub decide : RoutingEngine → RoutingContext → RouteDecision
decide e ctx = elim (first_match ctx e.rules) [
  | none ↦ e.default_decision
  | some rule ↦ rule.decision
]

rule_count : RoutingEngine → ℕ
rule_count e = length e.rules

-- `xs.ends_with(suffix)`
ends_with : List ℕ → (suffix : List ℕ) → Bool
ends_with xs suffix =
    leb (length suffix) (length xs) && same_bytes (drop (length xs - length suffix) xs) suffix

-- 42 and 46 are the star and the dot of "*.": what stands behind it, if the pattern starts so.
wildcard : (pattern : List ℕ) → Option (List ℕ)
wildcard [] = none
wildcard (a ∷ []) = none
wildcard (a ∷ b ∷ rest) = if (a == 42) && (b == 46) then some rest else none

domain_matches : (pattern domain : List ℕ) → Bool
unfolding wildcard ends_with
domain_matches pattern domain = elim (wildcard pattern) [
  | none ↦ same_bytes domain pattern
  | some rest ↦ ends_with domain (46 ∷ rest) || same_bytes domain rest
]

pub domain_rule : (pattern : List ℕ) → RouteDecision → (priority : ℕ) → RoutingRule
unfolding domain_matches
domain_rule pattern decision priority = record {
  matches = λ ctx. elim ctx.domain [ none ↦ false | some domain ↦ domain_matches pattern domain ];
  decision = decision;
  priority = priority;
}

-- `bits & mask`, where the mask is all ones, or all ones shifted left by `width - prefix_len`. The
-- shift amount counts modulo the width, as it does where overflow is not checked.
masked : (width prefix_len bits : ℕ) → ℕ
masked width prefix_len bits =
    if leb width prefix_len then bits else bits - bits % 2 ^ ((width - prefix_len) % width)

pub ip_in_cidr : (ip network : IpAddr) (prefix_len : ℕ) → Bool
unfolding masked
ip_in_cidr (v4 ip) (v4 net) prefix_len = masked 32 prefix_len ip == masked 32 prefix_len net
ip_in_cidr (v6 ip) (v6 net) prefix_len = masked 128 prefix_len ip == masked 128 prefix_len net
ip_in_cidr (v4 ip) (v6 net) prefix_len = false
ip_in_cidr (v6 ip) (v4 net) prefix_len = false

ip_rule : (network : IpAddr) (prefix_len : ℕ) → RouteDecision → (priority : ℕ) → RoutingRule
ip_rule network prefix_len decision priority = record {
  matches = λ ctx. ip_in_cidr ctx.dst_ip network prefix_len;
  decision = decision;
  priority = priority;
}

contains : ℕ → List ℕ → Bool
contains x [] = false
contains x (y ∷ ys) = (y == x) || contains x ys

pub port_rule : (ports : List ℕ) → RouteDecision → (priority : ℕ) → RoutingRule
unfolding contains
port_rule ports decision priority = record {
  matches = λ ctx. contains ctx.dst_port ports;
  decision = decision;
  priority = priority;
}

to_ascii_lowercase : ℕ → ℕ
to_ascii_lowercase b = if leb 65 b && leb b 90 then b + 32 else b

eq_ignore_ascii_case : List ℕ → List ℕ → Bool
unfolding to_ascii_lowercase
eq_ignore_ascii_case xs ys = same_bytes (map to_ascii_lowercase xs) (map to_ascii_lowercase ys)

any_name : (name : List ℕ) → List (List ℕ) → Bool
unfolding eq_ignore_ascii_case
any_name name [] = false
any_name name (p ∷ ps) = eq_ignore_ascii_case name p || any_name name ps

process_rule : (names : List (List ℕ)) → RouteDecision → (priority : ℕ) → RoutingRule
unfolding any_name
process_rule names decision priority = record {
  matches = λ ctx. elim ctx.process_name [ none ↦ false | some name ↦ any_name name names ];
  decision = decision;
  priority = priority;
}

-- ===== src/Core/Routing.antt =====
-- crates/missive-core/src/routing.rs: the names of the routing policies.
use missive.Common.{Option, none, some, ◌||◌, ◌≡◌, refl, if◌then◌else◌}
use missive.Common.Str.{Str, lit, str_eq, trim}

pub data RoutingPolicyKind : Type 0 where
  direct capability_match tag_match round_robin weighted : RoutingPolicyKind
  broadcast first_success quorum fallback : RoutingPolicyKind

pub policy_as_str : RoutingPolicyKind → Str
policy_as_str RoutingPolicyKind.direct = lit "direct"
policy_as_str RoutingPolicyKind.capability_match = lit "capability-match"
policy_as_str RoutingPolicyKind.tag_match = lit "tag-match"
policy_as_str RoutingPolicyKind.round_robin = lit "round-robin"
policy_as_str RoutingPolicyKind.weighted = lit "weighted"
policy_as_str RoutingPolicyKind.broadcast = lit "broadcast"
policy_as_str RoutingPolicyKind.first_success = lit "first-success"
policy_as_str RoutingPolicyKind.quorum = lit "quorum"
policy_as_str RoutingPolicyKind.fallback = lit "fallback"

unfoldable pub policy_from_name : Str → Option RoutingPolicyKind
unfolding trim str_eq
policy_from_name value =
    let v = trim value in
    if str_eq v (lit "direct")
    then some RoutingPolicyKind.direct
    else if str_eq v (lit "capability-match") || str_eq v (lit "capability_match")
    then some RoutingPolicyKind.capability_match
    else if str_eq v (lit "tag-match") || str_eq v (lit "tag_match")
    then some RoutingPolicyKind.tag_match
    else if str_eq v (lit "round-robin") || str_eq v (lit "round_robin")
    then some RoutingPolicyKind.round_robin
    else if str_eq v (lit "weighted")
    then some RoutingPolicyKind.weighted
    else if str_eq v (lit "broadcast")
    then some RoutingPolicyKind.broadcast
    else if str_eq v (lit "first-success") || str_eq v (lit "first_success")
    then some RoutingPolicyKind.first_success
    else if str_eq v (lit "quorum")
    then some RoutingPolicyKind.quorum
    else if str_eq v (lit "fallback")
    then some RoutingPolicyKind.fallback
    else none

-- Every policy is read back from its canonical name.
pub policy_from_name-policy_as_str :
    (k : RoutingPolicyKind) → policy_from_name (policy_as_str k) ≡ some k
unfolding policy_from_name policy_as_str
policy_from_name-policy_as_str RoutingPolicyKind.direct = refl
policy_from_name-policy_as_str _ = refl

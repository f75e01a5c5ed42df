-- ===== src/Core/Trust.antt =====
-- aae/core/trust_boundary.py: the rules that code, not prompts, enforces.
use self_spawn_agents.Prelude.{
  Bool, true, false, List, [], ◌∷◌, Result, ok, err, trust_violation, Text, codes, text_eqb, any,
  select, if◌then◌else◌,
}
use self_spawn_agents.Schemas.Common.{AgentTier, mother}

pub data SystemState : Type 0 where
  normal hard_stop : SystemState

-- `tier in MOTHER_ONLY_WRITERS`
abbrev mother_only_writers : AgentTier → Bool
mother_only_writers mother = true
mother_only_writers _ = false

unfoldable pub require_mother_for_ledger : AgentTier → Result (Unit {0})
require_mother_for_ledger tier = if mother_only_writers tier then ok tt else err trust_violation

abbrev pub child_forbidden_nodes : List Text
child_forbidden_nodes =
    codes "dispatch_build"
    ∷ codes "spawn_child"
    ∷ codes "write_cashflow"
    ∷ codes "request_ethics"
    ∷ []

-- `x in xs` for texts
abbrev pub text_in : Text → List Text → Bool
text_in x xs = any (text_eqb x) xs

-- The nodes that are forbidden, `nodes & CHILD_FORBIDDEN_NODES`.
abbrev pub forbidden_in : List Text → List Text
forbidden_in nodes = select (λ n. text_in n child_forbidden_nodes) nodes

abbrev none_or_violation : List Text → Result (Unit {0})
none_or_violation [] = ok tt
none_or_violation (n ∷ ns) = err trust_violation

unfoldable pub assert_child_graph_allowed : List Text → Result (Unit {0})
assert_child_graph_allowed nodes = none_or_violation (forbidden_in nodes)

unfoldable pub assert_no_network_in_builder : Bool → Result (Unit {0})
assert_no_network_in_builder network_required =
    if network_required then err trust_violation else ok tt

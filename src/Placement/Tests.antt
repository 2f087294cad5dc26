-- ===== src/Placement/Tests.antt =====
-- A team of three on two nodes, and the theorems at it.
use autobyteus_server_ts.Common.{
  ok, err, All, String, ◌≡◌, refl, true, false, Option, none, some, [], ◌∷◌, arith, str_eq_iff,
}
use autobyteus_server_ts.Common.Text.{normalize, normalize_optional, trim}
use autobyteus_server_ts.Common.Dict.{set}
use autobyteus_server_ts.Placement.{
  canonicalize_home_node_id, TeamMember, AgentTeamDefinition, CandidateNode, PlacementByMember,
  Source, unknown_home_node, hash_member_name, is_eligible, assign_by_capability_and_health,
  place_member, resolve_placement,
}
use autobyteus_server_ts.Placement.Laws.{home_of, CanRun}
use autobyteus_server_ts.Placement.Resolution.{
  ArePlaced, resolve_placement-ArePlaced, CanRun-of_resolved,
}

abbrev member : String → Option String → TeamMember
member name h = record {
  member_name = name;
  reference_id = name;
  reference_type = "AGENT";
  home_node_id = h;
}

abbrev node_a : CandidateNode
node_a = record { node_id = "a"; is_healthy = none; supports_agent_execution = some true }

abbrev node_b : CandidateNode
node_b = record { node_id = "b"; is_healthy = some true; supports_agent_execution = none }

abbrev sick : CandidateNode
sick = record { node_id = "c"; is_healthy = some false; supports_agent_execution = none }

abbrev team : AgentTeamDefinition
team = record {
  id = some "t";
  nodes = member "lead" (some " b ") ∷ member "dev" (some "embedded-local") ∷ member "qa" none ∷ [];
  coordinator_member_name = "lead";
}

hash_test : hash_member_name "dev" ≡ 99349
unfolding hash_member_name
hash_test = refl

placed_test :
    resolve_placement team (node_a ∷ sick ∷ node_b ∷ []) (some "a")
    ≡ ok (
        ("lead", record { member_name = "lead"; node_id = "b"; source = Source.home })
        ∷ ("dev", record { member_name = "dev"; node_id = "a"; source = Source.home })
        ∷ ("qa", record { member_name = "qa"; node_id = "a"; source = Source.default_node })
        ∷ [])
unfolding resolve_placement normalize_optional normalize trim assign_by_capability_and_health set
placed_test = refl

unknown_test :
    place_member (node_a ∷ []) none (member "x" (some "z")) ≡ err (unknown_home_node "x" "z")
unfolding place_member normalize_optional normalize trim
unknown_test = refl

resolve_placement-ArePlaced_example :
    (placed : PlacementByMember) × (resolve_placement team (node_a ∷ sick ∷ node_b ∷ []) (some "a")
      ≡ ok placed)
    × ArePlaced (node_a ∷ sick ∷ node_b ∷ []) (some "a") placed team.nodes
unfolding normalize_optional normalize trim is_eligible canonicalize_home_node_id
resolve_placement-ArePlaced_example =
    resolve_placement-ArePlaced team (node_a ∷ sick ∷ node_b ∷ []) (some "a")
      (
        (
          (λ e. ground (arith, str_eq_iff "dev" "lead")),
          ((λ e. ground (arith, str_eq_iff "qa" "lead")), tt),
        ),
        (((λ e. ground (arith, str_eq_iff "qa" "dev")), tt), (tt, tt)),
      )
      (refl, (refl, (omega arith, tt)))

CanRun-of_resolved_example :
    All (λ m. CanRun (node_a ∷ []) (home_of m (some "a"))) (member "qa" none ∷ [])
unfolding normalize_optional normalize trim resolve_placement assign_by_capability_and_health set
CanRun-of_resolved_example =
    CanRun-of_resolved (record team { nodes = member "qa" none ∷ [] }) (node_a ∷ []) (some "a")
      (("qa", record { member_name = "qa"; node_id = "a"; source = Source.default_node }) ∷ []) refl

-- ===== src/Placement.antt =====
-- src/distributed/member-placement/member-placement-resolver.ts with the two policies it rests on,
-- src/distributed/policies/placement-constraint-policy.ts and default-placement-policy.ts: on which
-- node each member of a team runs. A blank text is falsy, and so is `null`. `hash_member_name` goes
-- over UTF-16 code units, as `charCodeAt` does, and wraps at 2 ^ 32.
pub mod Laws
pub mod Resolution
mod Tests
use Prim.Native.Char.{code}
use autobyteus_server_ts.Common.{
  ltb, ◌==◌, if◌then◌else◌, Result, ok, err, ◌>>=◌, length, get_elem?, filter, find, ℕ, ◌+◌, ◌-◌,
  ◌*◌, ◌/◌, ◌%◌, ◌^◌, String, Bool, true, false, ◌&&◌, Option, none, some, List, [], ◌∷◌, map,
  str_eq,
}
use autobyteus_server_ts.Common.Text.{normalize_optional}
use autobyteus_server_ts.Common.Dict.{Dict, set, contains}

pub record TeamMember : Type 0 where
  pub member_name : String
  pub reference_id : String
  pub reference_type : String
  pub home_node_id : Option String

pub record AgentTeamDefinition : Type 0 where
  pub id : Option String
  pub nodes : List TeamMember
  pub coordinator_member_name : String

pub record CandidateNode : Type 0 where
  pub node_id : String
  pub is_healthy : Option Bool
  pub supports_agent_execution : Option Bool

pub data Source : Type 0 where
  home default_node : Source

pub record MemberPlacement : Type 0 where
  pub member_name : String
  pub node_id : String
  pub source : Source

-- `undefined_node` is the fault of reading a field of `undefined`.
pub data Error : Type 0 where
  unknown_home_node home_node_unavailable : (member_name home_node_id : String) → Error
  no_placement_candidate : (member_name : String) → Error
  undefined_node : Error

-- `value !== false`, for a field that may be missing.
abbrev pub not_false : Option Bool → Bool
not_false (some false) = false
not_false _ = true

unfoldable pub is_eligible : CandidateNode → Bool
is_eligible n = not_false n.supports_agent_execution && not_false n.is_healthy

-- One character as UTF-16 code units.
abbrev code_units : ℕ → List ℕ
code_units c =
    if ltb c 65536 then c ∷ [] else (55296 + (c - 65536) / 1024) ∷ (56320 + (c - 65536) % 1024) ∷ []

hash_units : ℕ → List ℕ → ℕ
hash_units hash [] = hash
hash_units hash (u ∷ us) = hash_units ((hash * 31 + u) % 2 ^ 32) us

hash_from : ℕ → String → ℕ
unfolding hash_units
hash_from hash String.[] = hash
hash_from hash (String.◌∷◌ c s) = hash_from (hash_units hash (code_units (code c))) s

unfoldable pub hash_member_name : String → ℕ
unfolding hash_from
hash_member_name name = hash_from 0 name

abbrev node_at : Option CandidateNode → Result Error String
node_at none = err undefined_node
node_at (some n) = ok n.node_id

-- The node by the hash of the member's name.
unfoldable pub assign_by_hash : TeamMember → List CandidateNode → Result Error String
unfolding hash_member_name
assign_by_hash member eligible =
    node_at (get_elem? eligible (hash_member_name member.member_name % length eligible))

-- The node with the default's id, if the default is given and eligible.
unfoldable pub preferred_default : Option String → List CandidateNode → Option CandidateNode
preferred_default none eligible = none
preferred_default (some d) eligible =
    if str_eq d "" then none else find (λ n. str_eq n.node_id d) eligible

unfoldable pub assign_by_capability_and_health :
    TeamMember → List CandidateNode → Option String → Result Error String
unfolding is_eligible preferred_default assign_by_hash
assign_by_capability_and_health member candidates default_id =
    let eligible = filter is_eligible candidates in
    if length eligible == 0
    then err (no_placement_candidate member.member_name)
    else elim (preferred_default default_id eligible) [
      | none ↦ assign_by_hash member eligible
      | some n ↦ ok n.node_id
    ]

-- `homeNodeId && …`: a blank id has been normalised to `null`.
unfoldable pub validate_home_node_ownership :
    TeamMember → List String → List String → Result Error (Unit {0})
validate_home_node_ownership member known available =
    elim (normalize_optional member.home_node_id) [
      | none ↦ ok tt
      | some h ↦
          if contains known h
          then if contains available h
            then ok tt
            else err (home_node_unavailable member.member_name h)
          else err (unknown_home_node member.member_name h)
    ]

-- `… && defaultNodeId`: an empty default is none.
abbrev embedded_home : Option String → String → String
embedded_home none h = h
embedded_home (some d) h = if str_eq d "" then h else d

-- "embedded-local" stands for the default node.
unfoldable pub canonicalize_home_node_id : Option String → Option String → Option String
canonicalize_home_node_id value default_id = elim (normalize_optional value) [
  | none ↦ none
  | some h ↦ if str_eq h "embedded-local" then some (embedded_home default_id h) else some h
]

-- A home that has passed the validation, or the default policy.
unfoldable pub place_by :
    TeamMember
    → List CandidateNode
    → Option String
    → List String
    → Option String
    → Result Error MemberPlacement
place_by member nodes default_id available none = do
  n ← assign_by_capability_and_health member nodes default_id
  ok (record { member_name = member.member_name; node_id = n; source = default_node })
place_by member nodes default_id available (some h) =
    if contains available h
    then ok (record { member_name = member.member_name; node_id = h; source = home })
    else (do
      n ← assign_by_capability_and_health member nodes default_id
      ok (record { member_name = member.member_name; node_id = n; source = default_node }))

-- One round of the loop over the members.
unfoldable pub place_member :
    List CandidateNode → Option String → TeamMember → Result Error MemberPlacement
unfolding place_by canonicalize_home_node_id validate_home_node_ownership is_eligible
place_member nodes default_id member =
    let canonicalized = record member {
      home_node_id = canonicalize_home_node_id member.home_node_id default_id;
    } in
    let known = map (λ (n : CandidateNode). n.node_id) nodes in
    let available = map (λ (n : CandidateNode). n.node_id) (filter is_eligible nodes) in
    (do
      u ← validate_home_node_ownership canonicalized known available
      place_by member nodes default_id available (normalize_optional canonicalized.home_node_id))

abbrev pub PlacementByMember : Type 0
PlacementByMember = Dict MemberPlacement

unfoldable pub place_members :
    List CandidateNode
    → Option String
    → List TeamMember
    → PlacementByMember
    → Result Error PlacementByMember
place_members nodes default_id [] placed = ok placed
place_members nodes default_id (m ∷ ms) placed = do
  p ← place_member nodes default_id m
  place_members nodes default_id ms (set placed m.member_name p)

unfoldable pub resolve_placement :
    AgentTeamDefinition → List CandidateNode → Option String → Result Error PlacementByMember
unfolding place_members place_member
resolve_placement team nodes default_id =
    place_members nodes (normalize_optional default_id) team.nodes []

-- ===== src/Placement/Resolution.antt =====
-- The placement of a whole team.
use autobyteus_server_ts.Common.{
  ok, >>=-eq-ok, All, String, ◌≡◌, refl, ◌∙◌, ◌≢◌, Option, some, List, [], ◌∷◌, arith,
}
use autobyteus_server_ts.Common.Text.{normalize_optional}
use autobyteus_server_ts.Common.Dict.{get, set, get-set_self, get-set_ne}
use autobyteus_server_ts.Placement.{
  TeamMember, AgentTeamDefinition, CandidateNode, MemberPlacement, PlacementByMember, place_member,
  place_members, resolve_placement,
}
use autobyteus_server_ts.Placement.Laws.{home_of, IsPlaced, CanRun, place_member-ok, CanRun-of_ok}

-- The members have distinct names.
abbrev pub Absent : String → List TeamMember → Type 0
Absent name ms = All (λ m. m.member_name ≢ name) ms

abbrev pub HasDistinctNames : List TeamMember → Type 0
HasDistinctNames [] = Unit
HasDistinctNames (m ∷ ms) = Absent m.member_name ms × HasDistinctNames ms

-- Each member has its entry, and the entry is right.
abbrev pub ArePlaced :
    List CandidateNode → Option String → PlacementByMember → List TeamMember → Type 0
ArePlaced ns d placed ms =
    All (λ m. (p : MemberPlacement) × (get placed m.member_name ≡ some p) × IsPlaced ns d m p) ms

module _ (ns : List CandidateNode) (d : Option String) where
  place_members-Absent :
      (ms : List TeamMember) (name : String) (before after : PlacementByMember)
      → Absent name ms
      → place_members ns d ms before ≡ ok after
      → get after name ≡ get before name
  unfolding place_members
  place_members-Absent [] name before after a h = ground arith
  place_members-Absent (m ∷ ms) name before after a h =
      let (p, placed, rest) = >>=-eq-ok (place_member ns d m) _ h in
      place_members-Absent ms name (set before m.member_name p) after a.1 rest
      ∙ get-set_ne before m.member_name name p a.0

  place_members-total :
      (ms : List TeamMember) (before : PlacementByMember)
      → All (λ m. CanRun ns (home_of m d)) ms
      → HasDistinctNames ms
      → (after : PlacementByMember) × (place_members ns d ms before ≡ ok after)
        × ArePlaced ns d after ms
  unfolding place_members
  place_members-total [] before h k = (before, refl, tt)
  place_members-total (m ∷ ms) before h k =
      let (p, placed, right) = place_member-ok m ns d h.0 in
      let (after, rest, all_right) = place_members-total ms (set before m.member_name p) h.1 k.1 in
      (
        after,
        rw placed rest,
        (
          (
            p,
            place_members-Absent ms m.member_name (set before m.member_name p) after k.0 rest
                ∙ get-set_self before m.member_name p,
            right,
          ),
          all_right,
        ),
      )

  place_members-CanRun :
      (ms : List TeamMember) (before after : PlacementByMember)
      → place_members ns d ms before ≡ ok after
      → All (λ m. CanRun ns (home_of m d)) ms
  unfolding place_members
  place_members-CanRun [] before after h = tt
  place_members-CanRun (m ∷ ms) before after h =
      let (p, placed, rest) = >>=-eq-ok (place_member ns d m) _ h in
      (
        CanRun-of_ok m ns d p placed,
        place_members-CanRun ms (set before m.member_name p) after rest,
      )

-- A team whose members all have a node to run on is placed: each member on an available node, on
-- its home if it has one, else on the default node if that is available.
pub resolve_placement-ArePlaced :
    (team : AgentTeamDefinition) (ns : List CandidateNode) (d : Option String)
    → HasDistinctNames team.nodes
    → All (λ m. CanRun ns (home_of m (normalize_optional d))) team.nodes
    → (placed : PlacementByMember) × (resolve_placement team ns d ≡ ok placed)
      × ArePlaced ns (normalize_optional d) placed team.nodes
unfolding resolve_placement
resolve_placement-ArePlaced team ns d k h =
    place_members-total ns (normalize_optional d) team.nodes [] h k

-- A team is placed only if its members all have a node to run on: an unknown or unavailable home
-- fails the whole team, as does a member with no home when no node is eligible.
pub CanRun-of_resolved :
    (team : AgentTeamDefinition) (ns : List CandidateNode) (d : Option String)
    (placed : PlacementByMember)
    → resolve_placement team ns d ≡ ok placed
    → All (λ m. CanRun ns (home_of m (normalize_optional d))) team.nodes
unfolding resolve_placement
CanRun-of_resolved team ns d placed h =
    place_members-CanRun ns (normalize_optional d) team.nodes [] placed h

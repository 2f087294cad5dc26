-- ===== src/Placement/Laws.antt =====
-- Where one member may be placed.
use native.Mathlib.Nat.{mod-lt}
use autobyteus_server_ts.Common.{
  ◌==◌, Bool-cases, Option-cases, Result, ok, err, length, filter, find, All, All-map,
  get_elem?_total, get_elem?-All, find-All, ◌%◌, ◌≤◌, String, ◌≡◌, refl, sym, ap, ◌≢◌, inl, inr,
  true, Option, none, some, List, [], ◌∷◌, map, arith, str_eq, str_eq_iff, str_eq_refl,
}
use autobyteus_server_ts.Common.Text.{normalize_optional}
use autobyteus_server_ts.Common.Dict.{contains}
use autobyteus_server_ts.Placement.{
  TeamMember, CandidateNode, home, default_node, MemberPlacement, Error, no_placement_candidate,
  is_eligible, hash_member_name, assign_by_hash, preferred_default, assign_by_capability_and_health,
  validate_home_node_ownership, canonicalize_home_node_id, place_by, place_member,
}

abbrev pub node_ids : List CandidateNode → List String
node_ids ns = map (λ (n : CandidateNode). n.node_id) ns

abbrev pub available_ids : List CandidateNode → List String
available_ids ns = node_ids (filter is_eligible ns)

-- Some healthy node that runs agents has this id.
abbrev pub IsAvailable : List CandidateNode → String → Type 0
IsAvailable ns id = contains (available_ids ns) id ≡ true

node_ids-All : (ns : List CandidateNode) → All (λ n. contains (node_ids ns) n.node_id ≡ true) ns
node_ids-All [] = tt
node_ids-All (n ∷ ns) = (
  simp str_eq_refl,
  All-map (λ m. contains (node_ids ns) m.node_id ≡ true)
      (λ m. contains (node_ids (n ∷ ns)) m.node_id ≡ true) (λ m h. ground arith) ns
      (node_ids-All ns),
)

contains-available :
    (ns : List CandidateNode) (id : String) → IsAvailable ns id → contains (node_ids ns) id ≡ true
contains-available [] id h = h
contains-available (n ∷ ns) id h = ground (arith, contains-available ns id)

preferred_default-find :
    (d : Option String) (ns : List CandidateNode) (n : CandidateNode)
    → preferred_default d ns ≡ some n
    → (contains (node_ids ns) n.node_id ≡ true) × (d ≡ some n.node_id)
unfolding preferred_default
preferred_default-find none ns n h = cc
preferred_default-find (some d) ns n h =
    let hit : find (λ m. str_eq m.node_id d) ns ≡ some n = ground arith in
    let (listed, same) =
      find-All (λ m. contains (node_ids ns) m.node_id ≡ true) (λ m. str_eq m.node_id d) ns n
        (node_ids-All ns) hit in
    (listed, ap some (sym ((str_eq_iff n.node_id d).0 same)))

assign_by_hash_total :
    (m : TeamMember) (ns : List CandidateNode)
    → 1 ≤ length ns
    → (n : CandidateNode) × (assign_by_hash m ns ≡ ok n.node_id)
      × (contains (node_ids ns) n.node_id ≡ true)
unfolding assign_by_hash
assign_by_hash_total m ns h =
    let (n, found) =
      get_elem?_total ns (hash_member_name m.member_name % length ns) (mod-lt _ (omega arith)) in
    (
      n,
      rw found refl,
      get_elem?-All (λ m. contains (node_ids ns) m.node_id ≡ true) ns _ n (node_ids-All ns) found,
    )

-- The default policy finds an available node whenever there is one, and prefers the default.
pub assign_total :
    (m : TeamMember) (ns : List CandidateNode) (d : Option String)
    → 1 ≤ length (filter is_eligible ns)
    → (id : String) × (assign_by_capability_and_health m ns d ≡ ok id) × IsAvailable ns id
unfolding assign_by_capability_and_health
assign_total m ns d h =
    let (n, hashed, listed) = assign_by_hash_total m (filter is_eligible ns) h in
    elim (Option-cases (preferred_default d (filter is_eligible ns))) [
      | inl e ↦ (n.node_id, rw e (ground arith), listed)
      | inr (p, e) ↦
          (p.node_id, rw e (ground arith), (preferred_default-find d (filter is_eligible ns) p e).0)
    ]

assign_none :
    (m : TeamMember) (ns : List CandidateNode) (d : Option String)
    → length (filter is_eligible ns) ≡ 0
    → assign_by_capability_and_health m ns d ≡ err (no_placement_candidate m.member_name)
unfolding assign_by_capability_and_health
assign_none m ns d h = ground arith

find-contains :
    (ns : List CandidateNode) (d : String)
    → contains (node_ids ns) d ≡ true
    → (n : CandidateNode) × (find (λ m. str_eq m.node_id d) ns ≡ some n) × (n.node_id ≡ d)
find-contains [] d h = cc
find-contains (n ∷ ns) d h = elim (Bool-cases (str_eq n.node_id d)) [
  | inl e ↦ (n, rw e refl, (str_eq_iff n.node_id d).0 e)
  | inr e ↦ let (m, found, same) = find-contains ns d (rw e at h) in (m, rw e found, same)
]

pub length-contains :
    (ns : List CandidateNode) (d : String) → contains (node_ids ns) d ≡ true → 1 ≤ length ns
length-contains [] d h = cc
length-contains (n ∷ ns) d h = omega arith

assign_default :
    (m : TeamMember) (ns : List CandidateNode) (d : String)
    → d ≢ ""
    → IsAvailable ns d
    → assign_by_capability_and_health m ns (some d) ≡ ok d
unfolding assign_by_capability_and_health preferred_default
assign_default m ns d ne h =
    let (n, found, same) = find-contains (filter is_eligible ns) d h in
    let preferred : preferred_default (some d) (filter is_eligible ns) ≡ some n =
      ground (arith, str_eq_iff d "", found) in
    ground (arith, preferred, same, length-contains (filter is_eligible ns) d h)

-- The home that counts: trimmed, with the default node for "embedded-local".
abbrev pub home_of : TeamMember → Option String → Option String
home_of m d = normalize_optional (canonicalize_home_node_id m.home_node_id d)

-- A member runs on its home; one with no home runs on the default node if that is available.
abbrev pub Follows : List CandidateNode → Option String → Option String → MemberPlacement → Type 0
Follows ns (some h) d p = (p.node_id ≡ h) × (p.source ≡ home)
Follows ns none d p =
    (p.source ≡ default_node)
    × ((e : String) → d ≡ some e → e ≢ "" → IsAvailable ns e → p.node_id ≡ e)

abbrev pub IsPlaced : List CandidateNode → Option String → TeamMember → MemberPlacement → Type 0
IsPlaced ns d m p =
    (p.member_name ≡ m.member_name) × IsAvailable ns p.node_id × Follows ns (home_of m d) d p

-- There is a node for the member: its home, or any at all if it has none.
abbrev pub CanRun : List CandidateNode → Option String → Type 0
CanRun ns none = 1 ≤ length (filter is_eligible ns)
CanRun ns (some h) = IsAvailable ns h

abbrev validated : TeamMember → Option String → List CandidateNode → Result Error (Unit {0})
validated m d ns =
    validate_home_node_ownership
      (record m { home_node_id = canonicalize_home_node_id m.home_node_id d }) (node_ids ns)
      (available_ids ns)

place_by_default :
    (m : TeamMember) (ns : List CandidateNode) (d : Option String)
    → CanRun ns none
    → (p : MemberPlacement) × (place_by m ns d (available_ids ns) none ≡ ok p)
      × ((p.member_name ≡ m.member_name) × IsAvailable ns p.node_id × Follows ns none d p)
unfolding place_by
place_by_default m ns d h =
    let (id, assigned, listed) = assign_total m ns d h in
    (
      record { member_name = m.member_name; node_id = id; source = default_node },
      rw assigned refl,
      (refl, listed, (refl, λ e same ne up. prefer e same ne up id assigned)),
    )
  where
    prefer :
        (e : String)
        → d ≡ some e
        → e ≢ ""
        → IsAvailable ns e
        → (id : String) → assign_by_capability_and_health m ns d ≡ ok id
        → id ≡ e
    prefer e same ne up id assigned = cc (assign_default m ns e ne up)

place_member_home :
    (m : TeamMember) (ns : List CandidateNode) (d : Option String) (o : Option String)
    → home_of m d ≡ o
    → CanRun ns o
    → (p : MemberPlacement) × (place_member ns d m ≡ ok p)
      × ((p.member_name ≡ m.member_name) × IsAvailable ns p.node_id × Follows ns o d p)
unfolding place_member validate_home_node_ownership place_by
place_member_home m ns d none e h =
    let (p, placed, right) = place_by_default m ns d h in
    (p, rw (e, validate_home_node_ownership) placed, right)
place_member_home m ns d (some x) e h = (
  record { member_name = m.member_name; node_id = x; source = home },
  rw (e, validate_home_node_ownership) (rw (contains-available ns x h, h) refl),
  (refl, h, (refl, refl)),
)

place_member_refused :
    (m : TeamMember) (ns : List CandidateNode) (d : Option String) (o : Option String)
    (p : MemberPlacement)
    → home_of m d ≡ o
    → place_member ns d m ≡ ok p
    → CanRun ns o
unfolding place_member validate_home_node_ownership place_by
place_member_refused m ns d none p e h = elim (Bool-cases (length (filter is_eligible ns) == 0)) [
  | inl zero_nodes ↦ absurd (ground (arith, assign_none m ns d))
  | inr some_nodes ↦ ground arith
]
place_member_refused m ns d (some x) p e h = ground (arith, e)

-- A member is placed exactly when there is a node for it.
pub place_member-ok :
    (m : TeamMember) (ns : List CandidateNode) (d : Option String)
    → CanRun ns (home_of m d)
    → (p : MemberPlacement) × (place_member ns d m ≡ ok p) × IsPlaced ns d m p
place_member-ok m ns d h = place_member_home m ns d (home_of m d) refl h

pub CanRun-of_ok :
    (m : TeamMember) (ns : List CandidateNode) (d : Option String) (p : MemberPlacement)
    → place_member ns d m ≡ ok p
    → CanRun ns (home_of m d)
CanRun-of_ok m ns d p h = place_member_refused m ns d (home_of m d) p refl h

-- ===== src/Common/Dict.antt =====
-- A JavaScript `Map` with text keys: an association list in the order of insertion. Writing a key
-- that is present keeps its place, a new key goes to the end, and `keys().next()` is the oldest.
use Prim.Native.String.{String}
use Prim.Native.Nat.{suc, ◌≤◌}
use mathlib.Core.Path.{◌≡◌, refl}
use mathlib.Core.Logic.{◌≢◌}
use mathlib.Core.Bool.{true, false, Bool}
use mathlib.Core.Option.{Option, none, some}
use mathlib.Core.List.{List, [], ◌∷◌}
use native.Mathlib.Omega.{arith}
use text.Mathlib.Text.{◌==◌}
use text.Mathlib.TextEquality.{eq_iff}
use text.Mathlib.TextPositions.{eq_refl}
use autobyteus_server_ts.Common.Tests.{if◌then◌else◌, is_some}
use autobyteus_server_ts.Common.Lists.{length, All}

abbrev pub Dict {ℓ} : Type ℓ → Type ℓ
Dict V = List (String × V)

module _ {ℓ} {V : Type ℓ} where
  unfoldable pub get : Dict V → String → Option V
  get [] k = none
  get ((j, v) ∷ m) k = if j == k then some v else get m k

  abbrev pub has : Dict V → String → Bool
  has m k = is_some (get m k)

  unfoldable pub set : Dict V → String → V → Dict V
  set [] k v = (k, v) ∷ []
  set ((j, w) ∷ m) k v = if j == k then (j, v) ∷ m else (j, w) ∷ set m k v

  unfoldable pub delete : Dict V → String → Dict V
  delete [] k = []
  delete ((j, w) ∷ m) k = if j == k then delete m k else (j, w) ∷ delete m k

  abbrev pub keys : Dict V → List String
  keys [] = []
  keys ((j, w) ∷ m) = j ∷ keys m

  abbrev pub values : Dict V → List V
  values [] = []
  values ((j, w) ∷ m) = w ∷ values m

  pub get-set :
      (m : Dict V) (k j : String) (v : V) → get (set m k v) j ≡ (if k == j then some v else get m j)
  unfolding get set
  get-set [] k j v = refl
  get-set ((i, w) ∷ m) k j v = ground (arith, eq_iff k j, eq_iff i k, eq_iff i j, get-set m k j v)

  pub get-set_self : (m : Dict V) (k : String) (v : V) → get (set m k v) k ≡ some v
  get-set_self m k v = simp (get-set, eq_refl)

  pub get-set_ne : (m : Dict V) (k j : String) (v : V) → k ≢ j → get (set m k v) j ≡ get m j
  get-set_ne m k j v h = rw (get-set m k j v) (ground (arith, eq_iff k j))

  pub get-delete :
      (m : Dict V) (k j : String) → get (delete m k) j ≡ (if k == j then none else get m j)
  unfolding get delete
  get-delete [] k j = ground arith
  get-delete ((i, w) ∷ m) k j = ground (arith, eq_iff k j, eq_iff i k, eq_iff i j, get-delete m k j)

  pub get-delete_self : (m : Dict V) (k : String) → get (delete m k) k ≡ none
  get-delete_self m k = simp (get-delete, eq_refl)

  pub get-delete_ne : (m : Dict V) (k j : String) → k ≢ j → get (delete m k) j ≡ get m j
  get-delete_ne m k j h = rw (get-delete m k j) (ground (arith, eq_iff k j))

  -- Each key stands once.
  abbrev pub IsDistinct : Dict V → Type ℓ
  IsDistinct [] = Unit
  IsDistinct ((j, w) ∷ m) = (get m j ≡ none) × IsDistinct m

  pub set-IsDistinct : (m : Dict V) (k : String) (v : V) → IsDistinct m → IsDistinct (set m k v)
  unfolding set
  set-IsDistinct [] k v h = (unfold get in refl, tt)
  set-IsDistinct ((j, w) ∷ m) k v h =
      ground (arith, eq_iff j k, eq_iff k j, get-set m k j v, set-IsDistinct m k v h.1)

  pub delete-IsDistinct : (m : Dict V) (k : String) → IsDistinct m → IsDistinct (delete m k)
  unfolding delete
  delete-IsDistinct [] k h = tt
  delete-IsDistinct ((j, w) ∷ m) k h =
      ground (arith, get-delete m k j, eq_iff k j, delete-IsDistinct m k h.1)

  pub delete-absent : (m : Dict V) (k : String) → get m k ≡ none → delete m k ≡ m
  unfolding get delete
  delete-absent [] k h = refl
  delete-absent ((j, w) ∷ m) k h = ground (arith, delete-absent m k)

  pub delete-set_self : (m : Dict V) (k : String) (v : V) → delete (set m k v) k ≡ delete m k
  unfolding delete set
  delete-set_self [] k v = ground (arith, eq_iff k k)
  delete-set_self ((j, w) ∷ m) k v = ground (arith, eq_iff j k, delete-set_self m k v)

  pub length-delete-le : (m : Dict V) (k : String) → length (delete m k) ≤ length m
  unfolding delete
  length-delete-le [] k = omega arith
  length-delete-le ((j, w) ∷ m) k = ground (arith, length-delete-le m k)

  pub length-set :
      (m : Dict V) (k : String) (v : V)
      → length (set m k v) ≡ (if has m k then length m else suc (length m))
  unfolding get set
  length-set [] k v = refl
  length-set ((j, w) ∷ m) k v = ground (arith, length-set m k v)

  -- What is found by its key stands in the map.
  pub get-All {κ} :
      (P : String × V → Type κ) (m : Dict V) (k : String) (v : V)
      → All P m
      → get m k ≡ some v
      → P (k, v)
  unfolding get
  get-All P [] k v h e = cc
  get-All P ((j, w) ∷ m) k v h e = ground (arith, eq_iff j k, get-All P m k v h.1)

  pub set-All {κ} :
      (P : String × V → Type κ) (m : Dict V) (k : String) (v : V)
      → All P m
      → P (k, v)
      → All P (set m k v)
  unfolding set
  set-All P [] k v h p = (p, tt)
  set-All P ((j, w) ∷ m) k v h p = ground (arith, eq_iff j k, set-All P m k v h.1 p)

  pub delete-All {κ} :
      (P : String × V → Type κ) (m : Dict V) (k : String) → All P m → All P (delete m k)
  unfolding delete
  delete-All P [] k h = tt
  delete-All P ((j, w) ∷ m) k h = ground (arith, delete-All P m k h.1)

-- A `Set` of texts, as the list of what was put into it, and `has`.
abbrev pub contains : List String → String → Bool
contains [] k = false
contains (j ∷ js) k = if j == k then true else contains js k

pub ruleset dict_laws = (get-set, get-delete, eq_refl)

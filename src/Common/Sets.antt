-- ===== src/Common/Sets.antt =====
-- A JavaScript `Set` of texts: `add`, and a set of the texts of a list.
use autobyteus_server_ts.Common.{
  ◌++◌, ◌≤◌, ◌<◌, length, filter, if◌then◌else◌, ℕ, String, ◌≡◌, true, false, not, ◌||◌, List, [],
  ◌∷◌, arith, str_eq, str_eq_iff,
}
use autobyteus_server_ts.Common.Dict.{has, keys, Dict, get, contains}

unfoldable pub add : List String → String → List String
add [] k = k ∷ []
add (j ∷ js) k = let rest = add js k in if str_eq j k then j ∷ js else j ∷ rest

unfoldable pub add_all : List String → List String → List String
add_all seen [] = seen
add_all seen (k ∷ ks) = add_all (add seen k) ks

pub contains-add :
    (js : List String) (k i : String) → contains (add js k) i ≡ (contains js i || str_eq k i)
unfolding add
contains-add [] k i = ground arith
contains-add (j ∷ js) k i =
    ground (arith, contains-add js k i, str_eq_iff j k, str_eq_iff k i, str_eq_iff j i)

pub contains-add_all :
    (js ks : List String) (i : String)
    → contains (add_all js ks) i ≡ (contains js i || contains ks i)
unfolding add_all
contains-add_all js [] i = ground arith
contains-add_all js (k ∷ ks) i =
    ground (arith, contains-add_all (add js k) ks i, contains-add js k i)

-- How many of the texts are not in the set yet.
abbrev pub missing : List String → List String → ℕ
missing ks js = length (filter (λ k. not (contains js k)) ks)

missing-add-le : (ks js : List String) (i : String) → missing ks (add js i) ≤ missing ks js
missing-add-le [] js i = omega arith
missing-add-le (k ∷ ks) js i = ground (arith, missing-add-le ks js i, contains-add js i k)

pub missing-add :
    (ks js : List String) (i : String)
    → contains ks i ≡ true
    → contains js i ≡ false
    → missing ks (add js i) < missing ks js
missing-add [] js i h n = cc
missing-add (k ∷ ks) js i h n = ground (
  arith,
  missing-add-le ks js i,
  contains-add js i k,
  missing-add ks js i,
  str_eq_iff k i,
  str_eq_iff i k,
)

pub contains-append :
    (js ks : List String) (i : String) → contains (js ++ ks) i ≡ (contains js i || contains ks i)
contains-append [] ks i = ground arith
contains-append (j ∷ js) ks i = ground (arith, contains-append js ks i)

pub contains-keys {ℓ} : {V : Type ℓ} (m : Dict V) (k : String) → contains (keys m) k ≡ has m k
unfolding get
contains-keys [] k = ground arith
contains-keys ((j, v) ∷ m) k = ground (arith, contains-keys m k)

-- ===== src/Common/Actions.antt =====
-- Calls on an object that may throw: what they answer, and the state they leave, which keeps what
-- was written before an error.
use mathlib.Core.Path.{◌≡◌, refl}
use autobyteus_server_ts.Common.Results.{Result, ok, err}

abbrev pub Action {ℓ κ μ} : (S : Type ℓ) → (E : Type κ) → (B : Type μ) → Type (ℓ ⊔ κ ⊔ μ)
Action S E B = S → Result E B × S

module _ {ℓ κ μ ν} {S : Type ℓ} {E : Type κ} {B : Type μ} {C : Type ν} where
  abbrev pub continue : Result E B × S → (B → Action S E C) → Result E C × S
  continue (ok b, s) f = f b s
  continue (err e, s) f = (err e, s)

  infixl 5 ◌>>=◌
  abbrev pub ◌>>=◌ : Action S E B → (B → Action S E C) → Action S E C
  ◌>>=◌ m f s = continue (m s) f

  -- A chain that succeeds has a first step that does.
  pub continue-eq-ok :
      (x : Result E B × S) (f : B → Action S E C) {c : C} {s : S}
      → continue x f ≡ (ok c, s)
      → (b : B) × (t : S) × (x ≡ (ok b, t)) × (f b t ≡ (ok c, s))
  continue-eq-ok (ok b, t) f h = (b, t, refl, h)
  continue-eq-ok (err e, t) f h = cc

module _ {ℓ κ μ} {S : Type ℓ} {E : Type κ} {B : Type μ} where
  -- A call that reads the state, and may throw.
  abbrev pub reads : (S → Result E B) → Action S E B
  reads f s = (f s, s)

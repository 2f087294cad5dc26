-- ===== src/Sync/Import/Outcomes.antt =====
-- What an import makes of each entity: which of the services are called for it, and what is counted.
use mathlib.Core.List.{append-nil, append_assoc}
use autobyteus_server_ts.Common.{
  refl, Option, ap, sym, ◌∙◌, length-append, ◌++◌, err, length, suc, ◌+◌, Result, ok, ◌≡◌, arith,
}
use autobyteus_server_ts.Common.Actions.{Action}
use autobyteus_server_ts.Common.Dict.{Dict, get}
use autobyteus_server_ts.Sync.Import.{
  ℕ, String, ◌∷◌, Failure, EntityType, List, [], Services, Change, created, updated, skipped,
  Progress, note_entity, import_each,
}

-- What has become of an entity, under its key.
pub record Outcome : Type 0 where
  pub type : EntityType
  pub key : String
  pub change : Result String Change

abbrev pub created_in : List Outcome → ℕ
created_in [] = 0
created_in (o ∷ os) = elim o.change [
  | ok created ↦ suc (created_in os)
  | ok updated ↦ created_in os
  | ok skipped ↦ created_in os
  | err e ↦ created_in os
]

abbrev pub updated_in : List Outcome → ℕ
updated_in [] = 0
updated_in (o ∷ os) = elim o.change [
  | ok created ↦ updated_in os
  | ok updated ↦ suc (updated_in os)
  | ok skipped ↦ updated_in os
  | err e ↦ updated_in os
]

abbrev pub skipped_in : List Outcome → ℕ
skipped_in [] = 0
skipped_in (o ∷ os) = elim o.change [
  | ok created ↦ skipped_in os
  | ok updated ↦ skipped_in os
  | ok skipped ↦ suc (skipped_in os)
  | err e ↦ skipped_in os
]

abbrev pub failures_in : List Outcome → List Failure
failures_in [] = []
failures_in (o ∷ os) = elim o.change [
  | ok c ↦ failures_in os
  | err e ↦ record { entity_type = o.type; key = o.key; message = e } ∷ failures_in os
]

-- The counts that stand in `q` are those in `p` and those of the outcomes.
pub record IsTallied (os : List Outcome) (p q : Progress) : Type 0 where
  pub processed : q.summary.processed ≡ p.summary.processed + length os
  pub n_created : q.summary.created ≡ p.summary.created + created_in os
  pub n_updated : q.summary.updated ≡ p.summary.updated + updated_in os
  pub n_skipped : q.summary.skipped ≡ p.summary.skipped + skipped_in os
  pub n_deleted : q.summary.deleted ≡ p.summary.deleted
  pub failed : q.failures ≡ p.failures ++ failures_in os

-- The four counts of two lists of outcomes, one after the other.
record AreAppended (os ps : List Outcome) : Type 0 where
  n_created : created_in (os ++ ps) ≡ created_in os + created_in ps
  n_updated : updated_in (os ++ ps) ≡ updated_in os + updated_in ps
  n_skipped : skipped_in (os ++ ps) ≡ skipped_in os + skipped_in ps
  failed : failures_in (os ++ ps) ≡ failures_in os ++ failures_in ps

∷-AreAppended :
    (type : EntityType) (key : String) (change : Result String Change) (os ps : List Outcome)
    → AreAppended os ps
    → AreAppended (record { type = type; key = key; change = change } ∷ os) ps
∷-AreAppended type key (ok created) os ps a = record {
  n_created = omega (arith, a.n_created);
  n_updated = a.n_updated;
  n_skipped = a.n_skipped;
  failed = a.failed;
}
∷-AreAppended type key (ok updated) os ps a = record {
  n_created = a.n_created;
  n_updated = omega (arith, a.n_updated);
  n_skipped = a.n_skipped;
  failed = a.failed;
}
∷-AreAppended type key (ok skipped) os ps a = record {
  n_created = a.n_created;
  n_updated = a.n_updated;
  n_skipped = omega (arith, a.n_skipped);
  failed = a.failed;
}
∷-AreAppended type key (err e) os ps a = record {
  n_created = a.n_created;
  n_updated = a.n_updated;
  n_skipped = a.n_skipped;
  failed = ap (λ l. record { entity_type = type; key = key; message = e } ∷ l) a.failed;
}

AreAppended_lem : (os ps : List Outcome) → AreAppended os ps
AreAppended_lem [] ps = record {
  n_created = omega arith;
  n_updated = omega arith;
  n_skipped = omega arith;
  failed = refl;
}
AreAppended_lem (o ∷ os) ps = ∷-AreAppended o.type o.key o.change os ps (AreAppended_lem os ps)

pub nothing-IsTallied : (p : Progress) → IsTallied [] p p
nothing-IsTallied p = record {
  processed = omega arith;
  n_created = omega arith;
  n_updated = omega arith;
  n_skipped = omega arith;
  n_deleted = refl;
  failed = sym (append-nil p.failures);
}

note_entity-IsTallied :
    (type : EntityType) (key : String) (change : Result String Change) (os : List Outcome)
    (p q : Progress)
    → IsTallied os (note_entity type key change p) q
    → IsTallied (record { type = type; key = key; change = change } ∷ os) p q
unfolding note_entity
note_entity-IsTallied type key (ok created) os p q t = record {
  processed = omega (arith, t.processed);
  n_created = omega (arith, t.n_created);
  n_updated = t.n_updated;
  n_skipped = t.n_skipped;
  n_deleted = t.n_deleted;
  failed = t.failed;
}
note_entity-IsTallied type key (ok updated) os p q t = record {
  processed = omega (arith, t.processed);
  n_created = t.n_created;
  n_updated = omega (arith, t.n_updated);
  n_skipped = t.n_skipped;
  n_deleted = t.n_deleted;
  failed = t.failed;
}
note_entity-IsTallied type key (ok skipped) os p q t = record {
  processed = omega (arith, t.processed);
  n_created = t.n_created;
  n_updated = t.n_updated;
  n_skipped = omega (arith, t.n_skipped);
  n_deleted = t.n_deleted;
  failed = t.failed;
}
note_entity-IsTallied type key (err e) os p q t = record {
  processed = omega (arith, t.processed);
  n_created = t.n_created;
  n_updated = t.n_updated;
  n_skipped = t.n_skipped;
  n_deleted = t.n_deleted;
  failed =
      t.failed
      ∙ append_assoc p.failures (record { entity_type = type; key = key; message = e } ∷ [])
          (failures_in os);
}

pub IsTallied-append :
    (os ps : List Outcome) (p q r : Progress)
    → IsTallied os p q
    → IsTallied ps q r
    → IsTallied (os ++ ps) p r
IsTallied-append os ps p q r a b =
    let c = AreAppended_lem os ps in
    record {
      processed = omega (arith, a.processed, b.processed, length-append os ps);
      n_created = omega (arith, a.n_created, b.n_created, c.n_created);
      n_updated = omega (arith, a.n_updated, b.n_updated, c.n_updated);
      n_skipped = omega (arith, a.n_skipped, b.n_skipped, c.n_skipped);
      n_deleted = b.n_deleted ∙ a.n_deleted;
      failed =
          b.failed
          ∙ ap (λ l. l ++ failures_in ps) a.failed
          ∙ append_assoc p.failures (failures_in os) (failures_in ps)
          ∙ ap (λ l. p.failures ++ l) (sym (c.failed));
    }

-- Each entity, in order, is given once to the importer's step, with what the index has under its key,
-- on the store that the one before it has left; `Became` says what it does there.
pub data Imports {S A B : Type 0} (type : EntityType) (key : B → String)
    (Became : Option A → B → S → Result String Change → S → Type 0) (index : Dict A)
    : List B → S → List Outcome → S → Type 0 where
  done : {s : S} → Imports type key Became index [] s [] s
  taken :
      {b : B} {bs : List B} {s t u : S} {os : List Outcome} (change : Result String Change)
      → Became (get index (key b)) b s change t
      → Imports type key Became index bs t os u
      → Imports type key Became index
          (b ∷ bs)
          s
          (record { type = type; key = key b; change = change } ∷ os)
          u

module _ {S : Type 0} (text_of : ℕ → String) (services : Services S) where
  pub import_each-Imports :
      {A B : Type 0} (type : EntityType) (key : B → String)
      (Became : Option A → B → S → Result String Change → S → Type 0)
      (step : Option A → B → Action S String Change) (index : Dict A)
      → ((a : Option A) (b : B) (s : S) → Became a b s (step a b s).0 (step a b s).1)
      → (bs : List B) (p : Progress) (s : S)
      → (os : List Outcome) × Imports type key Became index bs s os
          (import_each text_of services type key step index bs p s).1
        × IsTallied os p (import_each text_of services type key step index bs p s).0
  unfolding import_each
  import_each-Imports type key Became step index law [] p s = ([], done, nothing-IsTallied p)
  import_each-Imports type key Became step index law (b ∷ bs) p s =
      let x = step (get index (key b)) b s in
      let (os, made, tally) =
        import_each-Imports type key Became step index law bs (note_entity type (key b) x.0 p)
          x.1 in
      (
        record { type = type; key = key b; change = x.0 } ∷ os,
        taken x.0 (law (get index (key b)) b s) made,
        note_entity-IsTallied type (key b) x.0 os p _ tally,
      )

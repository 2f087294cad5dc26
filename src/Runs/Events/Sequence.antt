-- ===== src/Runs/Events/Sequence.antt =====
-- The numbers of a run's events.
use autobyteus_server_ts.Common.{
  if◌then◌else◌, get_or, ℕ, ◌+◌, String, ◌≡◌, refl, ap, List, [], ◌∷◌, arith, str_eq, str_eq_iff,
}
use autobyteus_server_ts.Common.Dict.{get, get-set, get-delete}
use autobyteus_server_ts.Runs.Events.{PublishInput, Aggregator, Origin, publish, finalize_run}

-- What happens to the aggregator.
pub data Operation {ℓ} (P : Type ℓ) : Type ℓ where
  published : PublishInput P → Origin → (now_iso : String) → Operation P
  finalized : (team_run_id : String) → Operation P

-- Lists of operations are newest first.
module _ {ℓ} {P : Type ℓ} where
  abbrev pub empty : Aggregator P
  empty = record { sequence_by_run_id = []; sunk = [] }

  abbrev pub after : List (Operation P) → Aggregator P
  after [] = empty
  after (published input origin now ∷ ops) = (publish (after ops) input origin now).1
  after (finalized run ∷ ops) = (finalize_run (after ops) run).1

  -- How many events of the run were published since it was last finalized.
  abbrev pub count_since : String → List (Operation P) → ℕ
  count_since run [] = 0
  count_since run (published input origin now ∷ ops) =
      if str_eq input.team_run_id run then count_since run ops + 1 else count_since run ops
  count_since run (finalized other ∷ ops) = if str_eq other run then 0 else count_since run ops

  sequence-count_since :
      (run : String) (ops : List (Operation P))
      → get_or (get (after ops).sequence_by_run_id run) 0 ≡ count_since run ops
  unfolding publish finalize_run
  sequence-count_since run [] = unfold get in refl
  sequence-count_since run (published input origin now ∷ ops) = ground (
    arith,
    get-set (after ops).sequence_by_run_id input.team_run_id run
        (get_or (get (after ops).sequence_by_run_id input.team_run_id) 0 + 1),
    str_eq_iff input.team_run_id run,
    sequence-count_since run ops,
  )
  sequence-count_since run (finalized other ∷ ops) =
      ground
        (arith, get-delete (after ops).sequence_by_run_id other run, sequence-count_since run ops)

  -- The events of a run are numbered 1, 2, 3, … without a gap, local and remote ones together and
  -- whatever happens to other runs, and from 1 again once the run is finalized.
  pub publish-sequence :
      (ops : List (Operation P)) (input : PublishInput P) (origin : Origin) (now_iso : String)
      → (publish (after ops) input origin now_iso).0.sequence
        ≡ count_since input.team_run_id ops + 1
  unfolding publish
  publish-sequence ops input origin now_iso =
      ap (λ n. n + 1) (sequence-count_since input.team_run_id ops)

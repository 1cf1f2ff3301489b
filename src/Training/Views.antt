-- ===== src/Training/Views.antt =====
-- src/tuft/training_controller.py: what the controller lists of the runs and of their checkpoints. A
-- checkpoint is listed as its record, whose fields `tinker_checkpoint` shows,
-- a URL as the path behind it, and of a cursor the total.
use tu_ft.Base.{
  ℕ, String, Bool, true, Option, none, some, List, [], ◌∷◌, ◌++◌, map, str_eq, ltb, leb,
  if◌then◌else◌, length,
}
use tu_ft.Dict
use tu_ft.Dict.{Dict, values, elem, test_at}
use tu_ft.Errors.{Result, ok, err, checkpoint_not_found}
use tu_ft.Paging.{page}
use tu_ft.Checkpoints.{CheckpointRecord}
use tu_ft.Training.{TrainingController, TrainingRunRecord, get_run_record}

pub record TrainingRun : Type 0 where
  pub training_run_id : String
  pub base_model : String
  pub model_owner : String
  pub corrupted : Bool
  pub lora_rank : ℕ
  pub last_request_time : ℕ
  pub last_checkpoint : Option CheckpointRecord
  pub last_sampler_checkpoint : Option CheckpointRecord
  pub user_metadata : Option (Dict String)

-- max(items, key=created_at), the first of the latest
unfoldable later : CheckpointRecord → List CheckpointRecord → CheckpointRecord
later best [] = best
later best (c ∷ cs) = later (if ltb best.created_at c.created_at then c else best) cs

-- _latest_checkpoint
unfoldable pub latest_checkpoint : List CheckpointRecord → Option CheckpointRecord
unfolding later
latest_checkpoint [] = none
latest_checkpoint (c ∷ cs) = some (later c cs)

unfoldable pub to_training_run : TrainingRunRecord → TrainingRun
unfolding latest_checkpoint values
to_training_run r = record {
  training_run_id = r.training_run_id;
  base_model = r.base_model;
  model_owner = r.model_owner;
  corrupted = r.corrupted;
  lora_rank = r.lora_rank;
  last_request_time = r.last_request_time;
  last_checkpoint = latest_checkpoint (values r.checkpoints);
  last_sampler_checkpoint = latest_checkpoint (values r.sampler_checkpoints);
  user_metadata = r.user_metadata;
}

-- xs.sort(key=key) and xs.sort(key=key, reverse=True), which both keep the order of equals; `first`
-- says whether the one with the first key may stand before the other.
unfoldable pub insert : {X : Type 0} → (X → X → Bool) → X → List X → List X
insert first x [] = x ∷ []
insert first x (y ∷ ys) = if first x y then x ∷ y ∷ ys else y ∷ insert first x ys

unfoldable pub sort : {X : Type 0} → (X → X → Bool) → List X → List X
unfolding insert
sort first [] = []
sort first (x ∷ xs) = insert first x (sort first xs)

abbrev earlier_time : CheckpointRecord → CheckpointRecord → Bool
earlier_time a b = leb a.created_at b.created_at

abbrev later_time : CheckpointRecord → CheckpointRecord → Bool
later_time a b = leb b.created_at a.created_at

abbrev pub later_request : TrainingRun → TrainingRun → Bool
later_request a b = leb b.last_request_time a.last_request_time

-- [run for run in training_runs.values() if run.model_owner == user_id]
unfoldable pub runs_of : String → Dict TrainingRunRecord → List TrainingRunRecord
runs_of user_id [] = []
runs_of user_id ((id, r) ∷ runs) =
    let rest = runs_of user_id runs in if str_eq r.model_owner user_id then r ∷ rest else rest

unfoldable all_checkpoints : List TrainingRunRecord → List CheckpointRecord
unfolding values
all_checkpoints [] = []
all_checkpoints (r ∷ rs) = values r.checkpoints ++ all_checkpoints rs

module _ {B W T C : Type 0} where
  -- list_training_runs
  unfoldable pub list_training_runs :
      (user_id : String)
      → (limit : Option ℕ) → (offset : ℕ) → TrainingController B W T C
      → List TrainingRun × ℕ
  unfolding runs_of to_training_run sort page
  list_training_runs user_id limit offset s =
      let runs = sort later_request (map to_training_run (runs_of user_id s.training_runs)) in
      (page limit offset runs, length runs)

  -- get_training_run_view
  unfoldable pub get_training_run_view :
      (model_id user_id : String) → TrainingController B W T C → Result TrainingRun
  unfolding get_run_record to_training_run
  get_training_run_view model_id user_id s = elim (get_run_record model_id user_id true s) [
    | err e ↦ err e
    | ok r ↦ ok (to_training_run r)
  ]

  -- list_checkpoints
  unfoldable pub list_checkpoints :
      (model_id user_id : String) → TrainingController B W T C → Result (List CheckpointRecord)
  unfolding get_run_record sort values
  list_checkpoints model_id user_id s = elim (get_run_record model_id user_id true s) [
    | err e ↦ err e
    | ok r ↦ ok (sort earlier_time (values r.checkpoints ++ values r.sampler_checkpoints))
  ]

  -- list_user_checkpoints
  unfoldable pub list_user_checkpoints :
      (user_id : String) → TrainingController B W T C → List CheckpointRecord
  unfolding runs_of all_checkpoints sort
  list_user_checkpoints user_id s =
      sort later_time (all_checkpoints (runs_of user_id s.training_runs))

  -- build_archive_url
  unfoldable pub build_archive_url :
      (model_id user_id checkpoint_id : String) → TrainingController B W T C → Result String
  unfolding get_run_record
  build_archive_url model_id user_id checkpoint_id s =
      elim (get_run_record model_id user_id true s) [
        | err e ↦ err e
        | ok r ↦ elim (Dict.get r.checkpoints checkpoint_id) [
          | some c ↦ ok c.path
          | none ↦ elim (Dict.get r.sampler_checkpoints checkpoint_id) [
            | some c ↦ ok c.path
            | none ↦ err (checkpoint_not_found checkpoint_id)
          ]
        ]
      ]

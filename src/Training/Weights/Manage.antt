-- ===== src/Training/Weights/Manage.antt =====
-- src/tuft/training_controller.py: deleting, publishing and choosing among the checkpoints of a run.
use tu_ft.Base.{String, Bool, true, Option, none, some, List, [], ◌∷◌, ◌++◌, ltb, if◌then◌else◌}
use tu_ft.Dict
use tu_ft.Dict.{Dict, values}
use tu_ft.Errors.{checkpoint_not_found, Result, ok, err}
use tu_ft.Checkpoints
use tu_ft.Checkpoints.{CheckpointType, training, sampler, CheckpointRecord, Directory}
use tu_ft.Training.{
  Env, TrainingController, TrainingRunRecord, get_run_record, update_run, save_training_run,
}
use tu_ft.Training.Weights.{collection, set_collection, save_checkpoint_record}

-- The later of two by `created_at`, the first of them where they are equal.
abbrev later : CheckpointRecord → CheckpointRecord → CheckpointRecord
later a b = if ltb a.created_at b.created_at then b else a

-- max(l, key=lambda c: c.created_at)
unfoldable latest_of : List CheckpointRecord → Option CheckpointRecord
latest_of [] = none
latest_of (c ∷ rest) = elim (latest_of rest) [ none ↦ some c | some d ↦ some (later c d) ]

-- get_latest_checkpoint, for a run that is there
unfoldable pub get_latest_checkpoint : TrainingRunRecord → Option CheckpointRecord
unfolding latest_of
get_latest_checkpoint r = latest_of (values r.checkpoints ++ values r.sampler_checkpoints)

-- Where a name is found: among the training checkpoints first.
unfoldable pub find_named : String → TrainingRunRecord → Option (CheckpointType × CheckpointRecord)
find_named name r = elim (Dict.get r.checkpoints name) [
  | some c ↦ some (training, c)
  | none ↦ elim (Dict.get r.sampler_checkpoints name) [ some c ↦ some (sampler, c) | none ↦ none ]
]

module _ {B W T C Q A P O : Type 0} (env : Env B W T C Q A P O) where
  unfoldable pop_text : String → String → Dict (Dict C) → Dict (Dict C)
  pop_text model_id name d = elim (Dict.get d model_id) [
    | none ↦ d
    | some of_run ↦
        if env.checkpoint_codec.enabled then Dict.put d model_id (Dict.pop of_run name) else d
  ]

  -- _delete_checkpoint_record and _delete_sampler_checkpoint_record
  unfoldable delete_checkpoint_record :
      CheckpointType → String → String → TrainingController B W T C → TrainingController B W T C
  unfolding pop_text
  delete_checkpoint_record training model_id name s = record s {
    redis_checkpoints = pop_text model_id name s.redis_checkpoints;
  }
  delete_checkpoint_record sampler model_id name s = record s {
    redis_sampler_checkpoints = pop_text model_id name s.redis_sampler_checkpoints;
  }

  -- delete_checkpoint
  unfoldable pub delete_checkpoint :
      (model_id user_id checkpoint_id : String)
      → TrainingController B W T C
      → TrainingController B W T C × Result (Unit {0})
  unfolding get_run_record find_named set_collection collection update_run save_training_run
      Checkpoints.delete delete_checkpoint_record
  delete_checkpoint model_id user_id name s = elim (get_run_record model_id user_id true s) [
    | err e ↦ (s, err e)
    | ok r ↦ elim (find_named name r) [
      | none ↦ (s, err (checkpoint_not_found name))
      | some found ↦
          let kind = found.0 in
          let removed =
            update_run model_id (λ r. set_collection kind (Dict.pop (collection kind r) name) r)
              s in
          (
            delete_checkpoint_record kind model_id name (
                save_training_run env model_id
                  (record removed { disk = Checkpoints.delete found.1 removed.disk })),
            ok tt,
          )
    ]
  ]

  -- The end of `set_visibility`: the text is saved only if the metadata could be.
  unfoldable save_visibility :
      CheckpointType
      → String
      → CheckpointRecord
      → Result (Unit {0})
      → TrainingController B W T C
      → TrainingController B W T C × Result (Unit {0})
  unfolding save_checkpoint_record
  save_visibility kind model_id c (err e) s = (s, err e)
  save_visibility kind model_id c (ok u) s = (save_checkpoint_record env kind model_id c s, ok u)

  -- set_visibility
  unfoldable pub set_visibility :
      (model_id checkpoint_id user_id : String)
      → (public : Bool) → TrainingController B W T C
      → TrainingController B W T C × Result (Unit {0})
  unfolding get_run_record find_named set_collection collection update_run
      Checkpoints.set_visibility save_visibility
  set_visibility model_id name user_id public s = elim (get_run_record model_id user_id true s) [
    | err e ↦ (s, err e)
    | ok r ↦ elim (find_named name r) [
      | none ↦ (s, err (checkpoint_not_found name))
      | some found ↦
          let kind = found.0 in
          let shown = Checkpoints.set_visibility public found.1 s.disk in
          save_visibility kind model_id shown.0.0 shown.1 (
            update_run model_id
              (λ r. set_collection kind (Dict.put (collection kind r) name shown.0.0) r)
              (record s { disk = shown.0.1 }))
    ]
  ]

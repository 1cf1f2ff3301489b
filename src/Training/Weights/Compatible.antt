-- ===== src/Training/Weights/Compatible.antt =====
-- src/tuft/training_controller.py: whether a checkpoint fits a run, and loading it.
use tu_ft.Base.{
  ℕ, String, Bool, true, false, not, ◌||◌, Option, none, some, List, ◌==◌, str_eq, is_some,
  if◌then◌else◌,
}
use tu_ft.Names.{same_set}
use tu_ft.Text.{is_empty}
use tu_ft.Dict
use tu_ft.Dict.{Dict}
use tu_ft.Errors.{
  unknown_model, invalid_request, checkpoint_not_found, checkpoint_access_denied, Result, ok, err,
}
use tu_ft.Checkpoints.{
  CheckpointType, CheckpointRecord, CheckpointMetadata, Directory, metadata, directory_at,
  from_training_run,
}
use tu_ft.Checkpoints.Geometry.{saved_target_modules, saved_target_parameters, validate_lora_alpha}
use tu_ft.Training.{
  Env, TrainingController, TrainingRunRecord, get_run_record, effective_lora_alpha,
  require_training_capability, require_resumable_run, with_sequence_guard, on_backend,
}
use tu_ft.Training.Weights.{collection, or_empty}

-- What `ParsedCheckpointTinkerPath` gives, with the last part of its `checkpoint_id`.
pub record ParsedPath : Type 0 where
  pub training_run_id : String
  pub checkpoint_type : CheckpointType
  pub checkpoint_id : String

unfoldable pub rank_differs : Option ℕ → ℕ → Bool
rank_differs none rank = false
rank_differs (some saved) rank = not (saved == rank)

-- The sets of target modules, with what is raised where one is not known.
unfoldable pub check_modules : Option (List String) → Option (List String) → Result (Unit {0})
unfolding same_set
check_modules none here = err (invalid_request "no supported explicit target_modules list")
check_modules (some saved) none =
    err (invalid_request "does not record effective LoRA target modules")
check_modules (some saved) (some here) =
    if same_set saved here then ok tt else err (invalid_request "targets other LoRA modules")

unfoldable pub check_parameters : Option (List String) → Option (List String) → Result (Unit {0})
unfolding same_set
check_parameters none here = err (invalid_request "no valid target_parameters list")
check_parameters (some saved) here =
    if same_set saved (or_empty here)
    then ok tt
    else err (invalid_request "targets other LoRA parameters")

-- The first check that raises.
abbrev pub then_check : Result (Unit {0}) → Result (Unit {0}) → Result (Unit {0})
then_check (err e) next = err e
then_check (ok u) next = next

module _ {B W T C Q A P O : Type 0} (env : Env B W T C Q A P O) where
  -- _check_adapter_compatible
  unfoldable pub check_adapter_compatible :
      Dict (Directory W)
      → CheckpointRecord
      → CheckpointMetadata
      → TrainingRunRecord
      → Result (Unit {0})
  unfolding rank_differs check_modules check_parameters saved_target_modules saved_target_parameters
      validate_lora_alpha effective_lora_alpha
  check_adapter_compatible disk c m r =
      if not (str_eq m.base_model r.base_model)
      then err (invalid_request "from another base model")
      else (if rank_differs m.lora_rank r.lora_rank
          then err (invalid_request "with another LoRA rank")
          else then_check (validate_lora_alpha (effective_lora_alpha env.supported_models r) disk c)
              (then_check (check_modules (saved_target_modules disk c) r.target_modules)
                (check_parameters (saved_target_parameters disk c) r.target_parameters)))

  -- What `from_tinker_path` has built when it reads the metadata.
  unfoldable pub parsed_record : ParsedPath → CheckpointRecord
  unfolding from_training_run
  parsed_record path =
      from_training_run env.checkpoint_path 0 path.training_run_id path.checkpoint_id ""
        path.checkpoint_type

  -- `_operation` of `load_checkpoint`
  unfoldable pub load_operation :
      String
      → TrainingRunRecord
      → CheckpointRecord
      → CheckpointMetadata
      → (optimizer : Bool) → TrainingController B W T C
      → TrainingController B W T C × Result (Unit {0})
  unfolding check_adapter_compatible on_backend directory_at
  load_operation model_id r c m optimizer s = elim (check_adapter_compatible s.disk c m r) [
    | err e ↦ (s, err e)
    | ok u ↦
        on_backend env model_id r.backend
          (env.api.load_state r.training_run_id optimizer (directory_at s.disk c.path)) s
  ]

  -- The part of `load_checkpoint` on the destination.
  unfoldable pub load_into :
      (model_id user_id : String)
      → CheckpointRecord
      → CheckpointMetadata
      → (optimizer : Bool) → (seq_id : Option ℕ) → TrainingController B W T C
      → TrainingController B W T C × Result (Unit {0})
  unfolding get_run_record require_training_capability require_resumable_run with_sequence_guard
      load_operation
  load_into model_id user_id c m optimizer seq_id s =
      elim (get_run_record model_id user_id true s) [
        | err e ↦ (s, err e)
        | ok r ↦ elim (require_training_capability env.supported_models r.base_model) [
          | err e ↦ (s, err e)
          | ok u ↦ elim (require_resumable_run r) [
            | err e ↦ (s, err e)
            | ok v ↦
                if is_some r.backend
                then with_sequence_guard env model_id r seq_id
                    (load_operation model_id r c m optimizer) s
                else (s, err (unknown_model model_id))
          ]
        ]
      ]

  -- The part of `load_checkpoint` that finds the checkpoint and asks whether the user may read it.
  unfoldable pub find_checkpoint :
      (model_id user_id : String)
      → ParsedPath
      → TrainingController B W T C
      → Result (CheckpointRecord × CheckpointMetadata)
  unfolding get_run_record metadata collection is_empty parsed_record
  find_checkpoint model_id user_id path s =
      let source = if is_empty path.training_run_id then model_id else path.training_run_id in
      elim (metadata s.disk (parsed_record path)) [
        | err e ↦ err e
        | ok m ↦ elim (get_run_record source user_id false s) [
          | err e ↦ err e
          | ok r ↦ elim (Dict.get (collection path.checkpoint_type r) path.checkpoint_id) [
            | none ↦ err (checkpoint_not_found path.checkpoint_id)
            | some c ↦ elim (metadata s.disk c) [
              | err e ↦ err e
              | ok m ↦
                  if m.public || str_eq m.owner_name user_id
                  then ok (c, m)
                  else err (checkpoint_access_denied path.checkpoint_id)
            ]
          ]
        ]
      ]

  -- load_checkpoint
  unfoldable pub load_checkpoint :
      (model_id user_id : String)
      → ParsedPath
      → (optimizer : Bool) → (seq_id : Option ℕ) → TrainingController B W T C
      → TrainingController B W T C × Result (Unit {0})
  unfolding find_checkpoint load_into
  load_checkpoint model_id user_id path optimizer seq_id s =
      elim (find_checkpoint model_id user_id path s) [
        | err e ↦ (s, err e)
        | ok found ↦ load_into model_id user_id found.0 found.1 optimizer seq_id s
      ]

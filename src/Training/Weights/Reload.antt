-- ===== src/Training/Weights/Reload.antt =====
-- Whether a run may load what it saved: `save_checkpoint` and `_check_adapter_compatible` of
-- src/tuft/training_controller.py together.
use tu_ft.Base.{ℕ, String, ◌≡◌, refl, ap, true, Option, some, List, str_eq_self, arith}
use tu_ft.Dict.{Dict}
use tu_ft.Errors.{ok}
use tu_ft.Checkpoints.{
  CheckpointType, CheckpointRecord, CheckpointMetadata, Directory, metadata, describe,
  adapter_file_at,
}
use tu_ft.Checkpoints.Geometry.{
  saved_target_modules, saved_target_parameters, validate_lora_alpha, metadata_alpha,
  read_adapter_target_modules, read_adapter_target_parameters,
}
use tu_ft.Training.{Env, TrainingController, TrainingRunRecord, effective_lora_alpha}
use tu_ft.Names.{same_set}
use tu_ft.Training.Weights.{description, save_operation, or_empty}
use tu_ft.Training.Weights.Saved.{save_operation-metadata}
use tu_ft.Training.Weights.Compatible.{
  check_adapter_compatible, rank_differs, check_modules, check_parameters,
}

validate-recorded :
    {W : Type 0} (disk : Dict (Directory W)) (c : CheckpointRecord) (alpha : ℕ)
    → metadata_alpha (metadata disk c) ≡ some alpha
    → validate_lora_alpha alpha disk c ≡ ok tt
unfolding validate_lora_alpha
validate-recorded disk c alpha h = ground (arith, h)

module _ {B W T C Q A P O : Type 0} (env : Env B W T C Q A P O) where
  -- A run fits a checkpoint whose metadata describe the run, if the files of the adapter agree.
  check-description :
      (disk : Dict (Directory W)) (c : CheckpointRecord) (r : TrainingRunRecord)
      (here modules parameters : List String)
      → metadata disk c ≡ ok (describe c (description env r))
      → r.target_modules ≡ some here
      → read_adapter_target_modules (adapter_file_at disk c.path) ≡ some modules
      → read_adapter_target_parameters (adapter_file_at disk c.path) ≡ some parameters
      → same_set modules here ≡ true
      → same_set parameters (or_empty r.target_parameters) ≡ true
      → check_adapter_compatible env disk c (describe c (description env r)) r ≡ ok tt
  unfolding check_adapter_compatible metadata_alpha describe description rank_differs check_modules
      check_parameters
  check-description disk c r here modules parameters known own read_m read_p same_m same_p =
      ground (arith, str_eq_self r.base_model, alpha, saved_m, saved_p, own, same_m, same_p)
    where
      alpha : validate_lora_alpha (effective_lora_alpha env.supported_models r) disk c ≡ ok tt
      alpha =
          validate-recorded disk c (effective_lora_alpha env.supported_models r)
            (ap metadata_alpha known)

      saved_m : saved_target_modules disk c ≡ some modules
      saved_m = rw (read_m, saved_target_modules) refl

      saved_p : saved_target_parameters disk c ≡ some parameters
      saved_p = rw (read_p, saved_target_parameters) refl

  -- For every run that records its target modules and every save of it that returns: the metadata of
  -- the saved record can be read, and the run passes the check of its own checkpoint, if the
  -- adapter's configuration, which the backend has written beside it, names the run's modules and
  -- parameters, in any order.
  pub save_operation-compatible :
      (now : ℕ) (model_id : String) (r : TrainingRunRecord) (name : Option String)
      (kind : CheckpointType) (future_id : ℕ) (seq_id : Option ℕ) (s : TrainingController B W T C)
      (saved : CheckpointRecord) (here modules parameters : List String)
      → (save_operation env now model_id r name kind future_id seq_id s).1 ≡ ok saved
      → r.target_modules ≡ some here
      → read_adapter_target_modules (
          adapter_file_at
            (save_operation env now model_id r name kind future_id seq_id s).0.disk
            saved.path)
        ≡ some modules
      → read_adapter_target_parameters (
          adapter_file_at
            (save_operation env now model_id r name kind future_id seq_id s).0.disk
            saved.path)
        ≡ some parameters
      → same_set modules here ≡ true
      → same_set parameters (or_empty r.target_parameters) ≡ true
      → (m : CheckpointMetadata) × (metadata
            (save_operation env now model_id r name kind future_id seq_id s).0.disk
            saved
          ≡ ok m)
        × (check_adapter_compatible env
              (save_operation env now model_id r name kind future_id seq_id s).0.disk
              saved
              m
              r
            ≡ ok tt)
  save_operation-compatible now model_id r name kind future_id seq_id s saved here modules
        parameters h own read_m read_p same_m same_p =
      let known =
        (save_operation-metadata env now model_id r name kind future_id seq_id s saved saved h
          refl).1 in
      (
        describe saved (description env r),
        known,
        check-description (save_operation env now model_id r name kind future_id seq_id s).0.disk
            saved r here modules parameters known own read_m read_p same_m same_p,
      )

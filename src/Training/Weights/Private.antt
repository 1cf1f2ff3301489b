-- ===== src/Training/Weights/Private.antt =====
-- Who may load a checkpoint: `load_checkpoint` of src/tuft/training_controller.py.
use tu_ft.Base.{String, ◌≡◌, true, some, if◌then◌else◌, ◌⊎◌}
use tu_ft.Text.{is_empty}
use tu_ft.Dict
use tu_ft.Errors.{ok}
use tu_ft.Checkpoints.{CheckpointRecord, CheckpointMetadata, metadata}
use tu_ft.Training.{Env, TrainingController, TrainingRunRecord}
use tu_ft.Training.Weights.{collection}
use tu_ft.Training.Weights.Compatible.{ParsedPath, check_adapter_compatible}

-- The run that a path names: the destination where it names none.
abbrev pub source_id : String → ParsedPath → String
source_id model_id path = if is_empty path.training_run_id then model_id else path.training_run_id

module _ {B W T C : Type 0} where
  -- The metadata of a checkpoint, which a run has under the path, let the user read it.
  abbrev pub IsReadable :
      (model_id user_id : String)
      → ParsedPath
      → TrainingController B W T C
      → CheckpointRecord
      → CheckpointMetadata
      → Type 0
  IsReadable model_id user_id path s c m =
      ((source : TrainingRunRecord) × ((Dict.get s.training_runs (source_id model_id path)
            ≡ some source)
          × (Dict.get (collection path.checkpoint_type source) path.checkpoint_id ≡ some c)))
      × ((metadata s.disk c ≡ ok m) × ((m.public ≡ true) ⊎ (m.owner_name ≡ user_id)))

module _ {B W T C Q A P O : Type 0} (env : Env B W T C Q A P O) where
  -- The run that is loaded into is the user's, and the checkpoint fits it.
  abbrev pub IsFitting :
      (model_id user_id : String)
      → TrainingController B W T C
      → CheckpointRecord
      → CheckpointMetadata
      → Type 0
  IsFitting model_id user_id s c m =
      (r : TrainingRunRecord) × ((Dict.get s.training_runs model_id ≡ some r)
        × ((r.model_owner ≡ user_id) × (check_adapter_compatible env s.disk c m r ≡ ok tt)))

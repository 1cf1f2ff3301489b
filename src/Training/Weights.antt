-- ===== src/Training/Weights.antt =====
-- src/tuft/training_controller.py: saving, loading, deleting and publishing the checkpoints of runs.
pub mod Compatible
pub mod Manage
pub mod Saved
pub mod Reload
pub mod Private
use tu_ft.Base.{
  ℕ, suc, String, Bool, true, false, not, ◌||◌, ◌&&◌, Option, none, some, List, [], ◌∷◌, ◌++◌, ◌==◌,
  ltb, str_eq, if◌then◌else◌,
}
use tu_ft.Names.{same_set}
use tu_ft.Text.{checkpoint_name, is_empty}
use tu_ft.Dict
use tu_ft.Dict.{Dict, elem, values}
use tu_ft.Errors.{
  Error, unknown_model, invalid_request, checkpoint_not_found, checkpoint_access_denied,
  server_error, Result, ok, err,
}
use tu_ft.Persistence.{Codec, save_record}
use tu_ft.Checkpoints
use tu_ft.Checkpoints.{
  CheckpointType, training, sampler, CheckpointRecord, CheckpointMetadata, Directory, Described,
  metadata, from_training_run, make_directory, save_metadata,
}
use tu_ft.Checkpoints.Geometry.{saved_target_modules, saved_target_parameters, validate_lora_alpha}
use tu_ft.Training.{
  Env, Backend, TrainingController, TrainingRunRecord, get_run_record, update_run,
  effective_lora_alpha, require_training_capability, require_resumable_run, save_training_run,
  with_sequence_guard, on_backend,
}

-- `training_run.checkpoints if checkpoint_type == "training" else training_run.sampler_checkpoints`
unfoldable pub collection : CheckpointType → TrainingRunRecord → Dict CheckpointRecord
collection training r = r.checkpoints
collection sampler r = r.sampler_checkpoints

unfoldable pub set_collection :
    CheckpointType → Dict CheckpointRecord → TrainingRunRecord → TrainingRunRecord
set_collection training d r = record r { checkpoints = d }
set_collection sampler d r = record r { sampler_checkpoints = d }

unfoldable pub counter : CheckpointType → TrainingRunRecord → ℕ
counter training r = r.next_training_checkpoint
counter sampler r = r.next_sampler_checkpoint

unfoldable pub advance_counter : CheckpointType → TrainingRunRecord → TrainingRunRecord
advance_counter training r = record r { next_training_checkpoint = suc r.next_training_checkpoint }
advance_counter sampler r = record r { next_sampler_checkpoint = suc r.next_sampler_checkpoint }

-- `name or f"checkpoint-{counter:04d}"`
unfoldable pub chosen_name : Option String → ℕ → String
unfolding checkpoint_name is_empty
chosen_name none n = checkpoint_name n
chosen_name (some name) n = if is_empty name then checkpoint_name n else name

abbrev pub is_training : CheckpointType → Bool
is_training training = true
is_training sampler = false

abbrev pub or_empty : Option (List String) → List String
or_empty none = []
or_empty (some xs) = xs

module _ {B W T C Q A P O : Type 0} (env : Env B W T C Q A P O) where
  unfoldable put_checkpoint_text : String → CheckpointRecord → Dict (Dict C) → Dict (Dict C)
  put_checkpoint_text model_id c d =
      let old : Dict C = elim (Dict.get d model_id) [ none ↦ [] | some of_run ↦ of_run ] in
      if env.checkpoint_codec.enabled
      then elim (env.checkpoint_codec.dumps c) [
        | none ↦ d
        | some t ↦ Dict.put d model_id (Dict.put old c.checkpoint_id t)
      ]
      else d

  -- _save_checkpoint and _save_sampler_checkpoint, for the record that the run has
  unfoldable pub save_checkpoint_record :
      CheckpointType
      → String
      → CheckpointRecord
      → TrainingController B W T C
      → TrainingController B W T C
  unfolding put_checkpoint_text
  save_checkpoint_record training model_id c s = record s {
    redis_checkpoints = put_checkpoint_text model_id c s.redis_checkpoints;
  }
  save_checkpoint_record sampler model_id c s = record s {
    redis_sampler_checkpoints = put_checkpoint_text model_id c s.redis_sampler_checkpoints;
  }

  -- _save_training_run_with_checkpoint: both texts are written, or neither
  unfoldable pub save_training_run_with_checkpoint :
      CheckpointType
      → String
      → CheckpointRecord
      → TrainingController B W T C
      → TrainingController B W T C
  unfolding save_training_run save_checkpoint_record
  save_training_run_with_checkpoint kind model_id c s = elim (Dict.get s.training_runs model_id) [
    | none ↦ s
    | some r ↦ elim (env.run_codec.dumps r) [
      | none ↦ s
      | some t ↦ elim (env.checkpoint_codec.dumps c) [
        | none ↦ s
        | some u ↦ save_checkpoint_record kind model_id c (save_training_run env model_id s)
      ]
    ]
  ]

  -- The arguments of `checkpoint.save_metadata` in `save_checkpoint`.
  unfoldable pub description : TrainingRunRecord → Described
  unfolding effective_lora_alpha
  description r = record {
    base_model = r.base_model;
    session_id = r.session_id;
    lora_rank = some r.lora_rank;
    lora_alpha = some (effective_lora_alpha env.supported_models r);
    train_attn = r.train_attn;
    train_mlp = r.train_mlp;
    train_unembed = r.train_unembed;
    target_modules = r.target_modules;
    target_parameters = r.target_parameters;
  }

  -- The new record of `save_checkpoint`.
  unfoldable pub new_checkpoint :
      (now : ℕ)
      → TrainingRunRecord
      → Option String
      → CheckpointType
      → (future_id : ℕ) → (seq_id : Option ℕ) → CheckpointRecord
  unfolding from_training_run counter chosen_name
  new_checkpoint now r name kind future_id seq_id =
      let c =
        from_training_run env.checkpoint_path now r.training_run_id
          (chosen_name name (counter kind r)) r.model_owner kind in
      record c { future_id = future_id; seq_id = seq_id }

  -- `backend.save_state`, on the backend and on the directory of the checkpoint
  unfoldable pub write_state :
      TrainingRunRecord
      → CheckpointRecord
      → TrainingController B W T C
      → TrainingController B W T C × Result (Unit {0})
  write_state r c s = elim r.backend [
    | none ↦ (s, ok tt)
    | some name ↦ elim (Dict.get s.training_backends name) [
      | none ↦ (s, err (unknown_model r.training_run_id))
      | some b ↦ elim (Dict.get s.disk c.path) [
        | none ↦ (s, err (server_error "no directory"))
        | some dir ↦
            let after =
              env.api.save_state r.training_run_id (is_training c.checkpoint_type) b dir in
            (
              record s {
                training_backends = Dict.put s.training_backends name after.0.0;
                disk = Dict.put s.disk c.path after.0.1;
              },
              after.1,
            )
      ]
    ]
  ]

  -- compute_tree_size on the directory of the checkpoint
  unfoldable pub size_at : Dict (Directory W) → String → ℕ
  size_at disk path = elim (Dict.get disk path) [ none ↦ 0 | some dir ↦ env.tree_size dir ]

  -- The record with the size of its directory, in which the metadata has been written once.
  unfoldable pub sized_checkpoint :
      TrainingRunRecord → CheckpointRecord → Dict (Directory W) → CheckpointRecord
  unfolding save_metadata description size_at
  sized_checkpoint r c disk = record c {
    size_bytes = size_at (save_metadata c (description r) disk) c.path;
  }

  -- target_map[checkpoint_name] = checkpoint
  unfoldable pub add_checkpoint :
      String → CheckpointRecord → TrainingController B W T C → TrainingController B W T C
  unfolding update_run collection set_collection
  add_checkpoint model_id c s =
      let kind = c.checkpoint_type in
      update_run model_id
        (λ r. set_collection kind (Dict.put (collection kind r) c.checkpoint_id c) r) s

  -- What `save_checkpoint` does once the weights are written: metadata twice, and the records.
  unfoldable pub record_checkpoint :
      String
      → TrainingRunRecord
      → CheckpointRecord
      → TrainingController B W T C × Result (Unit {0})
      → TrainingController B W T C × Result CheckpointRecord
  unfolding save_metadata description sized_checkpoint add_checkpoint
      save_training_run_with_checkpoint
  record_checkpoint model_id r c (s, err e) = (s, err e)
  record_checkpoint model_id r c (s, ok u) =
      let sized = sized_checkpoint r c s.disk in
      (
        save_training_run_with_checkpoint c.checkpoint_type model_id sized (
            add_checkpoint model_id sized (record s {
              disk = save_metadata sized (description r) (save_metadata c (description r) s.disk);
            })),
        ok sized,
      )

  -- `_operation` of `save_checkpoint`: the counter moves before anything can fail.
  unfoldable pub save_operation :
      (now : ℕ)
      → String
      → TrainingRunRecord
      → Option String
      → CheckpointType
      → (future_id : ℕ) → (seq_id : Option ℕ) → TrainingController B W T C
      → TrainingController B W T C × Result CheckpointRecord
  unfolding update_run advance_counter new_checkpoint make_directory write_state record_checkpoint
  save_operation now model_id r name kind future_id seq_id s =
      let c = new_checkpoint now r name kind future_id seq_id in
      let counted = update_run model_id (advance_counter kind) s in
      record_checkpoint model_id r c
        (write_state r c (record counted { disk = make_directory c.path counted.disk }))

  unfoldable pub save_checkpoint :
      (now : ℕ)
      → (model_id user_id : String) → (name : Option String) → CheckpointType
      → (future_id : ℕ) → (seq_id : Option ℕ) → TrainingController B W T C
      → TrainingController B W T C × Result CheckpointRecord
  unfolding get_run_record require_training_capability require_resumable_run with_sequence_guard
      save_operation
  save_checkpoint now model_id user_id name kind future_id seq_id s =
      elim (get_run_record model_id user_id true s) [
        | err e ↦ (s, err e)
        | ok r ↦ elim (require_training_capability env.supported_models r.base_model) [
          | err e ↦ (s, err e)
          | ok u ↦ elim (require_resumable_run r) [
            | err e ↦ (s, err e)
            | ok v ↦
                if r.corrupted
                then (s, err (invalid_request "is corrupted and cannot save checkpoints"))
                else with_sequence_guard env model_id r seq_id
                    (save_operation now model_id r name kind future_id seq_id) s
          ]
        ]
      ]

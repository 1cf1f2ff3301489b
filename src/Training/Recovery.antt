-- ===== src/Training/Recovery.antt =====
-- src/tuft/training_controller.py: bringing a run back after a restart.
use tu_ft.Base.{String, Bool, true, false, not, ◌||◌, Option, none, some, [], if◌then◌else◌}
use tu_ft.Dict
use tu_ft.Dict.{Dict}
use tu_ft.Errors.{invalid_request, Result, ok, err, is_ok}
use tu_ft.Persistence.Restore.{restore_all}
use tu_ft.Checkpoints.{CheckpointRecord, directory_at}
use tu_ft.Checkpoints.Geometry.{validate_lora_alpha}
use tu_ft.Config.{get_model_config, training_enabled}
use tu_ft.Lora.{LoraConfig, LoraTargets}
use tu_ft.Training.{
  Env, TrainingController, TrainingRunRecord, has_legacy_lora_state, effective_lora_alpha,
  update_run, save_training_run, on_backend,
}
use tu_ft.Training.Runs.{effective_lora_targets}
use tu_ft.Names.{same_set}
use tu_ft.Training.Weights.{or_empty, is_training}
use tu_ft.Training.Weights.Manage.{get_latest_checkpoint}

-- A flag that `lora_config` has asserted to be there.
abbrev flag : Option Bool → Bool
flag none = false
flag (some b) = b

-- TrainingRunRecord.lora_config, for a run that is not a legacy one
unfoldable pub lora_config : TrainingRunRecord → LoraConfig
lora_config r = record {
  rank = r.lora_rank;
  train_attn = flag r.train_attn;
  train_mlp = flag r.train_mlp;
  train_unembed = flag r.train_unembed;
}

abbrev or_nothing {ℓ} : {A : Type ℓ} → Option (Dict A) → Dict A
or_nothing none = []
or_nothing (some d) = d

-- `record.corrupted = True`
unfoldable pub corrupt : TrainingRunRecord → TrainingRunRecord
corrupt r = record r { corrupted = true }

-- Whether the current resolution of the targets is not that of the run.
abbrev targets_differ : Result LoraTargets → TrainingRunRecord → Result Bool
targets_differ (err (invalid_request detail)) r = ok true
targets_differ (err e) r = err e
targets_differ (ok targets) r = ok (
    not (same_set targets.modules (or_empty r.target_modules))
    || not (same_set targets.parameters (or_empty r.target_parameters)))

module _ {B W T C Q A P O : Type 0} (env : Env B W T C Q A P O) where
  -- What `_restore_from_redis` makes of a run that it has loaded.
  unfoldable pub restored_run :
      (training_backends : Dict B)
      → Dict (Dict C)
      → Dict (Dict C)
      → TrainingRunRecord
      → TrainingRunRecord
  unfolding restore_all get_model_config training_enabled has_legacy_lora_state corrupt
  restored_run backends of_training of_sampler r =
      let found : TrainingRunRecord = record r {
        checkpoints =
            restore_all env.checkpoint_codec.loads (λ c. c.checkpoint_id)
              (or_nothing (Dict.get of_training r.training_run_id)) [];
        sampler_checkpoints =
            restore_all env.checkpoint_codec.loads (λ c. c.checkpoint_id)
              (or_nothing (Dict.get of_sampler r.training_run_id)) [];
        backend = none;
      } in
      let linked : TrainingRunRecord = elim (Dict.get backends r.base_model) [
        | some b ↦ record found { backend = some r.base_model }
        | none ↦ elim (get_model_config env.supported_models r.base_model) [
          | none ↦ corrupt found
          | some c ↦ if training_enabled c then corrupt found else found
        ]
      ] in
      if has_legacy_lora_state r then corrupt linked else linked

  abbrev load_run : Dict B → Dict (Dict C) → Dict (Dict C) → T → Option TrainingRunRecord
  load_run backends of_training of_sampler t = elim (env.run_codec.loads t) [
    | none ↦ none
    | some r ↦ some (restored_run backends of_training of_sampler r)
  ]

  -- _restore_from_redis
  unfoldable pub restore_from_redis : TrainingController B W T C → TrainingController B W T C
  unfolding restore_all restored_run
  restore_from_redis s =
      if env.run_codec.enabled
      then record s {
        training_runs =
            restore_all
              (load_run s.training_backends s.redis_checkpoints s.redis_sampler_checkpoints)
              (λ r. r.training_run_id) s.redis [];
      }
      else s

  -- `record.corrupted = True` and `_save_training_run`
  unfoldable mark_corrupted : String → TrainingController B W T C → TrainingController B W T C
  unfolding update_run corrupt save_training_run
  mark_corrupted model_id s = save_training_run env model_id (update_run model_id corrupt s)

  -- A call of `create_adapter`, `load_state` or `remove_adapter` on the run's backend.
  abbrev Call : Type 0
  Call = TrainingController B W T C → TrainingController B W T C × Result (Unit {0})

  -- The last attempt: the run is marked if loading fails again, and the adapter released.
  unfoldable second_load :
      String
      → (load remove : Call) → TrainingController B W T C × Result (Unit {0})
      → TrainingController B W T C
  unfolding update_run corrupt save_training_run
  second_load model_id load remove created =
      let loaded = load created.0 in
      elim loaded.1 [
        | ok u ↦ loaded.0
        | err e ↦
            let marked = update_run model_id corrupt loaded.0 in
            save_training_run env model_id (if is_ok created.1 then (remove marked).0 else marked)
      ]

  -- `load_state`, and with `create_adapter` before it if it fails
  unfoldable load_with_fallback :
      String → (load create remove : Call) → TrainingController B W T C → TrainingController B W T C
  unfolding second_load
  load_with_fallback model_id load create remove s =
      let loaded = load s in
      elim loaded.1 [ ok u ↦ loaded.0 | err e ↦ second_load model_id load remove (create loaded.0) ]

  -- What `restore_from_checkpoint` does for a run whose targets are still the same.
  unfoldable resume_run :
      String
      → TrainingRunRecord
      → Option CheckpointRecord
      → TrainingController B W T C
      → TrainingController B W T C
  unfolding lora_config on_backend validate_lora_alpha effective_lora_alpha mark_corrupted
      load_with_fallback directory_at
  resume_run model_id r none s =
      (on_backend env model_id r.backend (env.api.create_adapter model_id (lora_config r)) s).0
  resume_run model_id r (some c) s =
      elim (validate_lora_alpha (effective_lora_alpha env.supported_models r) s.disk c) [
        | err e ↦ mark_corrupted model_id s
        | ok u ↦
            load_with_fallback model_id
              (on_backend env model_id r.backend (
                env.api.load_state model_id (is_training c.checkpoint_type)
                  (directory_at s.disk c.path)))
              (on_backend env model_id r.backend (env.api.create_adapter model_id (lora_config r)))
              (on_backend env model_id r.backend (env.api.remove_adapter model_id)) s
      ]

  -- restore_from_checkpoint
  unfoldable pub restore_from_checkpoint :
      (model_id : String)
      → TrainingController B W T C
      → TrainingController B W T C × Result (Option CheckpointRecord)
  unfolding has_legacy_lora_state update_run corrupt effective_lora_targets same_set
      get_latest_checkpoint mark_corrupted resume_run lora_config
  restore_from_checkpoint model_id s = elim (Dict.get s.training_runs model_id) [
    | none ↦ (s, ok none)
    | some r ↦ elim r.backend [
      | none ↦ (s, ok none)
      | some name ↦
          if has_legacy_lora_state r
          then (update_run model_id corrupt s, ok none)
          else elim (targets_differ (effective_lora_targets env r.base_model (lora_config r)) r) [
            | err e ↦ (s, err e)
            | ok true ↦ (mark_corrupted model_id s, ok (get_latest_checkpoint r))
            | ok false ↦
                (resume_run model_id r (get_latest_checkpoint r) s, ok (get_latest_checkpoint r))
          ]
    ]
  ]

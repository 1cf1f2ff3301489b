-- ===== src/Training/Runs.antt =====
-- src/tuft/training_controller.py: creating and unloading a run, and its training operations.
pub mod Unloaded
use tu_ft.Base.{
  ℕ, String, true, false, not, ◌||◌, ◌&&◌, Option, none, some, [], str_eq, is_some, if◌then◌else◌,
}
use tu_ft.Dict
use tu_ft.Dict.{Dict}
use tu_ft.Errors.{unknown_model, user_mismatch, invalid_request, Result, ok, err}
use tu_ft.Config.{ModelConfig, get_model_config, fsdp_qv_target_modules}
use tu_ft.Lora.{LoraConfig, LoraTargets, get_lora_targets}
use tu_ft.Lora.Family.{resolve_model}
use tu_ft.Fsdp.{Model, get_target_geometry_from_config}
use tu_ft.Training.{
  Env, TrainingController, TrainingRunRecord, get_run_record, require_training_capability,
  require_resumable_run, save_training_run, update_activity, with_sequence_guard, on_backend,
}

module _ {B W T C Q A P O : Type 0} (env : Env B W T C Q A P O) where
  -- resolve_model_series_and_architecture on the path of a model
  unfoldable pub model_of : ModelConfig → Model
  unfolding resolve_model
  model_of c = resolve_model (env.model_type c.model_path) c.model_path

  -- _effective_lora_targets
  unfoldable pub effective_lora_targets : String → LoraConfig → Result LoraTargets
  unfolding get_model_config model_of get_lora_targets get_target_geometry_from_config
  effective_lora_targets base_model lora_config =
      elim (get_model_config env.supported_models base_model) [
        | none ↦ err (unknown_model base_model)
        | some c ↦
            if c.is_fsdp && c.fsdp_qv_only
            then ok (record { modules = fsdp_qv_target_modules; parameters = [] })
            else (if c.is_fsdp
                  && (is_some c.fsdp_target_modules || is_some c.fsdp_target_parameters)
                then get_target_geometry_from_config (model_of c) c
                else elim (get_lora_targets (model_of c) lora_config
                    c.qwen_gated_deltanet_full_lora) [
                      | none ↦ err (invalid_request "Cannot resolve effective LoRA target modules")
                      | some targets ↦ ok targets
                    ])
      ]

  -- The record that `create_model` builds.
  unfoldable pub new_run :
      (model_id : String)
      → (now : ℕ) → (session_id base_model : String) → LoraConfig
      → (model_owner : String) → (user_metadata : Option (Dict String)) → LoraTargets
      → TrainingRunRecord
  new_run model_id now session_id base_model c model_owner user_metadata targets = record {
    training_run_id = model_id;
    base_model = base_model;
    lora_rank = c.rank;
    train_attn = some c.train_attn;
    train_mlp = some c.train_mlp;
    train_unembed = some c.train_unembed;
    target_modules = some targets.modules;
    target_parameters = some targets.parameters;
    session_id = session_id;
    model_owner = model_owner;
    user_metadata = user_metadata;
    created_at = now;
    last_request_time = now;
    checkpoints = [];
    sampler_checkpoints = [];
    next_training_checkpoint = 1;
    next_sampler_checkpoint = 1;
    corrupted = false;
    next_seq_id = 1;
    backend = some base_model;
  }

  -- The end of `create_model`, after the backend has been asked for the adapter.
  unfoldable register_run :
      String
      → TrainingRunRecord
      → TrainingController B W T C × Result (Unit {0})
      → TrainingController B W T C × Result TrainingRunRecord
  unfolding save_training_run
  register_run model_id r (s, err e) = (s, err e)
  register_run model_id r (s, ok u) = (
    save_training_run env model_id
        (record s { training_runs = Dict.put s.training_runs model_id r }),
    ok r,
  )

  -- create_model; `model_id` is the fresh uuid
  unfoldable pub create_model :
      (model_id : String)
      → (now : ℕ) → (session_id base_model : String) → LoraConfig
      → (model_owner : String) → (user_metadata : Option (Dict String)) → TrainingController B W T C
      → TrainingController B W T C × Result TrainingRunRecord
  unfolding require_training_capability effective_lora_targets new_run on_backend register_run
  create_model model_id now session_id base_model c model_owner user_metadata s =
      if not (is_some (Dict.get s.training_backends base_model))
      then elim (require_training_capability env.supported_models base_model) [
        | err e ↦ (s, err e)
        | ok u ↦ (s, err (unknown_model base_model))
      ]
      else elim (effective_lora_targets base_model c) [
        | err e ↦ (s, err e)
        | ok targets ↦
            register_run model_id
              (new_run model_id now session_id base_model c model_owner user_metadata targets)
              (on_backend env model_id (some base_model) (env.api.create_adapter model_id c) s)
      ]

  -- The checks that `run_forward` and `run_optim_step` begin with, and the time of the request.
  unfoldable pub begin_operation :
      (now : ℕ)
      → (model_id user_id : String) → TrainingController B W T C
      → TrainingController B W T C × Result TrainingRunRecord
  unfolding get_run_record require_training_capability require_resumable_run update_activity
  begin_operation now model_id user_id s = elim (get_run_record model_id user_id true s) [
    | err e ↦ (s, err e)
    | ok r ↦ elim (require_training_capability env.supported_models r.base_model) [
      | err e ↦ (s, err e)
      | ok u ↦ elim (require_resumable_run r) [
        | err e ↦ (s, err e)
        | ok v ↦ ((update_activity env now model_id user_id s).0, ok r)
      ]
    ]
  ]

  -- What `run_forward` and `run_optim_step` do once they have begun.
  unfoldable pub guarded_call {ℓ} :
      {X : Type ℓ}
      → String
      → Option ℕ
      → (B → B × Result X)
      → TrainingController B W T C × Result TrainingRunRecord
      → TrainingController B W T C × Result X
  unfolding with_sequence_guard on_backend
  guarded_call model_id seq_id call (s, err e) = (s, err e)
  guarded_call model_id seq_id call (s, ok r) =
      with_sequence_guard env model_id r seq_id (on_backend env model_id r.backend call) s

  unfoldable pub run_forward :
      (now : ℕ)
      → (model_id user_id : String) → Q
      → (seq_id : Option ℕ) → TrainingController B W T C
      → TrainingController B W T C × Result A
  unfolding begin_operation guarded_call
  run_forward now model_id user_id q seq_id s =
      guarded_call model_id seq_id (env.api.forward model_id q)
        (begin_operation now model_id user_id s)

  unfoldable pub run_optim_step :
      (now : ℕ)
      → (model_id user_id : String) → P
      → (seq_id : Option ℕ) → TrainingController B W T C
      → TrainingController B W T C × Result O
  unfolding begin_operation guarded_call
  run_optim_step now model_id user_id p seq_id s =
      guarded_call model_id seq_id (env.api.optim_step model_id p)
        (begin_operation now model_id user_id s)

  -- _delete_training_run: the run and, by their patterns, its checkpoints
  unfoldable pub delete_training_run :
      String → TrainingController B W T C → TrainingController B W T C
  delete_training_run model_id s = record s {
    redis = if env.run_codec.enabled then Dict.pop s.redis model_id else s.redis;
    redis_checkpoints =
        if env.checkpoint_codec.enabled
        then Dict.pop s.redis_checkpoints model_id
        else s.redis_checkpoints;
    redis_sampler_checkpoints =
        if env.checkpoint_codec.enabled
        then Dict.pop s.redis_sampler_checkpoints model_id
        else s.redis_sampler_checkpoints;
  }

  -- The end of `unload_model`, after the backend has been asked to remove the adapter.
  unfoldable forget_run :
      String
      → TrainingController B W T C × Result (Unit {0})
      → TrainingController B W T C × Result (Unit {0})
  unfolding delete_training_run
  forget_run model_id (s, err e) = (s, err e)
  forget_run model_id (s, ok u) = (
    delete_training_run model_id (record s { training_runs = Dict.pop s.training_runs model_id }),
    ok u,
  )

  unfoldable pub unload_model :
      (model_id user_id : String)
      → TrainingController B W T C
      → TrainingController B W T C × Result (Unit {0})
  unfolding forget_run on_backend
  unload_model model_id user_id s = elim (Dict.get s.training_runs model_id) [
    | none ↦ (s, err (unknown_model model_id))
    | some r ↦
        if str_eq r.model_owner user_id
        then forget_run model_id (elim r.backend [
          | none ↦ (s, ok tt)
          | some name ↦ on_backend env model_id (some name) (env.api.remove_adapter model_id) s
        ])
        else (s, err user_mismatch)
  ]

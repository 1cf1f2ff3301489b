-- ===== src/Training.antt =====
-- src/tuft/training_controller.py: the training runs, their guards and the calls of the backends.
-- Redis is one dict of texts for the runs and, for each run, one for each kind of checkpoint. A
-- run is mutated in `training_runs`, where every holder of the Python object sees it. An operation
-- runs in one step, as the run's lock has it; what the interpreter does between two awaits of
-- different runs is a sequence of such steps.
pub mod Runs
pub mod Weights
pub mod Sequence
pub mod Recovery
pub mod Owners
pub mod Answers
pub mod Views
pub mod Listed
use tu_ft.Base.{
  ℕ, suc, ◌*◌, String, Bool, true, false, not, ◌||◌, ◌&&◌, Option, none, some, List, [], ◌∷◌, ◌==◌,
  str_eq, is_some, opt_map, if◌then◌else◌,
}
use tu_ft.Dict
use tu_ft.Dict.{Dict}
use tu_ft.Errors.{
  Error, unknown_model, user_mismatch, capability_disabled, invalid_request, sequence_conflict,
  Result, ok, err,
}
use tu_ft.Config.{ModelConfig, get_model_config, training_enabled, compute_lora_alpha}
use tu_ft.Lora.{LoraConfig}
use tu_ft.Persistence.{Codec, save_record}
use tu_ft.Checkpoints.{
  CheckpointType, training, sampler, CheckpointRecord, CheckpointMetadata, Directory,
}

-- `backend` is the name in `training_backends` of the backend that the run refers to.
pub record TrainingRunRecord : Type 0 where
  pub training_run_id : String
  pub base_model : String
  pub lora_rank : ℕ
  pub train_attn : Option Bool
  pub train_mlp : Option Bool
  pub train_unembed : Option Bool
  pub target_modules : Option (List String)
  pub target_parameters : Option (List String)
  pub session_id : String
  pub model_owner : String
  pub user_metadata : Option (Dict String)
  pub created_at : ℕ
  pub last_request_time : ℕ
  pub checkpoints : Dict CheckpointRecord
  pub sampler_checkpoints : Dict CheckpointRecord
  pub next_training_checkpoint : ℕ
  pub next_sampler_checkpoint : ℕ
  pub corrupted : Bool
  pub next_seq_id : ℕ
  pub backend : Option String

pub record TrainingController (B W T C : Type 0) : Type 0 where
  pub training_runs : Dict TrainingRunRecord
  pub training_backends : Dict B
  pub disk : Dict (Directory W)
  pub redis : Dict T
  pub redis_checkpoints : Dict (Dict C)
  pub redis_sampler_checkpoints : Dict (Dict C)

-- A training backend with state `B`, which writes files `W`. `Q` and `A` are what `forward` takes
-- (data, loss, its configuration, `backward`) and gives, `P` and `O` what `optim_step` takes and
-- gives. A call may change the backend also when it raises.
pub record Backend (B W Q A P O : Type 0) : Type 0 where
  pub create_adapter : String → LoraConfig → B → B × Result (Unit {0})
  pub remove_adapter : String → B → B × Result (Unit {0})
  pub forward : String → Q → B → B × Result A
  pub optim_step : String → P → B → B × Result O
  pub save_state :
      String → (optimizer : Bool) → B → Directory W → (B × Directory W) × Result (Unit {0})
  pub load_state : String → (optimizer : Bool) → Directory W → B → B × Result (Unit {0})

-- The configuration, and what the controller calls outside of this module. `checkpoint_path` joins
-- the directory of the checkpoints, a run and a name; `tree_size` is what the files of a directory
-- take. `model_type` reads the field of that name in the config.json under the path of a model: the
-- empty text if it has none, and `none` if the file is missing or cannot be read.
pub record Env (B W T C Q A P O : Type 0) : Type 0 where
  pub supported_models : List ModelConfig
  pub run_codec : Codec TrainingRunRecord T
  pub checkpoint_codec : Codec CheckpointRecord C
  pub api : Backend B W Q A P O
  pub checkpoint_path : String → String → String
  pub tree_size : Directory W → ℕ
  pub model_type : String → Option String

-- TrainingRunRecord.has_legacy_lora_state
unfoldable pub has_legacy_lora_state : TrainingRunRecord → Bool
has_legacy_lora_state r =
    not (is_some r.target_modules)
    || not (is_some r.train_attn)
    || not (is_some r.train_mlp)
    || not (is_some r.train_unembed)

-- _require_training_capability
unfoldable pub require_training_capability : List ModelConfig → String → Result (Unit {0})
unfolding get_model_config training_enabled
require_training_capability models base_model = elim (get_model_config models base_model) [
  | none ↦ ok tt
  | some c ↦ if training_enabled c then ok tt else err (capability_disabled base_model "training")
]

-- _require_resumable_run
unfoldable pub require_resumable_run : TrainingRunRecord → Result (Unit {0})
unfolding has_legacy_lora_state
require_resumable_run r =
    if has_legacy_lora_state r
    then err (invalid_request "does not record its complete effective LoRA target geometry")
    else ok tt

-- _effective_lora_alpha, compute_lora_alpha; the default ratio is 2
unfoldable pub effective_lora_alpha : List ModelConfig → TrainingRunRecord → ℕ
unfolding get_model_config compute_lora_alpha
effective_lora_alpha models r = elim (get_model_config models r.base_model) [
  | none ↦ compute_lora_alpha r.lora_rank 2
  | some c ↦ compute_lora_alpha r.lora_rank c.lora_alpha_ratio
]

module _ {B W T C : Type 0} where
  -- get_run_record
  unfoldable pub get_run_record :
      (model_id user_id : String)
      → (enforce_user_match : Bool) → TrainingController B W T C
      → Result TrainingRunRecord
  get_run_record model_id user_id enforce s = elim (Dict.get s.training_runs model_id) [
    | none ↦ err (unknown_model model_id)
    | some r ↦ if enforce && not (str_eq r.model_owner user_id) then err user_mismatch else ok r
  ]

  -- An assignment to attributes of the run.
  unfoldable pub update_run :
      String
      → (TrainingRunRecord → TrainingRunRecord)
      → TrainingController B W T C
      → TrainingController B W T C
  update_run model_id f s = elim (Dict.get s.training_runs model_id) [
    | none ↦ s
    | some r ↦ record s { training_runs = Dict.put s.training_runs model_id (f r) }
  ]

unfoldable pub advance_seq : Option ℕ → TrainingRunRecord → TrainingRunRecord
advance_seq none r = r
advance_seq (some q) r = record r { next_seq_id = suc r.next_seq_id }

-- What the guard raises for a `seq_id`, if anything.
unfoldable pub check_seq : Option ℕ → TrainingRunRecord → Option Error
check_seq none r = none
check_seq (some q) r = if q == r.next_seq_id then none else some (sequence_conflict r.next_seq_id q)

module _ {B W T C Q A P O : Type 0} (env : Env B W T C Q A P O) where
  -- _save_training_run
  unfoldable pub save_training_run :
      String → TrainingController B W T C → TrainingController B W T C
  unfolding save_record
  save_training_run model_id s = elim (Dict.get s.training_runs model_id) [
    | none ↦ s
    | some r ↦ record s { redis = (save_record env.run_codec model_id r s.redis).0 }
  ]

  -- update_activity
  unfoldable pub update_activity :
      (now : ℕ)
      → (model_id user_id : String) → TrainingController B W T C
      → TrainingController B W T C × Result (Unit {0})
  unfolding get_run_record update_run save_training_run
  update_activity now model_id user_id s = elim (get_run_record model_id user_id true s) [
    | err e ↦ (s, err e)
    | ok r ↦ (
      save_training_run model_id
          (update_run model_id (λ r. record r { last_request_time = now }) s),
      ok tt,
    )
  ]

  -- The end of `_with_sequence_guard`: only an operation that returns uses its number up.
  unfoldable pub finish_guard {ℓ} :
      {X : Type ℓ}
      → String
      → Option ℕ
      → TrainingController B W T C × Result X
      → TrainingController B W T C × Result X
  unfolding update_run save_training_run advance_seq
  finish_guard model_id seq_id (s, err e) = (s, err e)
  finish_guard model_id seq_id (s, ok x) =
      (save_training_run model_id (update_run model_id (advance_seq seq_id) s), ok x)

  -- _with_sequence_guard, for the run `r` that stands under `model_id`
  unfoldable pub with_sequence_guard {ℓ} :
      {X : Type ℓ}
      → String
      → TrainingRunRecord
      → Option ℕ
      → (TrainingController B W T C → TrainingController B W T C × Result X)
      → TrainingController B W T C
      → TrainingController B W T C × Result X
  unfolding check_seq finish_guard
  with_sequence_guard model_id r seq_id operation s = elim (check_seq seq_id r) [
    | some e ↦ (s, err e)
    | none ↦ finish_guard model_id seq_id (operation s)
  ]

  -- A call of the backend that a run refers to; `UnknownModelException` without one.
  unfoldable pub on_backend {ℓ} :
      {X : Type ℓ}
      → String
      → Option String
      → (B → B × Result X)
      → TrainingController B W T C
      → TrainingController B W T C × Result X
  on_backend model_id none call s = (s, err (unknown_model model_id))
  on_backend model_id (some name) call s = elim (Dict.get s.training_backends name) [
    | none ↦ (s, err (unknown_model model_id))
    | some b ↦
        let after = call b in
        (record s { training_backends = Dict.put s.training_backends name after.0 }, after.1)
  ]

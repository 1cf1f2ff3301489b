-- ===== src/Tests/Bench.antt =====
-- The concrete controller, backend, runs and server that the tests use.
use tu_ft.Base.{ℕ, zero, suc, ◌+◌, String, true, false, none, some, List, [], ◌∷◌}
use tu_ft.Errors.{user_mismatch, Result, ok, err}
use tu_ft.Checkpoints.{
  training, sampler, CheckpointRecord, CheckpointMetadata, number, array, text, null,
  adapter_config, metadata_json, no_adapter,
}
use tu_ft.Config.{ModelConfig, training_capability, sampling_capability}
use tu_ft.Training.{Env, Backend, TrainingController, TrainingRunRecord}
use tu_ft.Training.Weights.Compatible.{ParsedPath}
use tu_ft.Training.Sequence.Calls.{Call, Operation, forward, optim_step, save}
use tu_ft.Futures
use tu_ft.Futures.{FutureRecord, FutureStore, pending, active, sample, is_pending, is_sample}
use tu_ft.Server.{ServerState}

abbrev pub ann : String
ann = "ann"

abbrev pub bob : String
bob = "bob"

-- A backend that counts its calls. `optim_step` raises for the parameter 0.
abbrev pub backend : Backend ℕ ℕ ℕ ℕ ℕ ℕ
backend = record {
  create_adapter = λ id c b. (b + 1, ok tt);
  remove_adapter = λ id b. (b + 1, ok tt);
  forward = λ id q b. (b + 1, ok q);
  optim_step = λ id p b. elim p as (λ _. ℕ × Result ℕ) [
    | zero ↦ (b + 1, err user_mismatch)
    | suc n ↦ (b + 1, ok n)
  ];
  save_state = λ id optimizer b dir. (
    (
      b + 1,
      record dir {
        adapter_file = adapter_config (number 16) (array (text "q_proj" ∷ [])) null;
        weights = some b;
      },
    ),
    ok tt,
  );
  load_state = λ id optimizer dir b. (b + 1, ok tt);
}

abbrev pub model : ModelConfig
model = record {
  model_name = "base";
  model_path = "models/Qwen3-8B";
  capabilities = training_capability ∷ sampling_capability ∷ [];
  tensor_parallel_size = 1;
  data_parallel_size = 1;
  max_lora_rank = 16;
  lora_alpha_ratio = 2;
  is_fsdp = false;
  fsdp_rank_slots = none;
  fsdp_qv_only = false;
  fsdp_target_modules = none;
  fsdp_target_parameters = none;
  fsdp_train_attn = true;
  fsdp_train_mlp = true;
  fsdp_train_unembed = true;
  qwen_gated_deltanet_full_lora = false;
  colocate = false;
  enable_auto_tool_choice = false;
  tool_call_parser = none;
}

abbrev pub config : Env ℕ ℕ TrainingRunRecord CheckpointRecord ℕ ℕ ℕ ℕ
config = record {
  supported_models = model ∷ [];
  run_codec = record { enabled = true; dumps = λ r. some r; loads = λ t. some t };
  checkpoint_codec = record { enabled = true; dumps = λ r. some r; loads = λ t. some t };
  api = backend;
  checkpoint_path = λ run name. name;
  tree_size = λ dir. 10;
  model_type = λ path. none;
}

abbrev pub run : TrainingRunRecord
run = record {
  training_run_id = "m";
  base_model = "base";
  lora_rank = 8;
  train_attn = some true;
  train_mlp = some false;
  train_unembed = some false;
  target_modules = some ("q_proj" ∷ []);
  target_parameters = some [];
  session_id = "s";
  model_owner = ann;
  user_metadata = none;
  created_at = 0;
  last_request_time = 0;
  checkpoints = [];
  sampler_checkpoints = [];
  next_training_checkpoint = 1;
  next_sampler_checkpoint = 1;
  corrupted = false;
  next_seq_id = 1;
  backend = some "base";
}

abbrev pub controller : TrainingController ℕ ℕ TrainingRunRecord CheckpointRecord
controller = record {
  training_runs = ("m", run) ∷ [];
  training_backends = ("base", 0) ∷ [];
  disk = [];
  redis = [];
  redis_checkpoints = [];
  redis_sampler_checkpoints = [];
}

abbrev pub call : ℕ → Operation ℕ ℕ → Call ℕ ℕ
call q operation = record {
  now = 4;
  model_id = "m";
  user_id = ann;
  seq_id = some q;
  operation = operation;
}

-- The second call is out of order and the fourth raises in the backend.
abbrev pub calls : List (Call ℕ ℕ)
calls =
    call 1 (forward 7)
    ∷ call 3 (forward 7)
    ∷ call 2 (save none training 5)
    ∷ call 3 (optim_step 0)
    ∷ call 3 (optim_step 1)
    ∷ []

-- What the sampler save below returns, and a training checkpoint that was saved as `c` before it.
abbrev pub saved : CheckpointRecord
saved = record {
  checkpoint_id = "c";
  owner_name = ann;
  checkpoint_type = sampler;
  training_run_id = "m";
  path = "c";
  size_bytes = 10;
  public = false;
  created_at = 4;
  future_id = 5;
  seq_id = none;
}

abbrev pub earlier : CheckpointRecord
earlier = record saved { checkpoint_type = training; created_at = 2; future_id = 3 }

abbrev pub described : CheckpointMetadata
described = record {
  model_id = "m";
  name = "c";
  base_model = "base";
  checkpoint_type = sampler;
  created_at = 4;
  session_id = "s";
  owner_name = ann;
  size_bytes = 10;
  lora_rank = some 8;
  lora_alpha = some 16;
  train_attn = some true;
  train_mlp = some false;
  train_unembed = some false;
  target_modules = some ("q_proj" ∷ []);
  target_parameters = some [];
  public = false;
  future_id = 5;
  seq_id = none;
}

abbrev pub future : FutureRecord ℕ
future = record {
  request_id = "f";
  future_id = 1;
  model_id = none;
  user_id = some ann;
  queue_state = active;
  status = pending;
  payload = none;
  error = none;
  operation_type = some sample;
  operation_args = none;
  event = false;
}

abbrev pub futures : Futures.Env ℕ (FutureRecord ℕ)
futures = record { enabled = true; dumps = λ r. some r; loads = λ t. some t }

abbrev pub server : ServerState ℕ ℕ TrainingRunRecord CheckpointRecord ℕ (FutureRecord ℕ)
server = record {
  training = controller;
  future_store = record { records = ("f", future) ∷ []; next_future_id = 2; redis = [] };
}

abbrev pub late : ℕ
late = 5

abbrev pub owning_run : TrainingRunRecord
owning_run = record run { checkpoints = ("c", earlier) ∷ [] }

abbrev pub stocked : TrainingController ℕ ℕ TrainingRunRecord CheckpointRecord
stocked = record controller {
  training_runs = ("m", owning_run) ∷ [];
  disk =
      (
        "c",
        record {
          metadata_file = metadata_json described;
          adapter_file = no_adapter;
          weights = none;
        },
      )
      ∷ [];
}

abbrev pub path_c : ParsedPath
path_c = record { training_run_id = "m"; checkpoint_type = training; checkpoint_id = "c" }

-- ===== src/Tests/Slots.antt =====
-- The theorems on configurations, LoRA targets and the slots of the FSDP backend, on concrete ones.
use tu_ft.Base.{ℕ, ◌≤◌, ◌≡◌, refl, ◌↔◌, true, false, none, some, List, [], ◌∷◌, length, All}
use tu_ft.Dict
use tu_ft.Errors.{ok, err, value_error}
use tu_ft.Config.{ModelConfig}
use tu_ft.Config.Validators.{validate}
use tu_ft.Config.Slots.{AreSlots, validate-AreSlots}
use tu_ft.Lora.{
  LoraConfig, LoraTargets, has_targets, is_listed, achievable_lora_target_sets, get_lora_targets,
}
use tu_ft.Lora.Family.{qwen, codes}
use tu_ft.Lora.Unmatched.{find_unmatched_target_modules, find_unmatched_target_parameters}
use tu_ft.Lora.Achievable.{is_listed-achievable}
use tu_ft.Fsdp.{Model, SlotPoolConfig, start, validate_lora_config}
use tu_ft.Fsdp.Startup.{start-Requestable}
use tu_ft.Fsdp.Shards.{shard_list, join, IsEven, join-shard_list}
use tu_ft.Fsdp.Pool.{
  Worker, Torch, FsdpBackend, async_init, prepare, boot, create_adapter, remove_adapter,
  idle_backend, has_rank,
}
use tu_ft.Fsdp.Pool.Created.{Answer}
use tu_ft.Fsdp.Pool.Reached.{
  Reach, started, create, remove, IsHeld, Reach-IsHeld, create_adapter-Answer,
}
use tu_ft.Fsdp.Pool.Ready.{IsBootable, create_adapter-Ready}
use tu_ft.Tests.Bench.{model}

abbrev family : Model
family = (some qwen, none)

abbrev fsdp_model : ModelConfig
fsdp_model = record model {
  is_fsdp = true;
  fsdp_rank_slots = some ((16, 1) ∷ []);
  fsdp_train_mlp = false;
}

abbrev attention : LoraTargets
attention = record { modules = "q_proj" ∷ "k_proj" ∷ "v_proj" ∷ "o_proj" ∷ []; parameters = [] }

abbrev mlp : LoraTargets
mlp = record { modules = "gate_proj" ∷ "up_proj" ∷ "down_proj" ∷ []; parameters = [] }

abbrev all_modules : LoraTargets
all_modules = record {
  modules = "q_proj" ∷ "k_proj" ∷ "v_proj" ∷ "o_proj" ∷ "gate_proj" ∷ "up_proj" ∷ "down_proj" ∷ [];
  parameters = [];
}

abbrev pool : SlotPoolConfig
pool = record { rank_slots = (16, 1) ∷ []; lora_alpha_ratio = 2; targets = attention }

abbrev attention_only : LoraConfig
attention_only = record { rank = 16; train_attn = true; train_mlp = false; train_unembed = false }

abbrev torch : Torch ℕ ℕ
torch = record {
  module_names =
      codes "layers.0.self_attn.q_proj"
      ∷ codes "layers.0.self_attn.k_proj"
      ∷ codes "layers.0.self_attn.v_proj"
      ∷ codes "layers.0.self_attn.o_proj"
      ∷ [];
  parameter_names = [];
  new_weights = λ name. 1;
  reinit_adapter_weights = λ name w. 0;
  adam = λ w. w;
  use_ray = true;
  start_actors = ok tt;
}

abbrev worker : Worker ℕ ℕ ℕ
worker = record {
  adapters =
      (
        "adapter_r16_0",
        record {
          rank = 16;
          lora_alpha = 32;
          targets = attention;
          optimizer = some 1;
          step_count = 0;
          weights = 1;
          grad = none;
        },
      )
      ∷ [];
  adapters_by_rank = (16, "adapter_r16_0" ∷ []) ∷ [];
  allocated = ("adapter_r16_0", false) ∷ [];
}

abbrev idle : FsdpBackend ℕ ℕ ℕ
idle = record { workers = []; lora_id_to_adapter_name = []; adapter_name_to_lora_id = [] }

family_achievable :
    achievable_lora_target_sets family false ≡ some (all_modules ∷ attention ∷ mlp ∷ [])
unfolding achievable_lora_target_sets
family_achievable = refl

pool_started : start family fsdp_model ≡ ok pool
unfolding start
pool_started = refl

model_valid : validate fsdp_model ≡ ok fsdp_model
unfolding validate
model_valid = refl

worker_built : boot torch 2 pool ≡ ok worker
unfolding boot codes Dict.put
worker_built = refl

pool-IsBootable : IsBootable torch 2 attention
unfolding find_unmatched_target_modules find_unmatched_target_parameters prepare codes
pool-IsBootable = (refl, (refl, refl))

request_valid : validate_lora_config family fsdp_model pool attention_only ≡ ok tt
unfolding validate_lora_config
request_valid = refl

idle_started : Reach {G = ℕ} torch family fsdp_model pool 2 idle
unfolding idle_backend
idle_started = started

is_listed_example : (is_listed attention (all_modules ∷ attention ∷ mlp ∷ []) ≡ true) ↔ (
    (has_targets attention ≡ true)
    × ((c : LoraConfig) × (get_lora_targets family c false ≡ some attention)))
is_listed_example =
    is_listed-achievable qwen none false attention (all_modules ∷ attention ∷ mlp ∷ [])
      family_achievable

start-Requestable_example :
    (l : LoraConfig) × ((l.rank ≡ 16) × (validate_lora_config family fsdp_model pool l ≡ ok tt))
start-Requestable_example = start-Requestable qwen none fsdp_model pool 16 pool_started

join-shard_list_example :
    (shard_list {A = ℕ} (1 ∷ 2 ∷ 3 ∷ []) 0 ≡ err (value_error "n_shards must be > 0"))
    × ((shards : List (List ℕ)) × ((shard_list (1 ∷ 2 ∷ 3 ∷ []) 2 ≡ ok shards)
          × ((length shards ≡ 2) × ((join shards ≡ 1 ∷ 2 ∷ 3 ∷ []) × All (IsEven 1) shards))))
join-shard_list_example = join-shard_list (1 ∷ 2 ∷ 3 ∷ []) 1

Reach-IsHeld_example : IsHeld (
    remove_adapter torch "a"
      (create_adapter torch family fsdp_model pool 2 "a" attention_only idle).0)
unfolding Dict.get
Reach-IsHeld_example =
    Reach-IsHeld torch family fsdp_model pool 2
      (remove_adapter torch "a"
        (create_adapter torch family fsdp_model pool 2 "a" attention_only idle).0)
      (remove (create_adapter torch family fsdp_model pool 2 "a" attention_only idle).0 "a"
        (create idle "a" attention_only refl idle_started))

create_adapter-Answer_example :
    Answer
      ((16, "adapter_r16_0" ∷ []) ∷ [])
      16
      "a"
      (async_init torch 2 pool idle).0
      (create_adapter torch family fsdp_model pool 2 "a" attention_only idle)
unfolding has_rank
create_adapter-Answer_example =
    create_adapter-Answer torch family fsdp_model pool 2 idle worker "a" attention_only idle_started
      worker_built request_valid refl

create_adapter-Ready_example :
    (l : LoraConfig) × ((l.rank ≡ 16)
      × ((create_adapter {G = ℕ} torch family fsdp_model pool 2 "a" l idle_backend).1 ≡ ok tt))
create_adapter-Ready_example =
    create_adapter-Ready ℕ torch qwen none fsdp_model fsdp_model pool 2 "a" model_valid refl
      pool_started pool-IsBootable

validate-AreSlots_example : (1 ≤ 16) × ((1 ≤ 2) × AreSlots (some ((16, 1) ∷ [])) true 16)
validate-AreSlots_example = validate-AreSlots fsdp_model fsdp_model model_valid

-- ===== src/Fsdp/Pool.antt =====
-- src/tuft/backends/fsdp_training_backend.py: the workers of a backend, and the runs that hold their
-- slots. The lead worker is the first of the list; a backend in one process has one worker.
pub mod Initial
pub mod Synced
pub mod Reached
pub mod Created
pub mod Ready
use tu_ft.Base.{
  ℕ, zero, suc, max, String, Bool, true, false, Option, none, some, List, [], ◌∷◌, map, ◌==◌,
  if◌then◌else◌,
}
use tu_ft.Dict
use tu_ft.Dict.{Dict}
use tu_ft.Errors.{Error, Result, ok, err, value_error, invalid_request, resource_exhausted}
use tu_ft.Config.{ModelConfig}
use tu_ft.Lora.{LoraConfig}
use tu_ft.Fsdp.{Model, SlotPoolConfig, validate_lora_config}
pub use tu_ft.Fsdp.Worker.{AdapterInfo, Worker, Torch}
unfoldable pub use tu_ft.Fsdp.Worker.{
  names_at, append_name, add_name, has_rank, is_allocated, first_free, adapter_name, fresh_info,
  reset_adapter_slot, take_slot, allocate_slot, reserve_slot, release_slot, add_slot, add_slots,
  add_ranks, with_optimizer, first_optimizer, build_slots, initialize,
}

pub record FsdpBackend (W O G : Type 0) : Type 0 where
  pub workers : List (Worker W O G)
  pub lora_id_to_adapter_name : Dict String
  pub adapter_name_to_lora_id : Dict String

-- What `async_init` does before a worker builds its slots.
unfoldable pub prepare : {W O : Type 0} → Torch W O → (num_gpus : ℕ) → Result (Unit {0})
prepare torch num_gpus =
    if torch.use_ray
    then torch.start_actors
    else (if max 1 num_gpus == 1
        then ok tt
        else err (value_error "TUFT_FSDP_NO_RAY=1 (no Ray) requires fsdp_num_gpus=1"))

module _ {W O G : Type 0} (torch : Torch W O) where
  unfoldable pub replicate : ℕ → Worker W O G → List (Worker W O G)
  replicate zero w = []
  replicate (suc n) w = w ∷ replicate n w

  unfoldable pub boot : (num_gpus : ℕ) → SlotPoolConfig → Result (Worker W O G)
  unfolding prepare initialize
  boot num_gpus slots = elim (prepare torch num_gpus) [
    | err e ↦ err e
    | ok u ↦ initialize torch slots
  ]

  -- async_init: every worker builds the same slots, and none is kept where one raises.
  unfoldable pub async_init :
      (num_gpus : ℕ) → SlotPoolConfig → FsdpBackend W O G → FsdpBackend W O G × Result (Unit {0})
  unfolding boot replicate
  async_init num_gpus slots b = elim b.workers [
    | w ∷ rest ↦ (b, ok tt)
    | [] ↦ elim (boot num_gpus slots) [
      | err e ↦ (b, err e)
      | ok w ↦ (record b { workers = replicate (max 1 num_gpus) w }, ok tt)
    ]
  ]

  -- What `create_adapter` does with the answer of the lead worker.
  unfoldable pub link_slot :
      (lora_id : String)
      → Worker W O G × Option String
      → List (Worker W O G)
      → FsdpBackend W O G
      → FsdpBackend W O G × Result (Unit {0})
  unfolding reserve_slot
  link_slot lora_id (lead, none) others b = (
    record b { workers = lead ∷ others },
    err (resource_exhausted "All preallocated FSDP LoRA slots are in use"),
  )
  link_slot lora_id (lead, some name) others b = (
    record {
      workers = lead ∷ map (reserve_slot torch name) others;
      lora_id_to_adapter_name = Dict.put b.lora_id_to_adapter_name lora_id name;
      adapter_name_to_lora_id = Dict.put b.adapter_name_to_lora_id name lora_id;
    },
    ok tt,
  )

  -- The rest of `create_adapter`, with the workers there.
  unfoldable pub hold_slot :
      (lora_id : String) → (rank : ℕ) → FsdpBackend W O G → FsdpBackend W O G × Result (Unit {0})
  unfolding allocate_slot link_slot
  hold_slot lora_id rank b = elim b.workers [
    | [] ↦ (b, err (value_error "FSDPTrainingBackend not initialized."))
    | lead ∷ others ↦ link_slot lora_id (allocate_slot torch rank lead) others b
  ]

  -- create_adapter
  unfoldable pub create_adapter :
      Model
      → ModelConfig
      → SlotPoolConfig
      → (num_gpus : ℕ) → (lora_id : String) → LoraConfig
      → FsdpBackend W O G
      → FsdpBackend W O G × Result (Unit {0})
  unfolding validate_lora_config has_rank async_init hold_slot
  create_adapter model c slots num_gpus lora_id l b = elim (validate_lora_config model c slots l) [
    | err e ↦ (b, err e)
    | ok u ↦
        if has_rank slots.rank_slots l.rank
        then (let started = async_init num_gpus slots b in
            elim started.1 [
              | err e ↦ (started.0, err e)
              | ok v ↦ hold_slot lora_id l.rank started.0
            ])
        else (b, err (invalid_request "FSDP LoRA rank is not configured"))
  ]

  -- remove_adapter; the name of an adapter is not empty
  unfoldable pub remove_adapter : (lora_id : String) → FsdpBackend W O G → FsdpBackend W O G
  unfolding release_slot
  remove_adapter lora_id b = elim (Dict.get b.lora_id_to_adapter_name lora_id) [
    | none ↦ b
    | some name ↦ record {
      workers = map (release_slot torch name) b.workers;
      lora_id_to_adapter_name = Dict.pop b.lora_id_to_adapter_name lora_id;
      adapter_name_to_lora_id = Dict.pop b.adapter_name_to_lora_id name;
    }
  ]

-- The backend as it is constructed, and as `shutdown` leaves it.
unfoldable pub idle_backend : {W O G : Type 0} → FsdpBackend W O G
idle_backend = record { workers = []; lora_id_to_adapter_name = []; adapter_name_to_lora_id = [] }

-- _get_adapter_name
unfoldable pub get_adapter_name :
    {W O G : Type 0} → (lora_id : String) → FsdpBackend W O G → Result String
get_adapter_name lora_id b = elim (Dict.get b.lora_id_to_adapter_name lora_id) [
  | none ↦ err (value_error "Unknown lora_id")
  | some name ↦ ok name
]

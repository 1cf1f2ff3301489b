-- ===== src/Fsdp/Worker.antt =====
-- src/tuft/backends/fsdp_training_backend.py: the slots of a worker.
-- `W`, `O` and `G` are torch's weights, optimizer and gradients of one adapter.
use tu_ft.Base.{
  ℕ, zero, suc, String, Bool, true, false, Option, none, some, List, [], ◌∷◌, ◌==◌, if◌then◌else◌,
}
use Prim.Native.String.{◌++◌}
use tu_ft.Dict
use tu_ft.Dict.{Dict}
use tu_ft.Text.{decimal}
use tu_ft.Errors.{Result, ok, err, value_error}
use tu_ft.Config.{compute_lora_alpha}
use tu_ft.Lora.{LoraTargets}
use tu_ft.Lora.Unmatched.{find_unmatched_target_modules, find_unmatched_target_parameters}
use tu_ft.Fsdp.{SlotPoolConfig}

-- AdapterInfo, with the tensors of the adapter
pub record AdapterInfo (W O G : Type 0) : Type 0 where
  pub rank : ℕ
  pub lora_alpha : ℕ
  pub targets : LoraTargets
  pub optimizer : Option O
  pub step_count : ℕ
  pub weights : W
  pub grad : Option G

pub record Worker (W O G : Type 0) : Type 0 where
  pub adapters : Dict (AdapterInfo W O G)
  pub adapters_by_rank : List (ℕ × List String)
  pub allocated : Dict Bool

-- What torch, PEFT and Ray do: the names in the base model, as code points, the weights of a new
-- adapter and of one that is initialized again, whether Ray is used, and what it gives or raises
-- when it starts the processes and connects them.
pub record Torch (W O : Type 0) : Type 0 where
  pub module_names : List (List ℕ)
  pub parameter_names : List (List ℕ)
  pub new_weights : String → W
  pub reinit_adapter_weights : String → W → W
  pub adam : W → O
  pub use_ray : Bool
  pub start_actors : Result (Unit {0})

-- Dicts by rank: `d.get(rank, [])`, `d.setdefault(rank, []).append(name)`, and `rank in d`.
unfoldable pub names_at : List (ℕ × List String) → ℕ → List String
names_at [] rank = []
names_at ((r, names) ∷ rest) rank = if r == rank then names else names_at rest rank

unfoldable pub append_name : List String → String → List String
append_name [] name = name ∷ []
append_name (n ∷ names) name = n ∷ append_name names name

unfoldable pub add_name : List (ℕ × List String) → ℕ → String → List (ℕ × List String)
unfolding append_name
add_name [] rank name = (rank, name ∷ []) ∷ []
add_name ((r, names) ∷ rest) rank name =
    if r == rank then (r, append_name names name) ∷ rest else (r, names) ∷ add_name rest rank name

unfoldable pub has_rank : List (ℕ × ℕ) → ℕ → Bool
has_rank [] rank = false
has_rank ((r, count) ∷ rest) rank = if r == rank then true else has_rank rest rank

-- `_allocated.get(name, False)`
unfoldable pub is_allocated : Dict Bool → String → Bool
is_allocated d name = elim (Dict.get d name) [ none ↦ false | some b ↦ b ]

-- The loop of `allocate_slot`, up to the first name that is not allocated.
unfoldable pub first_free : Dict Bool → List String → Option String
unfolding is_allocated
first_free allocated [] = none
first_free allocated (name ∷ names) =
    if is_allocated allocated name then first_free allocated names else some name

-- _generate_adapter_name, for the count of its rank
unfoldable pub adapter_name : (rank idx : ℕ) → String
unfolding decimal
adapter_name rank idx = "adapter_r" ++ decimal (suc rank) rank ++ "_" ++ decimal (suc idx) idx

module _ {W O G : Type 0} (torch : Torch W O) where
  -- _reset_adapter_slot, on the adapter
  unfoldable pub fresh_info : String → AdapterInfo W O G → AdapterInfo W O G
  fresh_info name i = record i {
    optimizer = none;
    step_count = 0;
    weights = torch.reinit_adapter_weights name i.weights;
    grad = none;
  }

  -- _reset_adapter_slot
  unfoldable pub reset_adapter_slot : String → Worker W O G → Worker W O G
  unfolding fresh_info
  reset_adapter_slot name w = elim (Dict.get w.adapters name) [
    | none ↦ w
    | some i ↦ record w { adapters = Dict.put w.adapters name (fresh_info name i) }
  ]

  -- What is done to the slot that is found, and by `reserve_slot` to a slot that exists.
  unfoldable pub take_slot : String → Worker W O G → Worker W O G
  unfolding reset_adapter_slot
  take_slot name w =
      reset_adapter_slot name (record w { allocated = Dict.put w.allocated name true })

  -- allocate_slot
  unfoldable pub allocate_slot : (rank : ℕ) → Worker W O G → Worker W O G × Option String
  unfolding first_free names_at take_slot
  allocate_slot rank w = elim (first_free w.allocated (names_at w.adapters_by_rank rank)) [
    | none ↦ (w, none)
    | some name ↦ (take_slot name w, some name)
  ]

  -- reserve_slot
  unfoldable pub reserve_slot : String → Worker W O G → Worker W O G
  unfolding take_slot
  reserve_slot name w = if Dict.has w.adapters name then take_slot name w else w

  -- release_slot
  unfoldable pub release_slot : String → Worker W O G → Worker W O G
  unfolding reset_adapter_slot
  release_slot name w =
      let reset = reset_adapter_slot name w in
      record reset { allocated = Dict.pop reset.allocated name }

  -- One round of the inner loop of `initialize`: the slot `idx` of a rank.
  unfoldable pub add_slot : SlotPoolConfig → (rank idx : ℕ) → Worker W O G → Worker W O G
  unfolding adapter_name add_name compute_lora_alpha
  add_slot slots rank idx w =
      let name = adapter_name rank idx in
      record w {
        adapters = Dict.put w.adapters name (record {
          rank = rank;
          lora_alpha = compute_lora_alpha rank slots.lora_alpha_ratio;
          targets = slots.targets;
          optimizer = none;
          step_count = 0;
          weights = torch.new_weights name;
          grad = none;
        });
        adapters_by_rank = add_name w.adapters_by_rank rank name;
        allocated = Dict.put w.allocated name false;
      }

  -- The inner loop, with `count` rounds left, and the outer loop. Ranks are the keys of a dict, so
  -- the counter of a rank starts at 0.
  unfoldable pub add_slots : SlotPoolConfig → (rank count idx : ℕ) → Worker W O G → Worker W O G
  unfolding add_slot
  add_slots slots rank zero idx w = w
  add_slots slots rank (suc count) idx w =
      add_slots slots rank count (suc idx) (add_slot slots rank idx w)

  unfoldable pub add_ranks : SlotPoolConfig → List (ℕ × ℕ) → Worker W O G → Worker W O G
  unfolding add_slots
  add_ranks slots [] w = w
  add_ranks slots ((rank, count) ∷ rest) w = add_ranks slots rest (add_slots slots rank count 0 w)

  -- _create_optimizer_for_adapter, on the first adapter
  unfoldable pub with_optimizer : Dict (AdapterInfo W O G) → Dict (AdapterInfo W O G)
  with_optimizer [] = []
  with_optimizer ((name, i) ∷ rest) =
      (name, record i { optimizer = some (torch.adam i.weights) }) ∷ rest

  unfoldable pub first_optimizer : Worker W O G → Worker W O G
  unfolding with_optimizer
  first_optimizer w = record w { adapters = with_optimizer w.adapters }

  -- The loops of `initialize` and what follows them, where torch and PEFT accept the model. What is
  -- raised for no slots is a RuntimeError.
  unfoldable pub build_slots : SlotPoolConfig → Result (Worker W O G)
  unfolding add_ranks first_optimizer
  build_slots slots =
      let w =
        add_ranks slots slots.rank_slots
          (record { adapters = []; adapters_by_rank = []; allocated = [] }) in
      elim w.adapters [
        | [] ↦ err (value_error "slot_config.rank_slots must define at least one slot")
        | i ∷ rest ↦ ok (first_optimizer w)
      ]

  -- initialize
  unfoldable pub initialize : SlotPoolConfig → Result (Worker W O G)
  unfolding find_unmatched_target_modules find_unmatched_target_parameters build_slots
  initialize slots = elim (find_unmatched_target_modules torch.module_names slots.targets.modules) [
    | name ∷ names ↦ err (value_error "FSDP LoRA target modules match no module in base model")
    | [] ↦ elim (find_unmatched_target_parameters torch.parameter_names slots.targets.parameters) [
      | name ∷ names ↦
          err (value_error "FSDP LoRA target parameters match no parameter in base model")
      | [] ↦ build_slots slots
    ]
  ]

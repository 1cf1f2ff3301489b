-- ===== src/Fsdp/Startup.antt =====
-- A backend that starts has slots that some client can ask for.
use tu_ft.Base.{
  ℕ, String, ◌≡◌, refl, true, false, ◌||◌, Option, none, some, List, [], ◌∷◌, arith, eq_iff, inl,
  inr, Bool-cases, is_some,
}
use tu_ft.Errors.{ok}
use tu_ft.Dict.{elem}
use tu_ft.Names.{all_in, same_set}
use tu_ft.Config.{ModelConfig}
use tu_ft.Lora.{
  LoraConfig, LoraTargets, is_listed, achievable_lora_target_sets, get_lora_targets,
  resolve_lora_targets,
}
use tu_ft.Lora.Family.{Series, Architecture}
use tu_ft.Lora.Achievable.{is_listed-achievable, same_targets_self}
use tu_ft.Fsdp.{
  Model, get_target_geometry_from_config, resolve_config, same_geometry, any_same,
  validate_explicit_target_modules, SlotPoolConfig, start, validate_lora_config,
}

all_in_cons : (xs ys : List String) (y : String) → all_in xs ys ≡ true → all_in xs (y ∷ ys) ≡ true
unfolding all_in elem
all_in_cons [] ys y h = refl
all_in_cons (x ∷ xs) ys y h = ground (arith, all_in_cons xs ys y)

pub all_in_self : (xs : List String) → all_in xs xs ≡ true
unfolding all_in elem
all_in_self [] = refl
all_in_self (x ∷ xs) = ground (arith, eq_iff x x, all_in_cons xs xs x, all_in_self xs)

same_geometry_self : (t : LoraTargets) → same_geometry t t ≡ true
unfolding same_geometry same_set
same_geometry_self t = ground (arith, all_in_self t.modules, all_in_self t.parameters)

same_geometry_sym : (t u : LoraTargets) → same_geometry t u ≡ true → same_geometry u t ≡ true
unfolding same_geometry same_set
same_geometry_sym t u h = ground arith

any_same-listed :
    (t : LoraTargets) (us : List LoraTargets)
    → any_same t us ≡ true
    → (u : LoraTargets) × ((is_listed u us ≡ true) × (same_geometry u t ≡ true))
unfolding any_same is_listed
any_same-listed t [] h = ground arith
any_same-listed t (u ∷ us) h = elim (Bool-cases (same_geometry t u)) [
  | inl e ↦ (u, (ground (arith, same_targets_self u), same_geometry_sym t u e))
  | inr e ↦ let r = any_same-listed t us (ground arith) in (r.0, (ground (arith, r.1.0), r.1.1))
]

-- A request that resolves to a geometry of the slots passes.
passes :
    (model : Model) (c : ModelConfig) (slots : SlotPoolConfig) (l : LoraConfig) (u : LoraTargets)
    → get_lora_targets model l c.qwen_gated_deltanet_full_lora ≡ some u
    → same_geometry u slots.targets ≡ true
    → validate_lora_config model c slots l ≡ ok tt
unfolding validate_lora_config
passes model c slots l u g s = ground arith

start_parts :
    (model : Model) (c : ModelConfig) (slots : SlotPoolConfig)
    → start model c ≡ ok slots
    → (get_target_geometry_from_config model c ≡ ok slots.targets)
      × (validate_explicit_target_modules model c ≡ ok tt)
unfolding start
start_parts model c slots h = ground arith

-- With no side explicit, the slots are what the flags of the configuration resolve to.
geometry_resolved :
    (series : Series) (architecture : Option Architecture) (c : ModelConfig) (t : LoraTargets)
    → c.fsdp_qv_only ≡ false
    → c.fsdp_target_modules ≡ none
    → c.fsdp_target_parameters ≡ none
    → get_target_geometry_from_config (some series, architecture) c ≡ ok t
    → resolve_config (some series, architecture) c ≡ some t
unfolding get_target_geometry_from_config resolve_config resolve_lora_targets
geometry_resolved series architecture c t q m p h = ground arith

-- With an explicit side, they are among the achievable sets.
explicit_any_same :
    (model : Model) (c : ModelConfig) (t : LoraTargets) (listed : List LoraTargets)
    → c.fsdp_qv_only ≡ false
    → (is_some c.fsdp_target_modules || is_some c.fsdp_target_parameters) ≡ true
    → achievable_lora_target_sets model c.qwen_gated_deltanet_full_lora ≡ some listed
    → get_target_geometry_from_config model c ≡ ok t
    → validate_explicit_target_modules model c ≡ ok tt
    → any_same t listed ≡ true
unfolding validate_explicit_target_modules
explicit_any_same model c t listed q x a g v = ground arith

abbrev Requestable : Model → ModelConfig → SlotPoolConfig → ℕ → Type 0
Requestable model c slots rank =
    (l : LoraConfig) × ((l.rank ≡ rank) × (validate_lora_config model c slots l ≡ ok tt))

-- The slots fit what some flags resolve to.
fits-Requestable :
    (model : Model) (c : ModelConfig) (slots : SlotPoolConfig) (rank : ℕ) (l : LoraConfig)
    (u : LoraTargets)
    → get_lora_targets model l c.qwen_gated_deltanet_full_lora ≡ some u
    → same_geometry u slots.targets ≡ true
    → Requestable model c slots rank
unfolding get_lora_targets
fits-Requestable model c slots rank l u g s =
    (record l { rank = rank }, (refl, passes model c slots (record l { rank = rank }) u g s))

explicit-Requestable :
    (series : Series) (architecture : Option Architecture) (c : ModelConfig)
    (slots : SlotPoolConfig) (rank : ℕ)
    → (listed : List LoraTargets)
    → achievable_lora_target_sets (some series, architecture) c.qwen_gated_deltanet_full_lora
      ≡ some listed
    → any_same slots.targets listed ≡ true
    → Requestable (some series, architecture) c slots rank
explicit-Requestable series architecture c slots rank listed a s =
    let u = any_same-listed slots.targets listed s in
    let l =
      (is_listed-achievable series architecture c.qwen_gated_deltanet_full_lora u.0 listed a).0
        u.1.0 in
    fits-Requestable (some series, architecture) c slots rank l.1.0 u.0 l.1.1 u.1.1

-- A backend that starts for a known family of models has slots that the request of some client
-- flags fits, whatever the rank.
pub start-Requestable :
    (series : Series) (architecture : Option Architecture) (c : ModelConfig)
    (slots : SlotPoolConfig) (rank : ℕ)
    → start (some series, architecture) c ≡ ok slots
    → (l : LoraConfig) × ((l.rank ≡ rank)
        × (validate_lora_config (some series, architecture) c slots l ≡ ok tt))
unfolding validate_lora_config achievable_lora_target_sets resolve_config
start-Requestable series architecture c slots rank h =
    let model : Model = (some series, architecture) in
    let parts = start_parts model c slots h in
    let flags : LoraConfig = record {
      rank = rank;
      train_attn = c.fsdp_train_attn;
      train_mlp = c.fsdp_train_mlp;
      train_unembed = c.fsdp_train_unembed;
    } in
    elim (Bool-cases c.fsdp_qv_only) [
      | inl q ↦ (flags, (refl, ground arith))
      | inr q ↦
          elim (Bool-cases (is_some c.fsdp_target_modules || is_some c.fsdp_target_parameters)) [
            | inl x ↦
                explicit-Requestable series architecture c slots rank _ refl
                  (explicit_any_same model c slots.targets _ q x refl parts.0 parts.1)
            | inr x ↦
                fits-Requestable model c slots rank flags slots.targets
                  (geometry_resolved series architecture c slots.targets q (ground arith)
                    (ground arith) parts.0)
                  (same_geometry_self slots.targets)
          ]
    ]

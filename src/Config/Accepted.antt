-- ===== src/Config/Accepted.antt =====
-- What the validators leave of a configuration that they accept.
use tu_ft.Base.{
  ℕ, ◌≤◌, String, ◌≡◌, refl, sym, ◌∙◌, ap, subst, Bool, Option, none, some, List, arith,
  Option-cases, inl, inr,
}
use tu_ft.Errors.{Result, ok, err}
use tu_ft.Config.{ModelConfig}
use tu_ft.Config.Validators.{
  and_then, validate_capabilities, validate_colocate, validate_fsdp_rank_slots, check_rank_slots,
  validate_fsdp_target_modules, validate_lora_alpha_ratio, validate_tool_calling, validate,
}

and_then-ok :
    (r : Result ModelConfig) (f : ModelConfig → Result ModelConfig) (d : ModelConfig)
    → and_then r f ≡ ok d
    → (c : ModelConfig) × ((r ≡ ok c) × (f c ≡ ok d))
and_then-ok (err e) f d h = ground arith
and_then-ok (ok c) f d h = (c, (refl, h))

-- What is checked of the slots, on the fields that it reads.
abbrev pub slots_check : Option (List (ℕ × ℕ)) → Bool → ℕ → Option String
slots_check none is_fsdp max_lora_rank = none
slots_check (some slots) is_fsdp max_lora_rank = check_rank_slots is_fsdp max_lora_rank slots

abbrev pub HasSlots : ModelConfig → Type 0
HasSlots d =
    (1 ≤ d.max_lora_rank) × (slots_check d.fsdp_rank_slots d.is_fsdp d.max_lora_rank ≡ none)

rank_slots_same : (c d : ModelConfig) → validate_fsdp_rank_slots c ≡ ok d → c ≡ d
unfolding validate_fsdp_rank_slots
rank_slots_same c d h = ground arith

rank_slots_checked : (c d : ModelConfig) → validate_fsdp_rank_slots c ≡ ok d → HasSlots c
unfolding validate_fsdp_rank_slots
rank_slots_checked c d h = (
  ground arith,
  elim (Option-cases c.fsdp_rank_slots) [
    | inl e ↦ rw e refl
    | inr (slots, e) ↦ rw e (ground arith)
  ],
)

-- The validator of the targets changes no field that the slots are checked against.
targets_fields :
    (c d : ModelConfig)
    → validate_fsdp_target_modules c ≡ ok d
    → (c.max_lora_rank ≡ d.max_lora_rank)
      × ((c.fsdp_rank_slots ≡ d.fsdp_rank_slots) × (c.is_fsdp ≡ d.is_fsdp))
unfolding validate_fsdp_target_modules
targets_fields c d h = (ground arith, (ground arith, ground arith))

targets_accepted :
    (c d : ModelConfig) → validate_fsdp_target_modules c ≡ ok d → HasSlots c → HasSlots d
targets_accepted c d h s =
    let e = targets_fields c d h in
    (
      subst (λ n. 1 ≤ n) e.0 s.0,
      ap (λ n. slots_check d.fsdp_rank_slots d.is_fsdp n) (sym e.0)
          ∙ ap (λ b. slots_check d.fsdp_rank_slots b c.max_lora_rank) (sym e.1.1)
          ∙ ap (λ o. slots_check o c.is_fsdp c.max_lora_rank) (sym e.1.0)
          ∙ s.1,
    )

ratio_accepted :
    (c d : ModelConfig) → validate_lora_alpha_ratio c ≡ ok d → (c ≡ d) × (1 ≤ d.lora_alpha_ratio)
unfolding validate_lora_alpha_ratio
ratio_accepted c d h = ground arith

tools_accepted : (c d : ModelConfig) → validate_tool_calling c ≡ ok d → c ≡ d
unfolding validate_tool_calling
tools_accepted c d h = ground arith

-- An accepted configuration has a positive maximal rank and a positive ratio, and its slots, if it
-- gives any, have passed every check.
pub validate-HasSlots :
    (c d : ModelConfig) → validate c ≡ ok d → HasSlots d × (1 ≤ d.lora_alpha_ratio)
unfolding validate
validate-HasSlots c d h =
    let (c1, (e1, h1)) = and_then-ok (validate_capabilities c) _ d h in
    let (c2, (e2, h2)) = and_then-ok (validate_colocate c1) _ d h1 in
    let (c3, (e3, h3)) = and_then-ok (validate_fsdp_rank_slots c2) _ d h2 in
    let (c4, (e4, h4)) = and_then-ok (validate_fsdp_target_modules c3) _ d h3 in
    let (c5, (e5, h5)) = and_then-ok (validate_lora_alpha_ratio c4) _ d h4 in
    let slots = subst HasSlots (rank_slots_same c2 c3 e3) (rank_slots_checked c2 c3 e3) in
    let ratio = ratio_accepted c4 c5 e5 in
    subst (λ x. HasSlots x × (1 ≤ x.lora_alpha_ratio)) (tools_accepted c5 d h5)
      (subst HasSlots ratio.0 (targets_accepted c3 c4 e4 slots), ratio.1)

-- ===== src/Fsdp/Pool/Ready.antt =====
-- A validated configuration on which the backend starts can serve: its workers build slots, and a
-- first request is given one.
use tu_ft.Base.{
  ℕ, zero, suc, String, ◌≡◌, refl, sym, ◌∙◌, ap, subst, Bool, true, false, Option, none, some, List,
  [], ◌∷◌, arith, eq_iff, ltb, ◌==◌, is_some, Option-cases, Bool-cases, inl, inr,
}
use tu_ft.Dict
use tu_ft.Dict.{Dict, elem}
use tu_ft.Errors.{ok}
use tu_ft.Config.{ModelConfig}
use tu_ft.Config.Validators.{validate, any_rank, any_count, check_rank_slots}
use tu_ft.Config.Accepted.{HasSlots, validate-HasSlots, slots_check}
use tu_ft.Lora.{LoraConfig, LoraTargets}
use tu_ft.Lora.Unmatched.{find_unmatched_target_modules, find_unmatched_target_parameters}
use tu_ft.Lora.Family.{Series, Architecture}
use tu_ft.Fsdp.{Model, SlotPoolConfig, start, get_rank_slots_from_config, default_rank_slots}
use tu_ft.Fsdp.Startup.{start-Requestable}
use tu_ft.Fsdp.Pool.{
  Worker, Torch, names_at, add_name, adapter_name, add_slot, add_slots, add_ranks, first_optimizer,
  build_slots, initialize, prepare, boot, has_rank, create_adapter, idle_backend,
}
use tu_ft.Fsdp.Pool.Initial.{elem-append_name, add_ranks-IsUnused, nothing-IsUnused}
use tu_ft.Fsdp.Pool.Reached.{started, async_init_ids, create_adapter-Answer}
use tu_ft.Fsdp.Pool.Created.{List-cases}

elem-names_at_new :
    (d : List (ℕ × List String)) (r : ℕ) (name : String)
    → elem (names_at (add_name d r name) r) name ≡ true
unfolding add_name names_at elem
elem-names_at_new [] r name = ground (arith, eq_iff name name)
elem-names_at_new ((s, names) ∷ d) r name =
    ground (arith, eq_iff name name, elem-append_name names name name, elem-names_at_new d r name)

elem-names_at_old :
    (d : List (ℕ × List String)) (r : ℕ) (name : String) (q : ℕ) (n : String)
    → elem (names_at d q) n ≡ true
    → elem (names_at (add_name d r name) q) n ≡ true
unfolding add_name names_at elem
elem-names_at_old [] r name q n h = ground arith
elem-names_at_old ((s, names) ∷ d) r name q n h =
    ground (arith, elem-append_name names name n, elem-names_at_old d r name q n)

-- A rank has a slot.
abbrev HasSlot : {W O G : Type 0} → ℕ → Worker W O G → Type 0
HasSlot rank w = (name : String) × (elem (names_at w.adapters_by_rank rank) name ≡ true)

module _ {W O G : Type 0} (torch : Torch W O) where
  add_slots-HasSlot :
      (slots : SlotPoolConfig) (r count idx : ℕ) (w : Worker W O G) (rank : ℕ)
      → HasSlot rank w
      → HasSlot rank (add_slots torch slots r count idx w)
  unfolding add_slots add_slot
  add_slots-HasSlot slots r zero idx w rank h = h
  add_slots-HasSlot slots r (suc count) idx w rank h =
      add_slots-HasSlot slots r count (suc idx) (add_slot torch slots r idx w) rank
        (h.0, elem-names_at_old w.adapters_by_rank r (adapter_name r idx) rank h.0 h.1)

  add_slots_new :
      (slots : SlotPoolConfig) (r count : ℕ) (w : Worker W O G)
      → ltb count 1 ≡ false
      → HasSlot r (add_slots torch slots r count 0 w)
  unfolding add_slots add_slot
  add_slots_new slots r zero w h = ground arith
  add_slots_new slots r (suc count) w h =
      add_slots-HasSlot slots r count 1 (add_slot torch slots r 0 w) r
        (adapter_name r 0, elem-names_at_new w.adapters_by_rank r (adapter_name r 0))

  add_ranks-HasSlot :
      (slots : SlotPoolConfig) (ranks : List (ℕ × ℕ)) (w : Worker W O G) (rank : ℕ)
      → HasSlot rank w
      → HasSlot rank (add_ranks torch slots ranks w)
  unfolding add_ranks
  add_ranks-HasSlot slots [] w rank h = h
  add_ranks-HasSlot slots ((r, count) ∷ rest) w rank h =
      add_ranks-HasSlot slots rest (add_slots torch slots r count 0 w) rank
        (add_slots-HasSlot slots r count 0 w rank h)

  add_ranks_new :
      (slots : SlotPoolConfig) (ranks : List (ℕ × ℕ)) (w : Worker W O G) (rank : ℕ)
      → has_rank ranks rank ≡ true
      → any_count (λ count. ltb count 1) ranks ≡ false
      → HasSlot rank (add_ranks torch slots ranks w)
  unfolding add_ranks has_rank any_count
  add_ranks_new slots [] w rank h c = ground arith
  add_ranks_new slots ((r, count) ∷ rest) w rank h c = elim (Bool-cases (r == rank)) [
    | inl e ↦ add_ranks-HasSlot slots rest (add_slots torch slots r count 0 w) rank (
        subst (λ q. HasSlot q (add_slots torch slots r count 0 w)) (ground (arith, e))
          (add_slots_new slots r count w (ground (arith, c))))
    | inr e ↦
        add_ranks_new slots rest (add_slots torch slots r count 0 w) rank (ground (arith, h, e))
          (ground (arith, c))
  ]

  abbrev built : SlotPoolConfig → Worker W O G
  built slots =
      add_ranks torch slots slots.rank_slots
        (record { adapters = []; adapters_by_rank = []; allocated = [] })

  build_slots-built :
      (slots : SlotPoolConfig) (name : String)
      → Dict.has (built slots).adapters name ≡ true
      → build_slots torch slots ≡ ok (first_optimizer torch (built slots))
  unfolding build_slots Dict.has
  build_slots-built slots name h = elim (List-cases (built slots).adapters) [
    | inl e ↦ absurd (no_slot name (ap (λ d. Dict.has d name) (sym e) ∙ h))
    | inr (i, (rest, e)) ↦ ground arith
  ]
    where
      no_slot : (name : String) → false ≡ true → ⊥
      no_slot name h = ground arith

  -- The workers are built if a rank has a slot, and then there is a slot of the rank.
  build_slots_ready :
      (slots : SlotPoolConfig) (rank : ℕ)
      → has_rank slots.rank_slots rank ≡ true
      → any_count (λ count. ltb count 1) slots.rank_slots ≡ false
      → (w : Worker W O G) × ((build_slots torch slots ≡ ok w) × HasSlot rank w)
  unfolding first_optimizer
  build_slots_ready slots rank h c =
      let none_yet : Worker W O G = record {
        adapters = [];
        adapters_by_rank = [];
        allocated = [];
      } in
      let s = add_ranks_new slots slots.rank_slots none_yet rank h c in
      let u = add_ranks-IsUnused torch slots slots.rank_slots none_yet (nothing-IsUnused W O G) in
      (first_optimizer torch (built slots), (build_slots-built slots s.0 (u.0 rank s.0 s.1), s))

-- Every target is in the base model, and the processes can be started.
abbrev pub IsBootable : {W O : Type 0} → Torch W O → ℕ → LoraTargets → Type 0
IsBootable torch num_gpus targets =
    (find_unmatched_target_modules torch.module_names targets.modules ≡ [])
    × ((find_unmatched_target_parameters torch.parameter_names targets.parameters ≡ [])
        × (prepare torch num_gpus ≡ ok tt))

boot-build_slots :
    {W O G : Type 0} (torch : Torch W O) (num_gpus : ℕ) (slots : SlotPoolConfig)
    → IsBootable torch num_gpus slots.targets
    → boot {G = G} torch num_gpus slots ≡ build_slots torch slots
unfolding boot initialize
boot-build_slots torch num_gpus slots h = rw (boot, h.1.1) (rw (initialize, h.0) (rw h.1.0 refl))

any_rank-has_rank :
    (slots : List (ℕ × ℕ)) (rank : ℕ)
    → any_rank (λ r. r == rank) slots ≡ true
    → has_rank slots rank ≡ true
unfolding any_rank has_rank
any_rank-has_rank [] rank h = ground arith
any_rank-has_rank ((r, count) ∷ rest) rank h = ground (arith, any_rank-has_rank rest rank)

-- The slots that are checked, or the default ones.
abbrev IsServed : List (ℕ × ℕ) → ℕ → Type 0
IsServed slots rank =
    (has_rank slots rank ≡ true) × (any_count (λ count. ltb count 1) slots ≡ false)

checked-IsServed :
    (x : ℕ × ℕ) (slots : List (ℕ × ℕ)) (rank : ℕ)
    → check_rank_slots true rank (x ∷ slots) ≡ none
    → IsServed (x ∷ slots) rank
unfolding check_rank_slots
checked-IsServed x slots rank h = (any_rank-has_rank (x ∷ slots) rank (ground arith), ground arith)

default-IsServed : (rank : ℕ) → IsServed (default_rank_slots rank) rank
unfolding default_rank_slots has_rank any_count
default-IsServed rank = ground arith

refused : (is_fsdp : Bool) (rank : ℕ) → slots_check (some []) is_fsdp rank ≡ none → ⊥
unfolding check_rank_slots
refused is_fsdp rank h = ground arith

config-IsServed :
    (d : ModelConfig)
    → HasSlots d
    → d.is_fsdp ≡ true
    → IsServed (get_rank_slots_from_config d) d.max_lora_rank
unfolding get_rank_slots_from_config check_rank_slots
config-IsServed d h f = elim (Option-cases d.fsdp_rank_slots) [
  | inl e ↦ rw (e, get_rank_slots_from_config) (default-IsServed d.max_lora_rank)
  | inr ([], e) ↦
      let z = ap (λ o. slots_check o d.is_fsdp d.max_lora_rank) (sym e) ∙ h.1 in
      absurd (refused d.is_fsdp d.max_lora_rank z)
  | inr (x ∷ slots, e) ↦
      rw (e, get_rank_slots_from_config)
        (checked-IsServed x slots d.max_lora_rank (
          ap (λ b. slots_check (some (x ∷ slots)) b d.max_lora_rank) (sym f)
          ∙ ap (λ o. slots_check o d.is_fsdp d.max_lora_rank) (sym e)
          ∙ h.1))
]

start_rank_slots :
    (model : Model) (d : ModelConfig) (slots : SlotPoolConfig)
    → start model d ≡ ok slots
    → get_rank_slots_from_config d ≡ slots.rank_slots
unfolding start
start_rank_slots model d slots h = ground arith

-- A configuration that the validators accept, for the FSDP backend and a known family of models: if
-- the backend starts with it, every target of its slots is in the base model and the processes can
-- be started, then for some client flags and the maximal rank a first request for an adapter
-- succeeds.
pub create_adapter-Ready :
    {W O : Type 0} (G : Type 0) (torch : Torch W O) (series : Series)
    (architecture : Option Architecture) (c d : ModelConfig) (slots : SlotPoolConfig) (num_gpus : ℕ)
    (id : String)
    → validate c ≡ ok d
    → d.is_fsdp ≡ true
    → start (some series, architecture) d ≡ ok slots
    → IsBootable torch num_gpus slots.targets
    → (l : LoraConfig) × ((l.rank ≡ d.max_lora_rank)
        × ((create_adapter {G = G} torch
              (some series, architecture)
              d
              slots
              num_gpus
              id
              l
              idle_backend).1
            ≡ ok tt))
unfolding idle_backend Dict.get
create_adapter-Ready G torch series architecture c d slots num_gpus id v f h bootable =
    let model : Model = (some series, architecture) in
    let (l, (k, p)) = start-Requestable series architecture d slots d.max_lora_rank h in
    let served =
      subst (λ s. IsServed s d.max_lora_rank) (start_rank_slots model d slots h)
        (config-IsServed d (validate-HasSlots c d v).0 f) in
    let (w, (i, (name, m))) =
      build_slots_ready {G = G} torch slots d.max_lora_rank served.0 served.1 in
    (
      l,
      (
        k,
        elim (create_adapter-Answer torch model d slots num_gpus idle_backend w id l started
            (boot-build_slots torch num_gpus slots bootable ∙ i) p
            (ap (has_rank slots.rank_slots) k ∙ served.0)) [
              | inl a ↦ a.0
              | inr a ↦ absurd (
                  not_held (
                    ap (λ ids. is_some (Dict.get ids name))
                      (sym (async_init_ids torch model d slots num_gpus idle_backend))
                    ∙ a.1 name
                        (subst (λ r. elem (names_at w.adapters_by_rank r) name ≡ true) (sym k) m)))
            ],
      ),
    )
  where
    not_held : false ≡ true → ⊥
    not_held h = ground arith

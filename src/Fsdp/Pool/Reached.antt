-- ===== src/Fsdp/Pool/Reached.antt =====
-- The states that the backend reaches by creating and removing adapters and by a shutdown.
use tu_ft.Base.{
  ℕ, zero, suc, max, ◌≤◌, String, ◌≡◌, refl, sym, ap, ◌∙◌, subst, Bool, true, none, List, [], ◌∷◌,
  map, All, arith, is_some, inl, inr, if-both, Option-cases,
}
use tu_ft.Dict
use tu_ft.Dict.{Dict}
use tu_ft.Errors.{Result, ok, err, Error, Result-both}
use tu_ft.Config.{ModelConfig}
use tu_ft.Lora.{LoraConfig}
use tu_ft.Fsdp.{Model, SlotPoolConfig, validate_lora_config}
use tu_ft.Fsdp.Pool.{
  Worker, Torch, FsdpBackend, is_allocated, boot, async_init, replicate, hold_slot, create_adapter,
  remove_adapter, release_slot, idle_backend, has_rank,
}
use tu_ft.Fsdp.Pool.Synced.{IsLinked, IsWorker, IsSynced, remove_adapter-IsSynced}
use tu_ft.Fsdp.Pool.Initial.{boot-IsUnused}
use tu_ft.Fsdp.Pool.Created.{
  IsKnown, hold_slot-IsSynced, hold_slot_idle, hold_slot-Answer, Answer, List-cases,
}

map-nil : {A : Type 0} (f : A → A) (xs : List A) → map f xs ≡ [] → xs ≡ []
map-nil f [] e = refl
map-nil f (x ∷ xs) e = ground arith

All-weaken :
    {A : Type 0} (P Q : A → Type 0) (xs : List A) → ((x : A) → P x → Q x) → All P xs → All Q xs
All-weaken P Q [] h a = tt
All-weaken P Q (x ∷ xs) h a = (h x a.0, All-weaken P Q xs h a.1)

-- The slots that a worker has allocated are those that `ids` has a run for.
abbrev pub Agrees : {W O G : Type 0} → Dict String → Worker W O G → Type 0
Agrees ids w = (n : String) → is_allocated w.allocated n ≡ is_some (Dict.get ids n)

abbrev pub IsHeld : {W O G : Type 0} → FsdpBackend W O G → Type 0
IsHeld b =
    IsLinked b.lora_id_to_adapter_name b.adapter_name_to_lora_id
    × All (Agrees b.adapter_name_to_lora_id) b.workers

module _ {W O G : Type 0} (torch : Torch W O) (model : Model) (c : ModelConfig)
    (slots : SlotPoolConfig) (num_gpus : ℕ) where
  -- Every run has an id of its own, a fresh uuid.
  pub data Reach : FsdpBackend W O G → Type 0 where
    started : Reach idle_backend
    create :
        (b : FsdpBackend W O G) (id : String) (l : LoraConfig)
        → Dict.get b.lora_id_to_adapter_name id ≡ none
        → Reach b
        → Reach (create_adapter torch model c slots num_gpus id l b).0
    remove : (b : FsdpBackend W O G) (id : String) → Reach b → Reach (remove_adapter torch id b)
    shutdown : (b : FsdpBackend W O G) → Reach b → Reach idle_backend

  -- The slots of the pool, if they can be built.
  abbrev by_rank : Result (Worker W O G) → List (ℕ × List String)
  by_rank (ok w) = w.adapters_by_rank
  by_rank (err e) = []

  abbrev known : Result (Worker W O G) → String → Bool
  known (ok w) n = Dict.has w.adapters n
  known (err e) n = true

  IsKnown-boot :
      (r : Result (Worker W O G)) → boot torch num_gpus slots ≡ r → IsKnown (by_rank r) (known r)
  IsKnown-boot (ok w) e = (boot-IsUnused torch num_gpus slots w e).0
  IsKnown-boot (err x) e = λ rank name h. refl

  -- The invariant of the reached states: a backend without workers holds nothing.
  abbrev Inv : FsdpBackend W O G → Type 0
  Inv b =
      let r = boot torch num_gpus slots in
      IsSynced (by_rank r) (known r) b × (b.workers ≡ [] → b.adapter_name_to_lora_id ≡ [])

  replicate-All :
      (P : Worker W O G → Type 0) (w : Worker W O G) (n : ℕ) → P w → All P (replicate torch n w)
  unfolding replicate
  replicate-All P w zero p = tt
  replicate-All P w (suc n) p = (p, replicate-All P w n p)

  replicate_nonempty : (w : Worker W O G) (n : ℕ) → 1 ≤ n → replicate torch n w ≡ [] → ⊥
  unfolding replicate
  replicate_nonempty w zero h e = omega arith
  replicate_nonempty w (suc n) h e = ground arith

  async_init_running :
      (b : FsdpBackend W O G) (w : Worker W O G) (rest : List (Worker W O G))
      → b.workers ≡ w ∷ rest
      → async_init torch num_gpus slots b ≡ (b, ok tt)
  unfolding async_init
  async_init_running b w rest e = rw e refl

  async_init_failed :
      (b : FsdpBackend W O G) (x : Error)
      → b.workers ≡ []
      → boot {G = G} torch num_gpus slots ≡ err x
      → async_init torch num_gpus slots b ≡ (b, err x)
  unfolding async_init
  async_init_failed b x e f = rw e (rw (f, async_init) refl)

  async_init_built :
      (b : FsdpBackend W O G) (w : Worker W O G)
      → b.workers ≡ []
      → boot torch num_gpus slots ≡ ok w
      → async_init torch num_gpus slots b
        ≡ (record b { workers = replicate torch (max 1 num_gpus) w }, ok tt)
  unfolding async_init
  async_init_built b w e f = rw e (rw (f, async_init) refl)

  idle-Inv : Inv idle_backend
  unfolding idle_backend Dict.get
  idle-Inv = ((λ id name. (λ z. ground arith, λ z. ground arith), tt), λ z. refl)

  -- The workers that are built have nothing allocated, and nothing is held.
  built-Inv :
      (r : Result (Worker W O G)) (b : FsdpBackend W O G)
      → boot torch num_gpus slots ≡ r
      → b.workers ≡ []
      → IsSynced (by_rank r) (known r) b × (b.workers ≡ [] → b.adapter_name_to_lora_id ≡ [])
      → let s = (async_init torch num_gpus slots b).0 in
        IsSynced (by_rank r) (known r) s × (s.workers ≡ [] → s.adapter_name_to_lora_id ≡ [])
  unfolding Dict.get
  built-Inv (err x) b f e h = rw (async_init_failed b x e f) h
  built-Inv (ok w) b f e h = rw (async_init_built b w e f) (
    (
      h.0.0,
      replicate-All (IsWorker w.adapters_by_rank (Dict.has w.adapters) b.adapter_name_to_lora_id) w
          (max 1 num_gpus)
          (
            refl,
            (
              (λ n. refl),
              (λ n.
                  (boot-IsUnused torch num_gpus slots w f).1 n
                  ∙ ap (λ d. is_some (Dict.get d n)) (sym (h.1 e))),
            ),
          ),
    ),
    λ z. absurd (replicate_nonempty w (max 1 num_gpus) (omega arith) z),
  )

  async_init-Inv : (b : FsdpBackend W O G) → Inv b → Inv (async_init torch num_gpus slots b).0
  async_init-Inv b h = elim (List-cases b.workers) [
    | inl e ↦ built-Inv (boot torch num_gpus slots) b refl e h
    | inr (w, (rest, e)) ↦ rw (async_init_running b w rest e) h
  ]

  hold_slot-Inv :
      (id : String) (rank : ℕ) (b : FsdpBackend W O G)
      → Dict.get b.lora_id_to_adapter_name id ≡ none
      → Inv b
      → Inv (hold_slot torch id rank b).0
  hold_slot-Inv id rank b f h = (
    hold_slot-IsSynced torch (by_rank (boot torch num_gpus slots))
        (known (boot torch num_gpus slots)) id rank b
        (IsKnown-boot (boot torch num_gpus slots) refl) f h.0,
    hold_slot_idle torch id rank b h.1,
  )

  async_init_names :
      (b : FsdpBackend W O G)
      → (async_init torch num_gpus slots b).0.lora_id_to_adapter_name ≡ b.lora_id_to_adapter_name
  unfolding async_init
  async_init_names b = ground arith

  pub async_init_ids :
      (b : FsdpBackend W O G)
      → (async_init torch num_gpus slots b).0.adapter_name_to_lora_id ≡ b.adapter_name_to_lora_id
  unfolding async_init
  async_init_ids b = ground arith

  create_adapter-Inv :
      (id : String) (l : LoraConfig) (b : FsdpBackend W O G)
      → Dict.get b.lora_id_to_adapter_name id ≡ none
      → Inv b
      → Inv (create_adapter torch model c slots num_gpus id l b).0
  unfolding create_adapter
  create_adapter-Inv id l b f h =
      Result-both {Y = FsdpBackend W O G × Result (Unit {0})} (λ s. Inv s.0)
        (validate_lora_config model c slots l) (λ e p. h)
        (λ u p.
          if-both {A = FsdpBackend W O G × Result (Unit {0})} (λ s. Inv s.0)
            (has_rank slots.rank_slots l.rank)
            (let s = async_init torch num_gpus slots b in
              Result-both {Y = FsdpBackend W O G × Result (Unit {0})} (λ s. Inv s.0) s.1
                (λ e q. async_init-Inv b h)
                (λ v q.
                  hold_slot-Inv id l.rank s.0 (ap (λ d. Dict.get d id) (async_init_names b) ∙ f)
                    (async_init-Inv b h)))
            h)

  remove_adapter_idle :
      (id : String) (b : FsdpBackend W O G)
      → (b.workers ≡ [] → b.adapter_name_to_lora_id ≡ [])
      → (remove_adapter torch id b).workers ≡ []
      → (remove_adapter torch id b).adapter_name_to_lora_id ≡ []
  unfolding Dict.pop remove_adapter
  remove_adapter_idle id b h = elim (Option-cases (Dict.get b.lora_id_to_adapter_name id)) [
    | inl e ↦ rw (e, remove_adapter) h
    | inr (name, e) ↦
        rw (e, remove_adapter)
          (λ z. ap (λ d. Dict.pop d name) (h (map-nil (release_slot torch name) b.workers z)))
  ]

  Reach-Inv : (b : FsdpBackend W O G) → Reach b → Inv b
  unfolding idle_backend
  Reach-Inv b started = idle-Inv
  Reach-Inv _ (create b id l f r) = create_adapter-Inv id l b f (Reach-Inv b r)
  Reach-Inv _ (remove b id r) =
      let h = Reach-Inv b r in
      (
        remove_adapter-IsSynced torch (by_rank (boot torch num_gpus slots))
            (known (boot torch num_gpus slots)) id b h.0,
        remove_adapter_idle id b h.1,
      )
  Reach-Inv _ (shutdown b r) = idle-Inv

  -- In every state that is reached, each run with an adapter holds one slot and each slot is held by
  -- at most one run, and every worker has exactly the slots allocated that some run holds.
  pub Reach-IsHeld : (b : FsdpBackend W O G) → Reach b → IsHeld b
  Reach-IsHeld b r =
      let h = (Reach-Inv b r).0 in
      (
        h.0,
        All-weaken
            (IsWorker (by_rank (boot torch num_gpus slots)) (known (boot torch num_gpus slots))
              b.adapter_name_to_lora_id)
            (Agrees b.adapter_name_to_lora_id) b.workers (λ w p. p.1.1) h.1,
      )

  async_init_workers :
      (b : FsdpBackend W O G) (w : Worker W O G)
      → boot torch num_gpus slots ≡ ok w
      → ((async_init torch num_gpus slots b).1 ≡ ok tt)
        × ((async_init torch num_gpus slots b).0.workers ≡ [] → ⊥)
  async_init_workers b w f = elim (List-cases b.workers) [
    | inl e ↦
        rw (async_init_built b w e f)
          (refl, λ z. replicate_nonempty w (max 1 num_gpus) (omega arith) z)
    | inr (v, (rest, e)) ↦ rw (async_init_running b v rest e) (refl, λ z. ground arith)
  ]

  create_adapter_holds :
      (id : String) (l : LoraConfig) (b : FsdpBackend W O G)
      → validate_lora_config model c slots l ≡ ok tt
      → has_rank slots.rank_slots l.rank ≡ true
      → (async_init torch num_gpus slots b).1 ≡ ok tt
      → create_adapter torch model c slots num_gpus id l b
        ≡ hold_slot torch id l.rank (async_init torch num_gpus slots b).0
  unfolding create_adapter
  create_adapter_holds id l b v r a = rw (v, create_adapter) (rw r (rw a refl))

  -- In every state that is reached, with slots that can be built, a request that passes the check, of
  -- a configured rank, is answered with a slot that no run held and that is fresh on every worker;
  -- or it is refused, with nothing changed, and then runs hold all the slots of the rank.
  pub create_adapter-Answer :
      (b : FsdpBackend W O G) (w : Worker W O G) (id : String) (l : LoraConfig)
      → Reach b
      → boot torch num_gpus slots ≡ ok w
      → validate_lora_config model c slots l ≡ ok tt
      → has_rank slots.rank_slots l.rank ≡ true
      → Answer w.adapters_by_rank l.rank id
          (async_init torch num_gpus slots b).0
          (create_adapter torch model c slots num_gpus id l b)
  create_adapter-Answer b w id l r f v k =
      let s = (async_init torch num_gpus slots b).0 in
      let a = async_init_workers b w f in
      let inv = (async_init-Inv b (Reach-Inv b r)).0 in
      rw (create_adapter_holds id l b v k a.0) (elim (List-cases s.workers) [
        | inl e ↦ absurd (a.1 e)
        | inr (lead, (others, e)) ↦
            hold_slot-Answer torch w.adapters_by_rank (Dict.has w.adapters) id l.rank s lead others
              e (subst (λ q. IsSynced (by_rank q) (known q) s) f inv)
      ])

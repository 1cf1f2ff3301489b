-- ===== src/Fsdp/Pool/Created.antt =====
-- Holding a slot keeps the invariant, and a slot is held for exactly one run.
use tu_ft.Base.{
  ℕ, String, ◌≡◌, refl, sym, ◌∙◌, subst, Bool, true, none, some, List, [], ◌∷◌, map, All, arith,
  eq_iff, is_some, ◌⊎◌, inl, inr, Option-cases, Bool-cases,
}
use tu_ft.Dict
use tu_ft.Dict.{Dict, elem, get-put_self, has-eq-is_some}
use tu_ft.Errors.{Result, ok, err, resource_exhausted, value_error}
use tu_ft.Fsdp.Pool.{
  Worker, Torch, FsdpBackend, names_at, is_allocated, first_free, take_slot, allocate_slot,
  reserve_slot, hold_slot, link_slot, AdapterInfo, reset_adapter_slot, fresh_info,
}
use tu_ft.Fsdp.Pool.Synced.{
  IsLinked, IsWorker, IsSynced, put-IsLinked, All-map, take_slot-IsWorker, reserve_slot-IsWorker,
  first_free_lem,
}

pub List-cases {ℓ} :
    {A : Type ℓ} (xs : List A) → (xs ≡ []) ⊎ ((x : A) × ((rest : List A) × (xs ≡ x ∷ rest)))
List-cases [] = inl refl
List-cases (x ∷ xs) = inr (x, (xs, refl))

All-mapped {ℓ κ} :
    {A : Type ℓ} (Q : A → Type κ) (f : A → A) (xs : List A) → ((x : A) → Q (f x)) → All Q (map f xs)
All-mapped Q f [] h = tt
All-mapped Q f (x ∷ xs) h = (h x, All-mapped Q f xs h)

first_free-none :
    (d : Dict Bool) (names : List String) (name : String)
    → first_free d names ≡ none
    → elem names name ≡ true
    → is_allocated d name ≡ true
unfolding first_free elem
first_free-none d [] name h m = ground arith
first_free-none d (n ∷ names) name h m = ground (arith, first_free-none d names name, eq_iff n name)

-- The names of the slots of a rank are names of slots.
abbrev pub IsKnown : (by_rank : List (ℕ × List String)) (known : String → Bool) → Type 0
IsKnown by_rank known =
    (rank : ℕ) (name : String) → elem (names_at by_rank rank) name ≡ true → known name ≡ true

-- The slot of a name is as a new one: without optimizer, steps or gradients.
abbrev pub IsFresh : {W O G : Type 0} → String → Worker W O G → Type 0
IsFresh {W} {O} {G} name w =
    (i : AdapterInfo W O G)
    → Dict.get w.adapters name ≡ some i
    → (i.optimizer ≡ none) × ((i.step_count ≡ 0) × (i.grad ≡ none))

-- What a request for a slot of a rank gives: a slot that no run held, fresh on every worker, or the
-- refusal, when runs hold all of them.
abbrev pub Answer :
    {W O G : Type 0}
    → List (ℕ × List String)
    → ℕ
    → String
    → FsdpBackend W O G
    → FsdpBackend W O G × Result (Unit {0})
    → Type 0
Answer by_rank rank id b after =
    ((after.1 ≡ ok tt)
      × ((name : String) × ((elem (names_at by_rank rank) name ≡ true)
            × ((Dict.get b.adapter_name_to_lora_id name ≡ none)
                × ((after.0.lora_id_to_adapter_name ≡ Dict.put b.lora_id_to_adapter_name id name)
                    × ((after.0.adapter_name_to_lora_id
                          ≡ Dict.put b.adapter_name_to_lora_id name id)
                        × All (IsFresh name) after.0.workers))))))
    ⊎ ((after ≡ (b, err (resource_exhausted "All preallocated FSDP LoRA slots are in use")))
        × ((name : String)
            → elem (names_at by_rank rank) name ≡ true
            → is_some (Dict.get b.adapter_name_to_lora_id name) ≡ true))

module _ {W O G : Type 0} (torch : Torch W O) where
  -- The state in which a slot has been found.
  abbrev held :
      String → String → Worker W O G → List (Worker W O G) → FsdpBackend W O G → FsdpBackend W O G
  held id name lead others b = record {
    workers = take_slot torch name lead ∷ map (reserve_slot torch name) others;
    lora_id_to_adapter_name = Dict.put b.lora_id_to_adapter_name id name;
    adapter_name_to_lora_id = Dict.put b.adapter_name_to_lora_id name id;
  }

  -- With a worker there, a slot is found or not.
  allocate_slot-none :
      (rank : ℕ) (lead : Worker W O G)
      → first_free lead.allocated (names_at lead.adapters_by_rank rank) ≡ none
      → allocate_slot torch rank lead ≡ (lead, none)
  unfolding allocate_slot
  allocate_slot-none rank lead f = rw (f, allocate_slot) refl

  hold_slot-none :
      (id : String) (rank : ℕ) (b : FsdpBackend W O G) (lead : Worker W O G)
      (others : List (Worker W O G))
      → b.workers ≡ lead ∷ others
      → first_free lead.allocated (names_at lead.adapters_by_rank rank) ≡ none
      → hold_slot torch id rank b
        ≡ (b, err (resource_exhausted "All preallocated FSDP LoRA slots are in use"))
  unfolding hold_slot link_slot
  hold_slot-none id rank b lead others e f =
      rw e (rw (allocate_slot-none rank lead f, hold_slot) refl)

  hold_slot_empty :
      (id : String) (rank : ℕ) (b : FsdpBackend W O G)
      → b.workers ≡ []
      → hold_slot torch id rank b ≡ (b, err (value_error "FSDPTrainingBackend not initialized."))
  unfolding hold_slot link_slot
  hold_slot_empty id rank b e = rw e refl

  allocate_slot-some :
      (name : String) (rank : ℕ) (lead : Worker W O G)
      → first_free lead.allocated (names_at lead.adapters_by_rank rank) ≡ some name
      → allocate_slot torch rank lead ≡ (take_slot torch name lead, some name)
  unfolding allocate_slot
  allocate_slot-some name rank lead f = rw (f, allocate_slot) refl

  hold_slot-some :
      (id name : String) (rank : ℕ) (b : FsdpBackend W O G) (lead : Worker W O G)
      (others : List (Worker W O G))
      → b.workers ≡ lead ∷ others
      → first_free lead.allocated (names_at lead.adapters_by_rank rank) ≡ some name
      → hold_slot torch id rank b ≡ (held id name lead others b, ok tt)
  unfolding hold_slot link_slot
  hold_slot-some id name rank b lead others e f =
      rw e (rw (allocate_slot-some name rank lead f, hold_slot) refl)

  -- The slot that is found is free.
  free_slot :
      (by_rank : List (ℕ × List String)) (known : String → Bool) (ids : Dict String)
      (lead : Worker W O G) (rank : ℕ) (name : String)
      → IsWorker by_rank known ids lead
      → first_free lead.allocated (names_at lead.adapters_by_rank rank) ≡ some name
      → (elem (names_at by_rank rank) name ≡ true) × (Dict.get ids name ≡ none)
  free_slot by_rank known ids lead rank name h f =
      let p = first_free_lem lead.allocated (names_at lead.adapters_by_rank rank) name f in
      (subst (λ r. elem (names_at r rank) name ≡ true) h.0 p.0, ground (arith, h.1.1 name, p.1))

  held-IsSynced :
      (by_rank : List (ℕ × List String)) (known : String → Bool) (id name : String)
      (b : FsdpBackend W O G) (lead : Worker W O G) (others : List (Worker W O G))
      → IsLinked b.lora_id_to_adapter_name b.adapter_name_to_lora_id
      → All (IsWorker by_rank known b.adapter_name_to_lora_id) (lead ∷ others)
      → known name ≡ true
      → Dict.get b.lora_id_to_adapter_name id ≡ none
      → Dict.get b.adapter_name_to_lora_id name ≡ none
      → IsSynced by_rank known (held id name lead others b)
  held-IsSynced by_rank known id name b lead others l ws k f g =
      let ids = b.adapter_name_to_lora_id in
      (
        put-IsLinked b.lora_id_to_adapter_name ids id name l f g,
        (
          take_slot-IsWorker torch by_rank known ids name id lead ws.0,
          All-map (IsWorker by_rank known ids) (IsWorker by_rank known (Dict.put ids name id))
              (reserve_slot torch name) others
              (λ w. reserve_slot-IsWorker torch by_rank known ids name id w k) ws.1,
        ),
      )

  pub hold_slot-IsSynced :
      (by_rank : List (ℕ × List String)) (known : String → Bool) (id : String) (rank : ℕ)
      (b : FsdpBackend W O G)
      → IsKnown by_rank known
      → Dict.get b.lora_id_to_adapter_name id ≡ none
      → IsSynced by_rank known b
      → IsSynced by_rank known (hold_slot torch id rank b).0
  hold_slot-IsSynced by_rank known id rank b k f h = elim (List-cases b.workers) [
    | inl e ↦ rw (hold_slot_empty id rank b e) h
    | inr (lead, (others, e)) ↦
        let ws : All (IsWorker by_rank known b.adapter_name_to_lora_id) (lead ∷ others) =
          subst (All (IsWorker by_rank known b.adapter_name_to_lora_id)) e h.1 in
        elim (Option-cases (first_free lead.allocated (names_at lead.adapters_by_rank rank))) [
          | inl n ↦ rw (hold_slot-none id rank b lead others e n) h
          | inr (name, n) ↦
              let s = free_slot by_rank known b.adapter_name_to_lora_id lead rank name ws.0 n in
              rw (hold_slot-some id name rank b lead others e n)
                (held-IsSynced by_rank known id name b lead others h.0 ws (k rank name s.0) f s.1)
        ]
  ]

  -- A backend without workers has none afterwards, and holds nothing more.
  pub hold_slot_idle :
      (id : String) (rank : ℕ) (b : FsdpBackend W O G)
      → (b.workers ≡ [] → b.adapter_name_to_lora_id ≡ [])
      → (hold_slot torch id rank b).0.workers ≡ []
      → (hold_slot torch id rank b).0.adapter_name_to_lora_id ≡ []
  hold_slot_idle id rank b h = elim (List-cases b.workers) [
    | inl e ↦ rw (hold_slot_empty id rank b e) h
    | inr (lead, (others, e)) ↦
        elim (Option-cases (first_free lead.allocated (names_at lead.adapters_by_rank rank))) [
          | inl n ↦ rw (hold_slot-none id rank b lead others e n) h
          | inr (name, n) ↦ rw (hold_slot-some id name rank b lead others e n) (λ z. ground arith)
        ]
  ]

  take_slot-IsFresh : (name : String) (w : Worker W O G) → IsFresh name (take_slot torch name w)
  unfolding take_slot reset_adapter_slot fresh_info
  take_slot-IsFresh name w i g = elim (Option-cases (Dict.get w.adapters name)) [
    | inl e ↦ ground arith
    | inr (j, e) ↦ ground (arith, get-put_self w.adapters name (fresh_info torch name j))
  ]

  reserve_slot-IsFresh :
      (name : String) (w : Worker W O G) → IsFresh name (reserve_slot torch name w)
  unfolding reserve_slot
  reserve_slot-IsFresh name w = elim (Bool-cases (Dict.has w.adapters name)) [
    | inl e ↦ rw (e, reserve_slot) (take_slot-IsFresh name w)
    | inr e ↦ rw (e, reserve_slot) (λ i g. ground (arith, has-eq-is_some w.adapters name, g))
  ]

  pub hold_slot-Answer :
      (by_rank : List (ℕ × List String)) (known : String → Bool) (id : String) (rank : ℕ)
      (b : FsdpBackend W O G) (lead : Worker W O G) (others : List (Worker W O G))
      → b.workers ≡ lead ∷ others
      → IsSynced by_rank known b
      → Answer by_rank rank id b (hold_slot torch id rank b)
  hold_slot-Answer by_rank known id rank b lead others e h =
      let ids = b.adapter_name_to_lora_id in
      let ws : All (IsWorker by_rank known ids) (lead ∷ others) =
        subst (All (IsWorker by_rank known ids)) e h.1 in
      elim (Option-cases (first_free lead.allocated (names_at lead.adapters_by_rank rank))) [
        | inl n ↦ inr (
          hold_slot-none id rank b lead others e n,
          λ name m.
              sym (ws.0.1.1 name)
              ∙ first_free-none lead.allocated (names_at lead.adapters_by_rank rank) name n
                  (subst (λ r. elem (names_at r rank) name ≡ true) (sym ws.0.0) m),
        )
        | inr (name, n) ↦
            let s = free_slot by_rank known ids lead rank name ws.0 n in
            rw (hold_slot-some id name rank b lead others e n) (
              inl (
                refl,
                (
                  name,
                  (
                    s.0,
                    (
                      s.1,
                      (
                        refl,
                        (
                          refl,
                          (
                            take_slot-IsFresh name lead,
                            All-mapped (IsFresh name) (reserve_slot torch name) others
                                (reserve_slot-IsFresh name),
                          ),
                        ),
                      ),
                    ),
                  ),
                ),
              ))
      ]

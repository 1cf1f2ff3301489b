-- ===== src/Fsdp/Pool/Synced.antt =====
-- The invariant of the backend: the two maps are inverse to each other, and every worker has the
-- slots allocated that a run holds.
use tu_ft.Base.{
  ℕ, String, ◌≡◌, refl, ap, ◌∙◌, Bool, true, false, none, some, List, [], ◌∷◌, map, All, arith,
  str_eq, eq_iff, if◌then◌else◌, is_some, inl, inr, Option-cases,
}
use tu_ft.Dict
use tu_ft.Dict.{Dict, elem, get-put, get-pop, has-eq-is_some}
use tu_ft.Fsdp.Pool.{
  Worker, Torch, FsdpBackend, is_allocated, first_free, fresh_info, reset_adapter_slot, take_slot,
  reserve_slot, release_slot, remove_adapter,
}

-- Each run holds one slot, and each slot that is held belongs to that run.
abbrev pub IsLinked : (names ids : Dict String) → Type 0
IsLinked names ids =
    (id name : String)
    → (Dict.get names id ≡ some name → Dict.get ids name ≡ some id)
      × (Dict.get ids name ≡ some id → Dict.get names id ≡ some name)

-- A worker has the slots of the pool, and those allocated that `ids` has a run for.
abbrev pub IsWorker :
    {W O G : Type 0} (by_rank : List (ℕ × List String)) (known : String → Bool)
    → Dict String
    → Worker W O G
    → Type 0
IsWorker by_rank known ids w =
    (w.adapters_by_rank ≡ by_rank)
    × (((n : String) → Dict.has w.adapters n ≡ known n)
        × ((n : String) → is_allocated w.allocated n ≡ is_some (Dict.get ids n)))

abbrev pub IsSynced :
    {W O G : Type 0} (by_rank : List (ℕ × List String)) (known : String → Bool)
    → FsdpBackend W O G
    → Type 0
IsSynced by_rank known b =
    IsLinked b.lora_id_to_adapter_name b.adapter_name_to_lora_id
    × All (IsWorker by_rank known b.adapter_name_to_lora_id) b.workers

pub put-IsLinked :
    (names ids : Dict String) (id name : String)
    → IsLinked names ids
    → Dict.get names id ≡ none
    → Dict.get ids name ≡ none
    → IsLinked (Dict.put names id name) (Dict.put ids name id)
put-IsLinked names ids id name l f g i n =
    ground
      (arith, eq_iff id i, eq_iff name n, get-put names id i name, get-put ids name n id, l i n)

pub pop-IsLinked :
    (names ids : Dict String) (id name : String)
    → IsLinked names ids
    → Dict.get names id ≡ some name
    → IsLinked (Dict.pop names id) (Dict.pop ids name)
pop-IsLinked names ids id name l f i n = ground (
  arith,
  eq_iff id i,
  eq_iff name n,
  get-pop names id i,
  get-pop ids name n,
  l i n,
  l id name,
  l id n,
  l i name,
)

pub All-map {ℓ κ} :
    {A : Type ℓ} (P Q : A → Type κ) (f : A → A) (xs : List A)
    → ((x : A) → P x → Q (f x))
    → All P xs
    → All Q (map f xs)
All-map P Q f [] h a = tt
All-map P Q f (x ∷ xs) h a = (h x a.0, All-map P Q f xs h a.1)

pub is_allocated-put :
    (d : Dict Bool) (k j : String) (b : Bool)
    → is_allocated (Dict.put d k b) j ≡ (if str_eq k j then b else is_allocated d j)
unfolding is_allocated
is_allocated-put d k j b = ground (arith, get-put d k j b)

is_allocated-pop :
    (d : Dict Bool) (k j : String)
    → is_allocated (Dict.pop d k) j ≡ (if str_eq k j then false else is_allocated d j)
unfolding is_allocated
is_allocated-pop d k j = ground (arith, get-pop d k j)

has-put_present {ℓ} :
    {V : Type ℓ} (d : Dict V) (k j : String) (v u : V)
    → Dict.get d k ≡ some u
    → Dict.has (Dict.put d k v) j ≡ Dict.has d j
has-put_present d k j v u h =
    ground
      (arith, eq_iff k j, get-put d k j v, has-eq-is_some d j, has-eq-is_some (Dict.put d k v) j)

module _ {W O G : Type 0} (torch : Torch W O) where
  -- A reset changes none of what the invariant speaks of.
  reset_adapter_slot_shape :
      (name : String) (w : Worker W O G)
      → ((reset_adapter_slot torch name w).adapters_by_rank ≡ w.adapters_by_rank)
        × (((reset_adapter_slot torch name w).allocated ≡ w.allocated)
            × ((n : String)
                → Dict.has (reset_adapter_slot torch name w).adapters n ≡ Dict.has w.adapters n))
  unfolding reset_adapter_slot
  reset_adapter_slot_shape name w = (
    ground arith,
    (
      ground arith,
      λ n. elim (Option-cases (Dict.get w.adapters name)) [
        | inl e ↦ rw (e, reset_adapter_slot) refl
        | inr p ↦
            rw (p.1, reset_adapter_slot)
              (has-put_present w.adapters name n (fresh_info torch name p.0) p.0 p.1)
      ],
    ),
  )

  pub take_slot-IsWorker :
      (by_rank : List (ℕ × List String)) (known : String → Bool) (ids : Dict String)
      (name id : String) (w : Worker W O G)
      → IsWorker by_rank known ids w
      → IsWorker by_rank known (Dict.put ids name id) (take_slot torch name w)
  unfolding take_slot
  take_slot-IsWorker by_rank known ids name id w h =
      let taken : Worker W O G = record w { allocated = Dict.put w.allocated name true } in
      let s = reset_adapter_slot_shape name taken in
      (
        s.0 ∙ h.0,
        (
          λ n. s.1.1 n ∙ h.1.0 n,
          λ n.
              ap (λ d. is_allocated d n) s.1.0
              ∙ ground
                  (arith, is_allocated-put w.allocated name n true, get-put ids name n id, h.1.1 n),
        ),
      )

  release_slot-IsWorker :
      (by_rank : List (ℕ × List String)) (known : String → Bool) (ids : Dict String) (name : String)
      (w : Worker W O G)
      → IsWorker by_rank known ids w
      → IsWorker by_rank known (Dict.pop ids name) (release_slot torch name w)
  unfolding release_slot
  release_slot-IsWorker by_rank known ids name w h =
      let s = reset_adapter_slot_shape name w in
      (
        s.0 ∙ h.0,
        (
          λ n. s.1.1 n ∙ h.1.0 n,
          λ n.
              ap (λ d. is_allocated (Dict.pop d name) n) s.1.0
              ∙ ground (arith, is_allocated-pop w.allocated name n, get-pop ids name n, h.1.1 n),
        ),
      )

  pub reserve_slot-IsWorker :
      (by_rank : List (ℕ × List String)) (known : String → Bool) (ids : Dict String)
      (name id : String) (w : Worker W O G)
      → known name ≡ true
      → IsWorker by_rank known ids w
      → IsWorker by_rank known (Dict.put ids name id) (reserve_slot torch name w)
  unfolding reserve_slot
  reserve_slot-IsWorker by_rank known ids name id w k h =
      rw (h.1.0 name ∙ k) (take_slot-IsWorker by_rank known ids name id w h)

  pub remove_adapter-IsSynced :
      (by_rank : List (ℕ × List String)) (known : String → Bool) (id : String)
      (b : FsdpBackend W O G)
      → IsSynced by_rank known b
      → IsSynced by_rank known (remove_adapter torch id b)
  unfolding remove_adapter
  remove_adapter-IsSynced by_rank known id b h =
      elim (Option-cases (Dict.get b.lora_id_to_adapter_name id)) [
        | inl e ↦ rw (e, remove_adapter) h
        | inr p ↦
            rw (p.1, remove_adapter)
              (
                pop-IsLinked b.lora_id_to_adapter_name b.adapter_name_to_lora_id id p.0 h.0 p.1,
                All-map (IsWorker by_rank known b.adapter_name_to_lora_id)
                    (IsWorker by_rank known (Dict.pop b.adapter_name_to_lora_id p.0))
                    (release_slot torch p.0) b.workers
                    (release_slot-IsWorker by_rank known b.adapter_name_to_lora_id p.0) h.1,
              )
      ]

pub first_free_lem :
    (d : Dict Bool) (names : List String) (name : String)
    → first_free d names ≡ some name
    → (elem names name ≡ true) × (is_allocated d name ≡ false)
unfolding first_free elem
first_free_lem d [] name h = ground arith
first_free_lem d (n ∷ names) name h = ground (arith, first_free_lem d names name, eq_iff n name)

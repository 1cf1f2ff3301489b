-- ===== src/Fsdp/Pool/Initial.antt =====
-- The slots that a worker builds: none is allocated, and each rank lists slots that exist.
use tu_ft.Base.{
  ℕ, zero, suc, String, ◌≡◌, refl, ◌∙◌, subst, true, false, List, [], ◌∷◌, arith, str_eq,
  if◌then◌else◌,
}
use tu_ft.Dict
use tu_ft.Dict.{Dict, elem, has-put}
use tu_ft.Errors.{ok}
use tu_ft.Fsdp.{SlotPoolConfig}
use tu_ft.Fsdp.Pool.{
  Worker, Torch, names_at, append_name, add_name, is_allocated, add_slot, add_slots, add_ranks,
  first_optimizer, build_slots, initialize, boot, adapter_name, AdapterInfo, with_optimizer,
}
use tu_ft.Fsdp.Pool.Synced.{is_allocated-put}

abbrev pub IsUnused : {W O G : Type 0} → Worker W O G → Type 0
IsUnused w =
    ((rank : ℕ) (name : String)
      → elem (names_at w.adapters_by_rank rank) name ≡ true
      → Dict.has w.adapters name ≡ true)
    × ((name : String) → is_allocated w.allocated name ≡ false)

pub elem-append_name :
    (names : List String) (name n : String)
    → elem (append_name names name) n ≡ (if elem names n then true else str_eq name n)
unfolding append_name elem
elem-append_name [] name n = ground arith
elem-append_name (m ∷ names) name n = ground (arith, elem-append_name names name n)

elem-add_name :
    (d : List (ℕ × List String)) (r : ℕ) (name : String) (rank : ℕ) (n : String)
    → elem (names_at (add_name d r name) rank) n ≡ true
    → (if elem (names_at d rank) n then true else str_eq name n) ≡ true
unfolding add_name names_at elem
elem-add_name [] r name rank n h = ground arith
elem-add_name ((s, names) ∷ d) r name rank n h =
    ground (arith, elem-append_name names name n, elem-add_name d r name rank n)

pub nothing-IsUnused :
    (W O G : Type 0)
    → IsUnused {W = W} {O = O} {G = G}
        (record { adapters = []; adapters_by_rank = []; allocated = [] })
unfolding names_at elem is_allocated Dict.get
nothing-IsUnused W O G = (λ r n x. ground arith, λ n. refl)

module _ {W O G : Type 0} (torch : Torch W O) where
  add_slot-IsUnused :
      (slots : SlotPoolConfig) (rank idx : ℕ) (w : Worker W O G)
      → IsUnused w
      → IsUnused (add_slot torch slots rank idx w)
  unfolding add_slot
  add_slot-IsUnused slots rank idx w u = (
    λ r n h.
        has-put w.adapters (adapter_name rank idx) n _
        ∙ ground
            (arith, elem-add_name w.adapters_by_rank rank (adapter_name rank idx) r n h, u.0 r n),
    λ n. ground (arith, is_allocated-put w.allocated (adapter_name rank idx) n false, u.1 n),
  )

  add_slots-IsUnused :
      (slots : SlotPoolConfig) (rank count idx : ℕ) (w : Worker W O G)
      → IsUnused w
      → IsUnused (add_slots torch slots rank count idx w)
  unfolding add_slots
  add_slots-IsUnused slots rank zero idx w u = u
  add_slots-IsUnused slots rank (suc count) idx w u =
      add_slots-IsUnused slots rank count (suc idx) (add_slot torch slots rank idx w)
        (add_slot-IsUnused slots rank idx w u)

  pub add_ranks-IsUnused :
      (slots : SlotPoolConfig) (ranks : List (ℕ × ℕ)) (w : Worker W O G)
      → IsUnused w
      → IsUnused (add_ranks torch slots ranks w)
  unfolding add_ranks
  add_ranks-IsUnused slots [] w u = u
  add_ranks-IsUnused slots ((rank, count) ∷ rest) w u =
      add_ranks-IsUnused slots rest (add_slots torch slots rank count 0 w)
        (add_slots-IsUnused slots rank count 0 w u)

  has-with_optimizer :
      (d : Dict (AdapterInfo W O G)) (n : String)
      → Dict.has (with_optimizer torch d) n ≡ Dict.has d n
  unfolding with_optimizer Dict.has
  has-with_optimizer [] n = refl
  has-with_optimizer ((name, i) ∷ d) n = refl

  first_optimizer-IsUnused : (w : Worker W O G) → IsUnused w → IsUnused (first_optimizer torch w)
  unfolding first_optimizer
  first_optimizer-IsUnused w u = (λ rank n h. has-with_optimizer w.adapters n ∙ u.0 rank n h, u.1)

  build_slots-IsUnused :
      (slots : SlotPoolConfig) (w : Worker W O G) → build_slots torch slots ≡ ok w → IsUnused w
  unfolding build_slots
  build_slots-IsUnused slots w h =
      let none_yet : Worker W O G = record {
        adapters = [];
        adapters_by_rank = [];
        allocated = [];
      } in
      let built = add_ranks torch slots slots.rank_slots none_yet in
      let e : first_optimizer torch built ≡ w = ground arith in
      subst IsUnused e (
        first_optimizer-IsUnused built
          (add_ranks-IsUnused slots slots.rank_slots none_yet (nothing-IsUnused W O G)))

  initialize-IsUnused :
      (slots : SlotPoolConfig) (w : Worker W O G) → initialize torch slots ≡ ok w → IsUnused w
  unfolding initialize
  initialize-IsUnused slots w h = build_slots-IsUnused slots w (ground (arith, h))

  pub boot-IsUnused :
      (num_gpus : ℕ) (slots : SlotPoolConfig) (w : Worker W O G)
      → boot torch num_gpus slots ≡ ok w
      → IsUnused w
  unfolding boot
  boot-IsUnused num_gpus slots w h = initialize-IsUnused slots w (ground (arith, h))

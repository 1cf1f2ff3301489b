-- ===== src/Config/Slots.antt =====
-- What the checks of `fsdp_rank_slots` in src/tuft/config.py mean for the slots that are accepted.
use tu_ft.Base.{
  ℕ, ◌≤◌, ◌≡◌, Bool, true, false, Option, none, some, List, [], ◌∷◌, arith, ltb, ◌==◌, length, ◌⊎◌,
  inl, inr, Bool-cases,
}
use tu_ft.Errors.{ok}
use tu_ft.Config.{ModelConfig}
use tu_ft.Config.Validators.{validate, any_rank, any_count, check_rank_slots}
use tu_ft.Config.Accepted.{slots_check, validate-HasSlots}

-- Ranks and counts of slots are at least 1.
abbrev pub ArePositive : List (ℕ × ℕ) → Type 0
ArePositive [] = Unit
ArePositive ((rank, count) ∷ rest) = ((1 ≤ rank) × (1 ≤ count)) × ArePositive rest

abbrev pub AreBelow : ℕ → List (ℕ × ℕ) → Type 0
AreBelow m [] = Unit
AreBelow m ((rank, count) ∷ rest) = (rank ≤ m) × AreBelow m rest

abbrev pub HasRank : ℕ → List (ℕ × ℕ) → Type 0
HasRank m [] = ⊥
HasRank m ((rank, count) ∷ rest) = (rank ≡ m) ⊎ HasRank m rest

-- For the FSDP backend, no rank is above the maximal one, and the maximal one has slots.
abbrev pub ReachMax : Bool → ℕ → List (ℕ × ℕ) → Type 0
ReachMax false m slots = Unit
ReachMax true m slots = AreBelow m slots × HasRank m slots

abbrev pub AreSlots : Option (List (ℕ × ℕ)) → Bool → ℕ → Type 0
AreSlots none is_fsdp m = Unit
AreSlots (some slots) is_fsdp m =
    (1 ≤ length slots) × (ArePositive slots × ReachMax is_fsdp m slots)

any-ArePositive :
    (slots : List (ℕ × ℕ))
    → any_rank (λ rank. ltb rank 1) slots ≡ false
    → any_count (λ count. ltb count 1) slots ≡ false
    → ArePositive slots
unfolding any_rank any_count
any-ArePositive [] r c = tt
any-ArePositive ((rank, count) ∷ rest) r c =
    ((ground arith, ground arith), any-ArePositive rest (ground arith) (ground arith))

any-AreBelow :
    (m : ℕ) (slots : List (ℕ × ℕ)) → any_rank (λ rank. ltb m rank) slots ≡ false → AreBelow m slots
unfolding any_rank
any-AreBelow m [] h = tt
any-AreBelow m ((rank, count) ∷ rest) h = (ground arith, any-AreBelow m rest (ground arith))

any-HasRank :
    (m : ℕ) (slots : List (ℕ × ℕ)) → any_rank (λ rank. rank == m) slots ≡ true → HasRank m slots
unfolding any_rank
any-HasRank m [] h = ground arith
any-HasRank m ((rank, count) ∷ rest) h = elim (Bool-cases (rank == m)) [
  | inl e ↦ inl (ground arith)
  | inr e ↦ inr (any-HasRank m rest (ground arith))
]

checked-ReachMax :
    (is_fsdp : Bool) (m : ℕ) (x : ℕ × ℕ) (slots : List (ℕ × ℕ))
    → check_rank_slots is_fsdp m (x ∷ slots) ≡ none
    → ReachMax is_fsdp m (x ∷ slots)
unfolding check_rank_slots
checked-ReachMax false m x slots h = tt
checked-ReachMax true m x slots h =
    (any-AreBelow m (x ∷ slots) (ground arith), any-HasRank m (x ∷ slots) (ground arith))

slots_check-AreSlots :
    (o : Option (List (ℕ × ℕ))) (is_fsdp : Bool) (m : ℕ)
    → slots_check o is_fsdp m ≡ none
    → AreSlots o is_fsdp m
unfolding check_rank_slots
slots_check-AreSlots none is_fsdp m h = tt
slots_check-AreSlots (some []) is_fsdp m h = ground arith
slots_check-AreSlots (some (x ∷ slots)) is_fsdp m h = (
  omega arith,
  (any-ArePositive (x ∷ slots) (ground arith) (ground arith), checked-ReachMax is_fsdp m x slots h),
)

-- A configuration that the validators accept has a positive maximal rank and a positive alpha ratio;
-- the slots that it gives, if any, are of at least one rank, their ranks and counts are positive,
-- and with the FSDP backend no rank is above the maximal one, which is among them.
pub validate-AreSlots :
    (c d : ModelConfig)
    → validate c ≡ ok d
    → (1 ≤ d.max_lora_rank)
      × ((1 ≤ d.lora_alpha_ratio) × AreSlots d.fsdp_rank_slots d.is_fsdp d.max_lora_rank)
validate-AreSlots c d h =
    let v = validate-HasSlots c d h in
    (v.0.0, (v.1, slots_check-AreSlots d.fsdp_rank_slots d.is_fsdp d.max_lora_rank v.0.1))

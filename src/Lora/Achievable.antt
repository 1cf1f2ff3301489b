-- ===== src/Lora/Achievable.antt =====
-- What `achievable_lora_target_sets` lists: no more and no less than what the flags of some client
-- resolve to.
use tu_ft.Base.{
  String, ◌≡◌, refl, sym, ap, ◌∙◌, Bool, true, false, not, ◌||◌, ◌&&◌, Option, some, List, [], ◌∷◌,
  ◌++◌, arith, eq_iff, ◌↔◌, inl, inr, Bool-cases,
}
use tu_ft.Lora.{
  LoraConfig, LoraTargets, assemble_targets, same_list, same_targets, has_targets, is_listed,
  all_flags, add_achievable, collect_achievable, achievable_lora_target_sets, get_lora_targets,
  resolve_lora_targets,
}
use tu_ft.Lora.Family.{Series, Architecture}

pub same_list-eq : (xs ys : List String) → same_list xs ys ≡ true → xs ≡ ys
unfolding same_list
same_list-eq [] [] h = refl
same_list-eq [] (y ∷ ys) h = ground arith
same_list-eq (x ∷ xs) [] h = ground arith
same_list-eq (x ∷ xs) (y ∷ ys) h = ground (arith, eq_iff x y, same_list-eq xs ys)

pub same_list_self : (xs : List String) → same_list xs xs ≡ true
unfolding same_list
same_list_self [] = refl
same_list_self (x ∷ xs) = ground (arith, eq_iff x x, same_list_self xs)

pub same_targets-eq : (t u : LoraTargets) → same_targets t u ≡ true → t ≡ u
unfolding same_targets
same_targets-eq t u h =
    ground (arith, same_list-eq t.modules u.modules, same_list-eq t.parameters u.parameters)

pub same_targets_self : (t : LoraTargets) → same_targets t t ≡ true
unfolding same_targets
same_targets_self t = ground (arith, same_list_self t.modules, same_list_self t.parameters)

is_listed-append :
    (t u : LoraTargets) (us : List LoraTargets)
    → is_listed t (us ++ u ∷ []) ≡ (is_listed t us || same_targets t u)
unfolding is_listed
is_listed-append t u [] = ground arith
is_listed-append t u (v ∷ us) = ground (arith, is_listed-append t u us)

is_listed_same :
    (t u : LoraTargets) (us : List LoraTargets)
    → same_targets u t ≡ true
    → is_listed t us ≡ true
    → is_listed u us ≡ true
is_listed_same t u us h l = ap (λ v. is_listed v us) (same_targets-eq u t h) ∙ l

is_listed-add_achievable :
    (u t : LoraTargets) (us : List LoraTargets)
    → is_listed u (add_achievable t us) ≡ (is_listed u us || has_targets t && same_targets u t)
unfolding add_achievable
is_listed-add_achievable u t us = ground (arith, is_listed-append u t us, is_listed_same t u us)

module _ (series : Series) (architecture : Option Architecture) (full : Bool) where
  abbrev assembled : Bool × Bool × Bool → LoraTargets
  assembled (attn, mlp, unembed) = assemble_targets series architecture attn mlp unembed full

  -- Whether some flags of the list resolve to the targets, which are not empty.
  unfoldable pub any_flags : LoraTargets → List (Bool × Bool × Bool) → Bool
  any_flags u [] = false
  any_flags u (f ∷ fs) = has_targets (assembled f) && same_targets u (assembled f) || any_flags u fs

  is_listed-collect_achievable :
      (u : LoraTargets) (fs : List (Bool × Bool × Bool)) (us : List LoraTargets)
      → is_listed u (collect_achievable series architecture full fs us)
        ≡ (is_listed u us || any_flags u fs)
  unfolding collect_achievable any_flags
  is_listed-collect_achievable u [] us = ground arith
  is_listed-collect_achievable u ((attn, mlp, unembed) ∷ fs) us =
      let t = assemble_targets series architecture attn mlp unembed full in
      ground (
        arith,
        is_listed-add_achievable u t us,
        is_listed-collect_achievable u fs (add_achievable t us),
      )

  abbrev Found : LoraTargets → Type 0
  Found u = (has_targets u ≡ true) × ((f : Bool × Bool × Bool) × (u ≡ assembled f))

  any_flags-here :
      (u : LoraTargets) (f : Bool × Bool × Bool)
      → (has_targets (assembled f) && same_targets u (assembled f)) ≡ true
      → Found u
  any_flags-here u f h =
      let e : u ≡ assembled f = same_targets-eq u (assembled f) (ground arith) in
      (ap has_targets e ∙ ground arith, (f, e))

  any_flags-Found :
      (u : LoraTargets) (fs : List (Bool × Bool × Bool)) → any_flags u fs ≡ true → Found u
  unfolding any_flags
  any_flags-Found u [] h = ground arith
  any_flags-Found u (f ∷ fs) h =
      elim (Bool-cases (has_targets (assembled f) && same_targets u (assembled f))) [
        | inl e ↦ any_flags-here u f e
        | inr e ↦ any_flags-Found u fs (ground arith)
      ]

  -- The flags of any client are in the list, here by their Boolean tests.
  abbrev same_bool : Bool → Bool → Bool
  same_bool true b = b
  same_bool false b = not b

  abbrev same_flags : Bool × Bool × Bool → Bool × Bool × Bool → Bool
  same_flags (a, m, u) (b, n, v) = same_bool a b && same_bool m n && same_bool u v

  unfoldable flags_in : Bool × Bool × Bool → List (Bool × Bool × Bool) → Bool
  flags_in f [] = false
  flags_in f (g ∷ gs) = same_flags f g || flags_in f gs

  flags_in-all_flags : (a m u : Bool) → flags_in (a, m, u) all_flags ≡ true
  unfolding flags_in
  flags_in-all_flags a m u = ground arith

  same_flags-eq : (f g : Bool × Bool × Bool) → same_flags f g ≡ true → f ≡ g
  same_flags-eq (a, m, u) (b, n, v) h = ground arith

  flags_in-any_flags :
      (f : Bool × Bool × Bool) (fs : List (Bool × Bool × Bool))
      → has_targets (assembled f) ≡ true
      → flags_in f fs ≡ true
      → any_flags (assembled f) fs ≡ true
  unfolding flags_in any_flags
  flags_in-any_flags f [] h m = ground arith
  flags_in-any_flags f (g ∷ fs) h m =
      ground (arith, same_targets_self (assembled f), flags_in-any_flags f fs, same_flags-eq f g)

-- What is resolved from flags comes from flags of the list.
resolved :
    (series : Series) (architecture : Option Architecture) (full : Bool) (u : LoraTargets)
    → has_targets u ≡ true
    → (c : LoraConfig)
    → u ≡ assembled series architecture full (c.train_attn, c.train_mlp, c.train_unembed)
    → any_flags series architecture full u all_flags ≡ true
resolved series architecture full u h c e =
    let f : Bool × Bool × Bool = (c.train_attn, c.train_mlp, c.train_unembed) in
    ap (λ v. any_flags series architecture full v all_flags) e
    ∙ flags_in-any_flags series architecture full f all_flags (ap has_targets (sym e) ∙ h)
        (flags_in-all_flags series architecture full c.train_attn c.train_mlp c.train_unembed)

is_listed-any_flags :
    (series : Series) (architecture : Option Architecture) (full : Bool) (u : LoraTargets)
    (listed : List LoraTargets)
    → achievable_lora_target_sets (some series, architecture) full ≡ some listed
    → is_listed u listed ≡ any_flags series architecture full u all_flags
unfolding achievable_lora_target_sets is_listed
is_listed-any_flags series architecture full u listed h =
    ground (arith, is_listed-collect_achievable series architecture full u all_flags [])

-- A geometry is listed for a known family of models exactly if it has a target and the flags of some
-- client resolve to it. In particular no listed geometry is empty.
pub is_listed-achievable :
    (series : Series) (architecture : Option Architecture) (full : Bool) (u : LoraTargets)
    (listed : List LoraTargets)
    → achievable_lora_target_sets (some series, architecture) full ≡ some listed
    → (is_listed u listed ≡ true) ↔ (
        (has_targets u ≡ true)
        × ((c : LoraConfig) × (get_lora_targets (some series, architecture) c full ≡ some u)))
unfolding achievable_lora_target_sets get_lora_targets resolve_lora_targets
is_listed-achievable series architecture full u listed h =
    let e = is_listed-any_flags series architecture full u listed h in
    (
      λ l.
          let found = any_flags-Found series architecture full u all_flags (sym e ∙ l) in
          let f = found.1.0 in
          (
            found.0,
            (
              record { rank = 8; train_attn = f.0; train_mlp = f.1; train_unembed = f.2 },
              ap some (sym found.1.1),
            ),
          ),
      λ p. e ∙ resolved series architecture full u p.0 p.1.0 (ground (arith, p.1.1)),
    )

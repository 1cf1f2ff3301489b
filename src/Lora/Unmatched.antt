-- ===== src/Lora/Unmatched.antt =====
-- src/tuft/backends/lora_modules.py: which targets PEFT would skip, and how a mismatch of two
-- geometries is explained.
pub mod Matched
use tu_ft.Base.{
  ℕ, String, ◌≡◌, refl, ◌∙◌, ap, Bool, true, false, not, ◌||◌, ◌&&◌, Option, none, some, List, [],
  ◌∷◌, map, arith, str_eq, eq_iff, ◌==◌, if◌then◌else◌,
}
use tu_ft.Dict.{elem}
use tu_ft.Names.{all_in}
use tu_ft.Lora.{deltanet_modules, expert_parameters}
use tu_ft.Lora.Family.{codes}

unfoldable pub same_codes : List ℕ → List ℕ → Bool
same_codes [] [] = true
same_codes (m ∷ ms) (n ∷ ns) = m == n && same_codes ms ns
same_codes _ _ = false

-- name.endswith(suffix)
unfoldable ends_with : List ℕ → List ℕ → Bool
unfolding same_codes
ends_with [] suffix = same_codes [] suffix
ends_with (c ∷ name) suffix = same_codes (c ∷ name) suffix || ends_with name suffix

-- name == target or name.endswith("." + target)
unfoldable fits : List ℕ → List ℕ → Bool
unfolding ends_with
fits name target = same_codes name target || ends_with name (46 ∷ target)

unfoldable pub any_fits : List (List ℕ) → List ℕ → Bool
unfolding fits
any_fits [] target = false
any_fits (name ∷ names) target = fits name target || any_fits names target

-- dict.fromkeys(xs)
unfoldable without : String → List String → List String
without x [] = []
without x (y ∷ ys) = let rest = without x ys in if str_eq x y then rest else y ∷ rest

unfoldable dedupe : List String → List String
unfolding without
dedupe [] = []
dedupe (x ∷ xs) = x ∷ without x (dedupe xs)

unfoldable pub unmatched : List (List ℕ) → List String → List String
unfolding any_fits codes
unmatched names [] = []
unmatched names (t ∷ ts) =
    let rest = unmatched names ts in if not (any_fits names (codes t)) then t ∷ rest else rest

unfoldable pub find_unmatched_target_modules : (names : List (List ℕ)) → List String → List String
unfolding unmatched dedupe
find_unmatched_target_modules names targets = unmatched names (dedupe targets)

-- ".".join(part for part in name.split(".") if part != "base_layer"), in one pass: `part` is the
-- part that has been read, the last code first.
unfoldable reverse_onto : List ℕ → List ℕ → List ℕ
reverse_onto [] acc = acc
reverse_onto (c ∷ cs) acc = reverse_onto cs (c ∷ acc)

unfoldable split_dots : List ℕ → (part : List ℕ) → List (List ℕ)
unfolding reverse_onto
split_dots [] part = reverse_onto part [] ∷ []
split_dots (c ∷ cs) part =
    let next = split_dots cs (c ∷ part) in
    let closed = split_dots cs [] in if c == 46 then reverse_onto part [] ∷ closed else next

unfoldable drop_wrappers : List (List ℕ) → List (List ℕ)
unfolding same_codes codes
drop_wrappers [] = []
drop_wrappers (p ∷ ps) =
    let rest = drop_wrappers ps in if same_codes p (codes "base_layer") then rest else p ∷ rest

unfoldable append_codes : List ℕ → List ℕ → List ℕ
append_codes [] n = n
append_codes (c ∷ m) n = c ∷ append_codes m n

unfoldable join_dots : List (List ℕ) → List ℕ
unfolding append_codes
join_dots [] = []
join_dots (p ∷ []) = p
join_dots (p ∷ q ∷ ps) = append_codes p (46 ∷ join_dots (q ∷ ps))

unfoldable pub unwrapped : List ℕ → List ℕ
unfolding split_dots drop_wrappers join_dots
unwrapped name = join_dots (drop_wrappers (split_dots name []))

unfoldable pub find_unmatched_target_parameters :
    (names : List (List ℕ)) → List String → List String
unfolding unwrapped find_unmatched_target_modules
find_unmatched_target_parameters names targets =
    find_unmatched_target_modules (map unwrapped names) targets

-- set(xs) ^ set(ys), as a list
unfoldable missing_from : List String → List String → List String
unfolding elem
missing_from ys [] = []
missing_from ys (x ∷ xs) = let rest = missing_from ys xs in if elem ys x then rest else x ∷ rest

unfoldable append_names : List String → List String → List String
append_names [] ys = ys
append_names (x ∷ xs) ys = x ∷ append_names xs ys

unfoldable pub difference : List String → List String → List String
unfolding missing_from append_names
difference xs ys = append_names (missing_from ys xs) (missing_from xs ys)

-- Whether the difference is not empty and has only the given names.
abbrev differs_only_by : List String → List String → Bool
differs_only_by names [] = false
differs_only_by names (x ∷ xs) = all_in (x ∷ xs) names

unfoldable pub routed_expert_mismatch_hint : (actual expected : List String) → Option String
unfolding difference all_in
routed_expert_mismatch_hint actual expected =
    if differs_only_by expert_parameters (difference actual expected)
    then some "The two LoRA geometries differ only by the mlp.experts.* parameters"
    else none

-- QWEN3_5_OPTIONAL_GATE_TARGET_MODULES
abbrev pub gate_modules : List String
gate_modules = "linear_attn.in_proj_b" ∷ "linear_attn.in_proj_a" ∷ []

unfoldable pub gated_deltanet_mismatch_hint : (actual expected : List String) → Option String
unfolding difference all_in
gated_deltanet_mismatch_hint actual expected =
    if differs_only_by deltanet_modules (difference actual expected)
    then (if all_in (difference actual expected) gate_modules
        then some "The two module sets differ only by the optional gate modules"
        else some "The two module sets differ only by the linear_attn.* modules")
    else none

elem-without :
    (x : String) (ys : List String) (t : String)
    → elem (without x ys) t ≡ (if str_eq x t then false else elem ys t)
unfolding without elem
elem-without x [] t = ground arith
elem-without x (y ∷ ys) t = ground (arith, eq_iff x y, eq_iff x t, eq_iff y t, elem-without x ys t)

elem-dedupe : (xs : List String) (t : String) → elem (dedupe xs) t ≡ elem xs t
unfolding dedupe elem
elem-dedupe [] t = refl
elem-dedupe (x ∷ xs) t = ground (arith, elem-without x (dedupe xs) t, elem-dedupe xs t)

elem-unmatched :
    (names : List (List ℕ)) (ts : List String) (t : String)
    → elem (unmatched names ts) t ≡ (elem ts t && not (any_fits names (codes t)))
unfolding unmatched elem
elem-unmatched names [] t = refl
elem-unmatched names (x ∷ ts) t =
    let same : str_eq x t ≡ true → any_fits names (codes x) ≡ any_fits names (codes t) =
      λ e. ap (λ s. any_fits names (codes s)) ((eq_iff x t).0 e) in
    ground (arith, same, elem-unmatched names ts t)

pub elem-find_unmatched :
    (names : List (List ℕ)) (targets : List String) (t : String)
    → elem (find_unmatched_target_modules names targets) t
      ≡ (elem targets t && not (any_fits names (codes t)))
unfolding find_unmatched_target_modules
elem-find_unmatched names targets t =
    elem-unmatched names (dedupe targets) t
    ∙ ap (λ b. b && not (any_fits names (codes t))) (elem-dedupe targets t)

-- ===== src/Lora/Unmatched/Matched.antt =====
-- What the suffix rule of src/tuft/backends/lora_modules.py means for names made of parts.
use tu_ft.Base.{
  ℕ, String, ◌≡◌, ◌≢◌, refl, sym, ◌∙◌, ap, subst, ◌↔◌, true, false, ◌||◌, List, [], ◌∷◌, ◌++◌, map,
  arith, ◌⊎◌, inl, inr, Bool-cases,
}
use tu_ft.Dict.{elem}
use tu_ft.Lora.Family.{codes}
use tu_ft.Lora.Unmatched.{
  same_codes, ends_with, fits, any_fits, reverse_onto, split_dots, drop_wrappers, append_codes,
  join_dots, unwrapped, find_unmatched_target_modules, find_unmatched_target_parameters,
  elem-find_unmatched,
}

-- A name is the target, or ends with a dot and the target.
abbrev pub Matches : (name target : List ℕ) → Type 0
Matches name target = (name ≡ target) ⊎ ((start : List ℕ) × (name ≡ start ++ (46 ∷ target)))

abbrev pub NoneMatches : List (List ℕ) → List ℕ → Type 0
NoneMatches [] target = Unit
NoneMatches (name ∷ names) target = (¬ Matches name target) × NoneMatches names target

-- Parts without a dot in them, and the name that they make with dots between them.
abbrev pub IsDotless : List ℕ → Type 0
IsDotless [] = Unit
IsDotless (c ∷ cs) = (c ≢ 46) × IsDotless cs

abbrev pub AreDotless : List (List ℕ) → Type 0
AreDotless [] = Unit
AreDotless (p ∷ ps) = IsDotless p × AreDotless ps

unfoldable pub joined : List (List ℕ) → List ℕ
joined [] = []
joined (p ∷ []) = p
joined (p ∷ q ∷ ps) = p ++ (46 ∷ joined (q ∷ ps))

-- The parts that are left without PEFT's wrappers.
abbrev pub Unwraps : (parts left : List (List ℕ)) → Type 0
Unwraps [] left = left ≡ []
Unwraps (p ∷ ps) left =
    ((p ≡ codes "base_layer") × Unwraps ps left)
    ⊎ ((p ≢ codes "base_layer") × ((rest : List (List ℕ)) × ((left ≡ p ∷ rest) × Unwraps ps rest)))

-- Each list of parts has no dots in it, and leaves the list at its place.
abbrev pub AllUnwrap : List (List (List ℕ)) → List (List (List ℕ)) → Type 0
AllUnwrap [] [] = Unit
AllUnwrap [] (left ∷ lefts) = ⊥
AllUnwrap (parts ∷ paths) [] = ⊥
AllUnwrap (parts ∷ paths) (left ∷ lefts) =
    (AreDotless parts × Unwraps parts left) × AllUnwrap paths lefts

same_codes-eq : (m n : List ℕ) → same_codes m n ≡ true → m ≡ n
unfolding same_codes
same_codes-eq [] [] h = refl
same_codes-eq [] (n ∷ ns) h = ground arith
same_codes-eq (m ∷ ms) [] h = ground arith
same_codes-eq (m ∷ ms) (n ∷ ns) h = ground (arith, same_codes-eq ms ns)

same_codes_self : (m : List ℕ) → same_codes m m ≡ true
unfolding same_codes
same_codes_self [] = refl
same_codes_self (m ∷ ms) = ground (arith, same_codes_self ms)

ends_with-start :
    (name suffix : List ℕ)
    → ends_with name suffix ≡ true
    → (start : List ℕ) × (name ≡ start ++ suffix)
unfolding ends_with
ends_with-start [] suffix h = ([], same_codes-eq [] suffix h)
ends_with-start (c ∷ name) suffix h = elim (Bool-cases (same_codes (c ∷ name) suffix)) [
  | inl e ↦ ([], same_codes-eq (c ∷ name) suffix e)
  | inr e ↦
      let r = ends_with-start name suffix (ground (arith, e)) in (c ∷ r.0, ap (λ n. c ∷ n) r.1)
]

ends_with-append : (start suffix : List ℕ) → ends_with (start ++ suffix) suffix ≡ true
unfolding ends_with
ends_with-append [] [] = refl
ends_with-append [] (c ∷ suffix) = ground (arith, same_codes_self (c ∷ suffix))
ends_with-append (c ∷ start) suffix = ground (arith, ends_with-append start suffix)

fits-Matches : (name target : List ℕ) → fits name target ≡ true → Matches name target
unfolding fits
fits-Matches name target h = elim (Bool-cases (same_codes name target)) [
  | inl e ↦ inl (same_codes-eq name target e)
  | inr e ↦ inr (ends_with-start name (46 ∷ target) (ground (arith, e)))
]

Matches-fits : (name target : List ℕ) → Matches name target → fits name target ≡ true
unfolding fits
Matches-fits name target (inl e) =
    subst (λ n. (same_codes n target || ends_with n (46 ∷ target)) ≡ true) (sym e)
      (ground (arith, same_codes_self target))
Matches-fits name target (inr (start, e)) =
    subst (λ n. (same_codes n target || ends_with n (46 ∷ target)) ≡ true) (sym e)
      (ground (arith, ends_with-append start (46 ∷ target)))

any_fits-NoneMatches :
    (names : List (List ℕ)) (target : List ℕ)
    → any_fits names target ≡ false
    → NoneMatches names target
unfolding any_fits
any_fits-NoneMatches [] target h = tt
any_fits-NoneMatches (name ∷ names) target h = (
  (λ m. ground (arith, Matches-fits name target m)),
  any_fits-NoneMatches names target (ground arith),
)

NoneMatches-any_fits :
    (names : List (List ℕ)) (target : List ℕ)
    → NoneMatches names target
    → any_fits names target ≡ false
unfolding any_fits
NoneMatches-any_fits [] target h = refl
NoneMatches-any_fits (name ∷ names) target h = elim (Bool-cases (fits name target)) [
  | inl e ↦ absurd (h.0 (fits-Matches name target e))
  | inr e ↦ ground (arith, e, NoneMatches-any_fits names target h.1)
]

reverse_onto_twice : (q a b : List ℕ) → reverse_onto (reverse_onto q a) b ≡ reverse_onto a (q ++ b)
unfolding reverse_onto
reverse_onto_twice [] a b = refl
reverse_onto_twice (c ∷ q) a b = reverse_onto_twice q (c ∷ a) b

append-[] : (q : List ℕ) → q ++ [] ≡ q
append-[] [] = refl
append-[] (c ∷ q) = ap (λ r. c ∷ r) (append-[] q)

part_read : (q : List ℕ) → reverse_onto (reverse_onto q []) [] ≡ q
unfolding reverse_onto
part_read q = reverse_onto_twice q [] [] ∙ append-[] q

split_dots-append :
    (q rest part : List ℕ)
    → IsDotless q
    → split_dots (q ++ rest) part ≡ split_dots rest (reverse_onto q part)
unfolding split_dots reverse_onto
split_dots-append [] rest part h = refl
split_dots-append (c ∷ q) rest part h = ground (arith, h.0, split_dots-append q rest (c ∷ part) h.1)

split_dots-joined :
    (p : List ℕ) (ps : List (List ℕ))
    → AreDotless (p ∷ ps)
    → split_dots (joined (p ∷ ps)) [] ≡ p ∷ ps
unfolding split_dots joined
split_dots-joined p [] h =
    ap (λ n. split_dots n []) (sym (append-[] p))
    ∙ split_dots-append p [] [] h.0
    ∙ ap (λ q. q ∷ []) (part_read p)
split_dots-joined p (q ∷ ps) h =
    split_dots-append p (46 ∷ joined (q ∷ ps)) [] h.0
    ∙ ap (λ r. r ∷ split_dots (joined (q ∷ ps)) []) (part_read p)
    ∙ ap (λ rs. p ∷ rs) (split_dots-joined q ps h.1)

append_codes-append : (m n : List ℕ) → append_codes m n ≡ m ++ n
unfolding append_codes
append_codes-append [] n = refl
append_codes-append (c ∷ m) n = ap (λ r. c ∷ r) (append_codes-append m n)

join_dots-joined : (ps : List (List ℕ)) → join_dots ps ≡ joined ps
unfolding join_dots joined
join_dots-joined [] = refl
join_dots-joined (p ∷ []) = refl
join_dots-joined (p ∷ q ∷ ps) =
    append_codes-append p (46 ∷ join_dots (q ∷ ps))
    ∙ ap (λ n. p ++ (46 ∷ n)) (join_dots-joined (q ∷ ps))

Unwraps-drop_wrappers :
    (parts left : List (List ℕ)) → Unwraps parts left → drop_wrappers parts ≡ left
unfolding drop_wrappers
Unwraps-drop_wrappers [] left h = sym h
Unwraps-drop_wrappers (p ∷ ps) left (inl h) =
    let same : same_codes p (codes "base_layer") ≡ true =
      ap (λ q. same_codes p q) (sym h.0) ∙ same_codes_self p in
    ground (arith, same, Unwraps-drop_wrappers ps left h.1)
Unwraps-drop_wrappers (p ∷ ps) left (inr (other, (rest, (e, u)))) =
    elim (Bool-cases (same_codes p (codes "base_layer"))) [
      | inl same ↦ absurd (other (same_codes-eq p (codes "base_layer") same))
      | inr differs ↦
          rw (differs, drop_wrappers) (ap (λ r. p ∷ r) (Unwraps-drop_wrappers ps rest u) ∙ sym e)
    ]

unwrapped_empty : unwrapped [] ≡ joined []
unfolding unwrapped joined split_dots reverse_onto drop_wrappers same_codes join_dots codes
unwrapped_empty = refl

unwrapped-joined :
    (parts left : List (List ℕ))
    → AreDotless parts
    → Unwraps parts left
    → unwrapped (joined parts) ≡ joined left
unfolding unwrapped joined
unwrapped-joined [] left d u = unwrapped_empty ∙ ap joined (sym u)
unwrapped-joined (p ∷ ps) left d u =
    ap (λ qs. join_dots (drop_wrappers qs)) (split_dots-joined p ps d)
    ∙ ap join_dots (Unwraps-drop_wrappers (p ∷ ps) left u)
    ∙ join_dots-joined left

map-unwrapped :
    (paths lefts : List (List (List ℕ)))
    → AllUnwrap paths lefts
    → map unwrapped (map joined paths) ≡ map joined lefts
map-unwrapped [] [] h = refl
map-unwrapped [] (left ∷ lefts) h = absurd h
map-unwrapped (parts ∷ paths) [] h = absurd h
map-unwrapped (parts ∷ paths) (left ∷ lefts) h =
    ap (λ n. n ∷ map unwrapped (map joined paths)) (unwrapped-joined parts left h.0.0 h.0.1)
    ∙ ap (λ ns. joined left ∷ ns) (map-unwrapped paths lefts h.1)

unmatched-NoneMatches :
    (names : List (List ℕ)) (targets : List String) (t : String)
    → (elem (find_unmatched_target_modules names targets) t ≡ true)
      ↔ ((elem targets t ≡ true) × NoneMatches names (codes t))
unmatched-NoneMatches names targets t =
    let e = elem-find_unmatched names targets t in
    (
      λ h. (ground (arith, e), any_fits-NoneMatches names (codes t) (ground (arith, e))),
      λ h. ground (arith, e, NoneMatches-any_fits names (codes t) h.1),
    )

-- For names that are parts with dots between them, no part with a dot in it, and for what is left of
-- the parts where each that is PEFT's wrapper `base_layer` is dropped: a target is reported for the
-- modules exactly if it is asked for, and no name is the target or ends with a dot and the target;
-- and for the parameters exactly if it is asked for, and no name of the parts that are left is or
-- does.
pub find_unmatched-NoneMatches :
    (paths lefts : List (List (List ℕ))) (targets : List String) (t : String)
    → AllUnwrap paths lefts
    → ((elem (find_unmatched_target_modules (map joined paths) targets) t ≡ true)
        ↔ ((elem targets t ≡ true) × NoneMatches (map joined paths) (codes t)))
      × ((elem (find_unmatched_target_parameters (map joined paths) targets) t ≡ true)
          ↔ ((elem targets t ≡ true) × NoneMatches (map joined lefts) (codes t)))
unfolding find_unmatched_target_parameters
find_unmatched-NoneMatches paths lefts targets t h = (
  unmatched-NoneMatches (map joined paths) targets t,
  subst
      (λ names.
        (elem (find_unmatched_target_modules names targets) t ≡ true)
        ↔ ((elem targets t ≡ true) × NoneMatches (map joined lefts) (codes t)))
      (sym (map-unwrapped paths lefts h)) (unmatched-NoneMatches (map joined lefts) targets t),
)

-- ===== src/Tests/Signed.antt =====
-- The theorems on the signature of the configuration and on unmatched targets, on concrete inputs.
use tu_ft.Base.{
  ℕ, String, ◌≡◌, ◌≢◌, refl, ap, false, inl, inr, ◌↔◌, Bool, true, none, some, List, [], ◌∷◌, map,
  ◌==◌, arith,
}
use tu_ft.Dict.{elem}
use tu_ft.Persistence.{Codec, save_record}
use tu_ft.Persistence.Signature.{
  Item, plain, ConfigSignature, matches, get_diff, not_fresh, validate_config_signature,
}
use tu_ft.Persistence.Mismatch.{matches-get_diff, validate_config_signature-save}
use tu_ft.Lora.Family.{codes}
use tu_ft.Lora.Unmatched.{
  same_codes, find_unmatched_target_modules, find_unmatched_target_parameters,
}
use tu_ft.Lora.Unmatched.Matched.{joined, NoneMatches, AllUnwrap, find_unmatched-NoneMatches}

abbrev equal : ℕ → ℕ → Bool
equal m n = m == n

abbrev str : Item ℕ → String
str x = ""

abbrev signature : ConfigSignature ℕ
signature = record {
  config_data = ("supported_models", plain 1) ∷ ("model_owner", plain 2) ∷ [];
  created_at = 5;
  namespace = "tuft";
}

abbrev changed : ConfigSignature ℕ
changed = record signature { config_data = ("supported_models", plain 3) ∷ [] }

abbrev codec : Codec (ConfigSignature ℕ) (ConfigSignature ℕ)
codec = record { enabled = true; dumps = λ r. some r; loads = λ t. some t }

equal_self : (n : ℕ) → equal n n ≡ true
equal_self n = ground arith

matches-get_diff_example :
    (matches equal str changed signature none ≡ true)
    ↔ (get_diff equal str changed signature none ≡ [])
matches-get_diff_example = matches-get_diff equal str changed signature none

validate_signature_example :
    validate_config_signature equal str codec signature
      (some ("MODEL_OWNER" ∷ []))
      (save_record codec "config_signature" signature []).0
    ≡ not_fresh
validate_signature_example =
    validate_config_signature-save equal str equal_self codec signature signature signature
      (some ("MODEL_OWNER" ∷ [])) [] signature refl refl refl refl refl

abbrev names : List (List ℕ)
names =
    codes "model.layers.0.self_attn.q_proj" ∷ codes "model.mlp.experts.base_layer.down_proj" ∷ []

abbrev wrapped : List (List ℕ)
wrapped = codes "mlp" ∷ codes "base_layer" ∷ codes "w" ∷ []

abbrev bare : List (List ℕ)
bare = codes "mlp" ∷ codes "w" ∷ []

not_wrapper : (p : List ℕ) → same_codes p (codes "base_layer") ≡ false → p ≢ codes "base_layer"
unfolding same_codes codes
not_wrapper p h e = ground (arith, ap (λ q. same_codes q (codes "base_layer")) e)

wrapped-AllUnwrap : AllUnwrap (wrapped ∷ []) (bare ∷ [])
unfolding codes same_codes
wrapped-AllUnwrap = (
  (
    (omega arith, (omega arith, (omega arith, tt))),
    inr (
      not_wrapper (codes "mlp") refl,
      (codes "w" ∷ [], (refl, inl (refl, inr (not_wrapper (codes "w") refl, ([], (refl, refl)))))),
    ),
  ),
  tt,
)

find_unmatched-NoneMatches_example :
    ((elem (find_unmatched_target_modules (map joined (wrapped ∷ [])) ("mlp.w" ∷ [])) "mlp.w"
        ≡ true)
      ↔ ((elem ("mlp.w" ∷ []) "mlp.w" ≡ true)
          × NoneMatches (map joined (wrapped ∷ [])) (codes "mlp.w")))
    × ((elem (find_unmatched_target_parameters (map joined (wrapped ∷ [])) ("mlp.w" ∷ [])) "mlp.w"
          ≡ true)
        ↔ ((elem ("mlp.w" ∷ []) "mlp.w" ≡ true)
            × NoneMatches (map joined (bare ∷ [])) (codes "mlp.w")))
find_unmatched-NoneMatches_example =
    find_unmatched-NoneMatches (wrapped ∷ []) (bare ∷ []) ("mlp.w" ∷ []) "mlp.w" wrapped-AllUnwrap

-- The suffix rule on names with and without a wrapper.
found_modules :
    find_unmatched_target_modules names ("q_proj" ∷ "experts.down_proj" ∷ "proj" ∷ [])
    ≡ "experts.down_proj" ∷ "proj" ∷ []
unfolding find_unmatched_target_modules
found_modules = refl

found_parameters :
    find_unmatched_target_parameters names ("experts.down_proj" ∷ "proj" ∷ []) ≡ "proj" ∷ []
unfolding find_unmatched_target_parameters
found_parameters = refl

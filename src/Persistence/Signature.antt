-- ===== src/Persistence/Signature.antt =====
-- src/tuft/persistence/redis_store.py: the signature of the configuration that Redis keeps, and its
-- comparison when the server starts. A JSON value is a list of objects and of scalars `A`, or a
-- single `A`, or null; `same` is Python's `==` on `A` and `str` the text of a normalized entry.
use tu_ft.Base.{
  ℕ, String, Bool, true, false, not, ◌&&◌, Option, none, some, List, [], ◌∷◌, map, str_eq, ◌==◌,
  if◌then◌else◌,
}
use Prim.Native.String.{compare}
use Prim.Native.Nat.{Ordering}
use tu_ft.Dict
use tu_ft.Dict.{Dict, elem, get-put, get-put_self}
use tu_ft.Lora.Family.{codes, lower}
use tu_ft.Persistence.{Codec, load_record}

pub data Item (A : Type 0) : Type 0 where
  object : Dict A → Item A
  scalar : A → Item A

pub data Value (A : Type 0) : Type 0 where
  array : List (Item A) → Value A
  plain : A → Value A
  null : Value A

pub record ConfigSignature (A : Type 0) : Type 0 where
  pub config_data : Dict (Value A)
  pub created_at : ℕ
  pub namespace : String

abbrev text_le : String → String → Bool
text_le a b = elim (compare a b) [ Ordering.gt ↦ false | _ ↦ true ]

-- sorted(xs, key=key)
unfoldable pub insert_by : {X : Type 0} → (X → String) → X → List X → List X
insert_by key x [] = x ∷ []
insert_by key x (y ∷ ys) = if text_le (key x) (key y) then x ∷ y ∷ ys else y ∷ insert_by key x ys

unfoldable pub sort_by : {X : Type 0} → (X → String) → List X → List X
unfolding insert_by
sort_by key [] = []
sort_by key (x ∷ xs) = insert_by key x (sort_by key xs)

-- len(keys) > 0
abbrev pub has_existing_data : {T : Type 0} → Dict T → Bool
has_existing_data [] = false
has_existing_data (x ∷ rest) = true

unfoldable same_codes : List ℕ → List ℕ → Bool
same_codes [] [] = true
same_codes (m ∷ ms) (n ∷ ns) = m == n && same_codes ms ns
same_codes _ _ = false

module _ {A : Type 0} (same : A → A → Bool) (str : Item A → String) where
  abbrev first : String × A → String
  first p = p.0

  abbrev normalize_item : Item A → Item A
  normalize_item (object d) = object (sort_by first d)
  normalize_item (scalar a) = scalar a

  -- _normalize_for_comparison
  unfoldable pub normalize_for_comparison : Value A → Value A
  unfolding sort_by
  normalize_for_comparison (array xs) = array (sort_by str (map normalize_item xs))
  normalize_for_comparison (plain a) = plain a
  normalize_for_comparison null = null

  unfoldable pub same_dict : Dict A → Dict A → Bool
  same_dict [] [] = true
  same_dict ((j, a) ∷ d) ((k, b) ∷ e) = str_eq j k && same a b && same_dict d e
  same_dict _ _ = false

  abbrev pub same_item : Item A → Item A → Bool
  same_item (object d) (object e) = same_dict d e
  same_item (scalar a) (scalar b) = same a b
  same_item _ _ = false

  unfoldable pub same_items : List (Item A) → List (Item A) → Bool
  unfolding same_dict
  same_items [] [] = true
  same_items (x ∷ xs) (y ∷ ys) = same_item x y && same_items xs ys
  same_items _ _ = false

  abbrev pub same_value : Value A → Value A → Bool
  same_value (array xs) (array ys) = same_items xs ys
  same_value (plain a) (plain b) = same a b
  same_value null null = true
  same_value _ _ = false

  abbrev pub or_none : Value A → Option (Value A)
  or_none null = none
  or_none v = some v

  -- _get_field_value; `None` for a missing field and for null
  unfoldable pub get_field_value : Dict (Value A) → (field_name : String) → Option (Value A)
  unfolding codes lower same_codes
  get_field_value [] field_name = none
  get_field_value ((k, v) ∷ d) field_name =
      if same_codes (codes k) (lower (codes field_name))
      then or_none v
      else get_field_value d field_name

  abbrev pub same_field : Option (Value A) → Option (Value A) → Bool
  same_field none none = true
  same_field (some v) (some w) =
      same_value (normalize_for_comparison v) (normalize_for_comparison w)
  same_field _ _ = false

  -- _compare_field
  unfoldable pub compare_field : ConfigSignature A → ConfigSignature A → String → Bool
  unfolding get_field_value normalize_for_comparison same_items
  compare_field c o field_name =
      same_field (get_field_value c.config_data field_name)
        (get_field_value o.config_data field_name)

  abbrev pub Diff : Type 0
  Diff = Option (Value A) × Option (Value A)

  -- _get_field_diff
  unfoldable pub get_field_diff : ConfigSignature A → ConfigSignature A → String → Option Diff
  unfolding get_field_value normalize_for_comparison same_items
  get_field_diff c o field_name =
      if not (
        same_field (get_field_value c.config_data field_name)
          (get_field_value o.config_data field_name))
      then some (get_field_value c.config_data field_name, get_field_value o.config_data field_name)
      else none

  -- The loops of `matches` and of `get_diff`.
  unfoldable pub all_match : ConfigSignature A → ConfigSignature A → List String → Bool
  unfolding compare_field
  all_match c o [] = true
  all_match c o (f ∷ fs) =
      let rest = all_match c o fs in if not (compare_field c o f) then false else rest

  abbrev pub put_diff : String → Option Diff → Dict Diff → Dict Diff
  put_diff f none diff = diff
  put_diff f (some d) diff = Dict.put diff f d

  unfoldable pub collect_diff :
      ConfigSignature A → ConfigSignature A → List String → Dict Diff → Dict Diff
  unfolding get_field_diff
  collect_diff c o [] diff = diff
  collect_diff c o (f ∷ fs) diff = collect_diff c o fs (put_diff f (get_field_diff c o f) diff)

  -- _get_fields_to_check, and PersistenceConfig.get_check_fields where a list is given
  unfoldable pub get_fields_to_check : Option (List String) → List String
  unfolding elem
  get_fields_to_check none = "SUPPORTED_MODELS" ∷ []
  get_fields_to_check (some fields) =
      if not (elem fields "SUPPORTED_MODELS") then "SUPPORTED_MODELS" ∷ fields else fields

  unfoldable pub matches : ConfigSignature A → ConfigSignature A → Option (List String) → Bool
  unfolding all_match get_fields_to_check
  matches c o check_fields = all_match c o (get_fields_to_check check_fields)

  unfoldable pub get_diff : ConfigSignature A → ConfigSignature A → Option (List String) → Dict Diff
  unfolding collect_diff get_fields_to_check
  get_diff c o check_fields = collect_diff c o (get_fields_to_check check_fields) []

  -- PersistenceConfig.get_check_fields, of a persistence configuration
  abbrev pub checked : Option (List String) → Option (List String)
  checked none = none
  checked (some fields) = some (get_fields_to_check (some fields))

  -- What `validate_config_signature` returns (whether the start is fresh) or raises:
  -- ConfigMismatchError with its diff, or the corrupted state.
  pub data Validated : Type 0 where
    fresh : Validated
    not_fresh : Validated
    corrupted_state : Validated
    mismatch : Dict Diff → Validated

  -- validate_config_signature, for the keys of a namespace
  unfoldable pub validate_config_signature :
      {T : Type 0}
      → Codec (ConfigSignature A) T
      → (current : ConfigSignature A) → (check_fields : Option (List String)) → Dict T
      → Validated
  unfolding load_record get_fields_to_check matches get_diff
  validate_config_signature codec current check_fields redis =
      elim (load_record codec "config_signature" redis) [
        | none ↦ if codec.enabled && has_existing_data redis then corrupted_state else fresh
        | some stored ↦
            if not (matches current stored (checked check_fields))
            then mismatch (get_diff current stored (checked check_fields))
            else not_fresh
      ]

-- ===== src/Persistence/Mismatch.antt =====
-- When the signatures match, and what the start then does.
use tu_ft.Base.{
  String, ◌≡◌, refl, sym, ◌∙◌, ap, Bool, true, false, Option, none, some, List, [], ◌∷◌, arith,
  eq_iff, if◌then◌else◌, ◌↔◌, inl, inr, Bool-cases,
}
use tu_ft.Dict
use tu_ft.Dict.{Dict, get-put_self}
use tu_ft.Persistence.{Codec, save_record, load_record, load_text}
use tu_ft.Persistence.Signature.{
  Item, Value, object, scalar, array, plain, null, ConfigSignature, normalize_for_comparison,
  same_dict, same_item, same_items, same_value, get_field_value, same_field, compare_field,
  get_field_diff, Diff, all_match, put_diff, collect_diff, get_fields_to_check, matches, get_diff,
  not_fresh, validate_config_signature, has_existing_data, checked,
}

has_existing_data-put :
    {V : Type 0} (d : Dict V) (k : String) (v : V) → has_existing_data (Dict.put d k v) ≡ true
unfolding Dict.put
has_existing_data-put [] k v = refl
has_existing_data-put ((j, w) ∷ d) k v = ground arith

has_existing_data-nil : {V : Type 0} (d : Dict V) → has_existing_data d ≡ false → d ≡ []
has_existing_data-nil [] h = refl
has_existing_data-nil (x ∷ d) h = ground arith

load_record-save :
    {R T : Type 0} (codec : Codec R T) (saved read : R) (redis : Dict T) (t : T)
    → codec.enabled ≡ true
    → codec.dumps saved ≡ some t
    → codec.loads t ≡ some read
    → load_record codec "config_signature" (save_record codec "config_signature" saved redis).0
      ≡ some read
unfolding load_record save_record load_text
load_record-save codec saved read redis t en d l =
    ground (arith, get-put_self redis "config_signature" t)

module _ {A : Type 0} (same : A → A → Bool) (str : Item A → String) where
  put_diff-grows :
      (c o : ConfigSignature A) (f : String) (diff : Dict (Diff same str))
      → has_existing_data (put_diff same str f (get_field_diff same str c o f) diff)
        ≡ (if compare_field same str c o f then has_existing_data diff else true)
  unfolding get_field_diff compare_field
  put_diff-grows c o f diff =
      let v = get_field_value same str c.config_data f in
      let w = get_field_value same str o.config_data f in
      elim (Bool-cases (same_field same str v w)) [
        | inl e ↦ rw (e, get_field_diff, compare_field) refl
        | inr e ↦ rw (e, get_field_diff, compare_field) (has_existing_data-put diff f (v, w))
      ]

  -- A diff is not empty once a field differs.
  collect_diff-all_match :
      (c o : ConfigSignature A) (fs : List String) (diff : Dict (Diff same str))
      → has_existing_data (collect_diff same str c o fs diff)
        ≡ (if all_match same str c o fs then has_existing_data diff else true)
  unfolding collect_diff all_match
  collect_diff-all_match c o [] diff = refl
  collect_diff-all_match c o (f ∷ fs) diff = ground (
    arith,
    put_diff-grows c o f diff,
    collect_diff-all_match c o fs (put_diff same str f (get_field_diff same str c o f) diff),
  )

  -- `matches` holds exactly where `get_diff` is empty.
  pub matches-get_diff :
      (c o : ConfigSignature A) (check_fields : Option (List String))
      → (matches same str c o check_fields ≡ true) ↔ (get_diff same str c o check_fields ≡ [])
  unfolding matches get_diff
  matches-get_diff c o check_fields =
      let fields = get_fields_to_check same str check_fields in
      let e = collect_diff-all_match c o fields [] in
      (
        λ m. has_existing_data-nil (collect_diff same str c o fields []) (ground (arith, e, m)),
        λ n. ground (arith, e, ap {A = Dict (Diff same str)} has_existing_data n),
      )

  -- Signatures with the same data match, if Python's `==` is reflexive on the scalars.
  module _ (self : (a : A) → same a a ≡ true) where
    same_dict_self : (d : Dict A) → same_dict same str d d ≡ true
    unfolding same_dict
    same_dict_self [] = refl
    same_dict_self ((k, a) ∷ d) = ground (arith, eq_iff k k, self a, same_dict_self d)

    same_item_self : (x : Item A) → same_item same str x x ≡ true
    same_item_self (object d) = same_dict_self d
    same_item_self (scalar a) = self a

    same_items_self : (xs : List (Item A)) → same_items same str xs xs ≡ true
    unfolding same_items
    same_items_self [] = refl
    same_items_self (x ∷ xs) = ground (arith, same_item_self x, same_items_self xs)

    same_value_self : (v : Value A) → same_value same str v v ≡ true
    same_value_self (array xs) = same_items_self xs
    same_value_self (plain a) = self a
    same_value_self null = refl

    same_field_self : (o : Option (Value A)) → same_field same str o o ≡ true
    same_field_self none = refl
    same_field_self (some v) = same_value_self (normalize_for_comparison same str v)

    all_match_self :
        (c o : ConfigSignature A) (fs : List String)
        → c.config_data ≡ o.config_data
        → all_match same str c o fs ≡ true
    unfolding all_match compare_field
    all_match_self c o [] e = refl
    all_match_self c o (f ∷ fs) e =
        let same_here =
          ap
            (λ d.
              same_field same str (get_field_value same str c.config_data f)
                (get_field_value same str d f))
            (sym e)
          ∙ same_field_self (get_field_value same str c.config_data f) in
        ground (arith, same_here, all_match_self c o fs e)

    matches_self :
        (c o : ConfigSignature A) (check_fields : Option (List String))
        → c.config_data ≡ o.config_data
        → matches same str c o check_fields ≡ true
    unfolding matches
    matches_self c o check_fields e =
        all_match_self c o (get_fields_to_check same str check_fields) e

    -- A start after the signature was saved, with a configuration of the same data, is accepted and is
    -- not fresh, whatever fields are checked, if pydantic reads back the data that it wrote.
    pub validate_config_signature-save :
        {T : Type 0} (codec : Codec (ConfigSignature A) T) (saved current read : ConfigSignature A)
        (check_fields : Option (List String)) (redis : Dict T) (t : T)
        → codec.enabled ≡ true
        → codec.dumps saved ≡ some t
        → codec.loads t ≡ some read
        → read.config_data ≡ saved.config_data
        → current.config_data ≡ saved.config_data
        → validate_config_signature same str codec current check_fields
            (save_record codec "config_signature" saved redis).0
          ≡ not_fresh
    unfolding validate_config_signature
    validate_config_signature-save codec saved current read check_fields redis t en d l r c =
        let m = matches_self current read (checked same str check_fields) (c ∙ sym r) in
        rw (load_record-save codec saved read redis t en d l, validate_config_signature) (rw m refl)

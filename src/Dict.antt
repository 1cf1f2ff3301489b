-- ===== src/Dict.antt =====
-- Python's `dict` with text keys, in insertion order: assigning to a key that is present keeps its
-- place, and a new key goes to the end.
pub mod Unique
use tu_ft.Base.{
  String, ◌≡◌, refl, Bool, true, false, Option, none, some, List, [], ◌∷◌, arith, str_eq, eq_iff,
  if◌then◌else◌, is_some,
}

abbrev pub Dict {ℓ} : Type ℓ → Type ℓ
Dict V = List (String × V)

module _ {ℓ} {V : Type ℓ} where
  -- d.get(k)
  unfoldable pub get : Dict V → String → Option V
  get [] k = none
  get ((j, v) ∷ d) k = if str_eq j k then some v else get d k

  -- k in d
  unfoldable pub has : Dict V → String → Bool
  has [] k = false
  has ((j, v) ∷ d) k = if str_eq j k then true else has d k

  -- d[k] = v
  unfoldable pub put : Dict V → String → V → Dict V
  put [] k v = (k, v) ∷ []
  put ((j, w) ∷ d) k v = if str_eq j k then (j, v) ∷ d else (j, w) ∷ put d k v

  -- d.pop(k, None), del d[k]
  unfoldable pub pop : Dict V → String → Dict V
  pop [] k = []
  pop ((j, w) ∷ d) k = let rest = pop d k in if str_eq j k then rest else (j, w) ∷ rest

  -- list(d.keys())
  unfoldable pub keys : Dict V → List String
  keys [] = []
  keys ((j, v) ∷ d) = j ∷ keys d

  -- list(d.values())
  unfoldable pub values : Dict V → List V
  values [] = []
  values ((j, v) ∷ d) = v ∷ values d

  pub get-put :
      (d : Dict V) (k j : String) (v : V)
      → get (put d k v) j ≡ (if str_eq k j then some v else get d j)
  unfolding get put
  get-put [] k j v = refl
  get-put ((i, w) ∷ d) k j v = ground (arith, eq_iff k j, eq_iff i k, eq_iff i j, get-put d k j v)

  pub get-pop :
      (d : Dict V) (k j : String) → get (pop d k) j ≡ (if str_eq k j then none else get d j)
  unfolding get pop
  get-pop [] k j = ground arith
  get-pop ((i, w) ∷ d) k j = ground (arith, eq_iff k j, eq_iff i k, eq_iff i j, get-pop d k j)

  pub get-put_self : (d : Dict V) (k : String) (v : V) → get (put d k v) k ≡ some v
  get-put_self d k v = ground (arith, get-put d k k v, eq_iff k k)

  pub has-eq-is_some : (d : Dict V) (k : String) → has d k ≡ is_some (get d k)
  unfolding has get
  has-eq-is_some [] k = refl
  has-eq-is_some ((i, w) ∷ d) k = ground (arith, has-eq-is_some d k)

  pub has-put :
      (d : Dict V) (k j : String) (v : V)
      → has (put d k v) j ≡ (if str_eq k j then true else has d j)
  has-put d k j v =
      ground (arith, has-eq-is_some (put d k v) j, has-eq-is_some d j, get-put d k j v)

  -- Every key of the list is popped.
  unfoldable pub pop_all : Dict V → List String → Dict V
  pop_all d [] = d
  pop_all d (k ∷ ks) = pop_all (pop d k) ks

-- x in l
unfoldable pub elem : List String → String → Bool
elem [] j = false
elem (k ∷ ks) j = if str_eq k j then true else elem ks j

pub get-pop_all {ℓ} :
    {V : Type ℓ} (d : Dict V) (ks : List String) (j : String)
    → get (pop_all d ks) j ≡ (if elem ks j then none else get d j)
unfolding pop_all elem
get-pop_all d [] j = refl
get-pop_all d (k ∷ ks) j = ground (arith, get-pop_all (pop d k) ks j, get-pop d k j)

-- [key for key, value in d.items() if test(value)]
unfoldable pub keys_where {ℓ} : {V : Type ℓ} → (V → Bool) → Dict V → List String
keys_where test [] = []
keys_where test ((k, v) ∷ d) = let rest = keys_where test d in if test v then k ∷ rest else rest

abbrev pub test_at {ℓ} : {V : Type ℓ} → (V → Bool) → Option V → Bool
test_at test none = false
test_at test (some v) = test v

pub elem-keys {ℓ} : {V : Type ℓ} (d : Dict V) (k : String) → elem (keys d) k ≡ is_some (get d k)
unfolding keys elem get
elem-keys [] k = refl
elem-keys ((i, w) ∷ d) k = ground (arith, elem-keys d k)

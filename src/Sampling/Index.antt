-- ===== src/Sampling/Index.antt =====
-- Python's dict with numbers as keys, and its pairs in the order of the keys, as the history of a
-- sampling session keeps them.
use tu_ft.Base.{
  ℕ, max, ◌<◌, ◌≡◌, refl, ◌∙◌, Option, none, some, List, [], ◌∷◌, arith, leb, ◌==◌, if◌then◌else◌,
}

module _ {ℓ} {V : Type ℓ} where
  unfoldable pub get_at : List (ℕ × V) → ℕ → Option V
  get_at [] k = none
  get_at ((j, v) ∷ d) k = if j == k then some v else get_at d k

  unfoldable pub put_at : List (ℕ × V) → ℕ → V → List (ℕ × V)
  put_at [] k v = (k, v) ∷ []
  put_at ((j, w) ∷ d) k v = if j == k then (j, v) ∷ d else (j, w) ∷ put_at d k v

  -- max(d), `none` of an empty dict
  unfoldable pub max_key : List (ℕ × V) → Option ℕ
  max_key [] = none
  max_key ((k, v) ∷ d) = elim (max_key d) [ none ↦ some k | some m ↦ some (max k m) ]

  -- sorted
  unfoldable pub insert_pair : ℕ → V → List (ℕ × V) → List (ℕ × V)
  insert_pair k v [] = (k, v) ∷ []
  insert_pair k v ((j, w) ∷ d) = if leb k j then (k, v) ∷ (j, w) ∷ d else (j, w) ∷ insert_pair k v d

  unfoldable pub sort_pairs : List (ℕ × V) → List (ℕ × V)
  unfolding insert_pair
  sort_pairs [] = []
  sort_pairs ((k, v) ∷ d) = insert_pair k v (sort_pairs d)

  pub get-put_at :
      (d : List (ℕ × V)) (k j : ℕ) (v : V)
      → get_at (put_at d k v) j ≡ (if k == j then some v else get_at d j)
  unfolding get_at put_at
  get-put_at [] k j v = refl
  get-put_at ((i, w) ∷ d) k j v = ground (arith, get-put_at d k j v)

  get-insert_pair :
      (k : ℕ) (v : V) (d : List (ℕ × V)) (j : ℕ)
      → get_at (insert_pair k v d) j ≡ (if k == j then some v else get_at d j)
  unfolding get_at insert_pair
  get-insert_pair k v [] j = refl
  get-insert_pair k v ((i, w) ∷ d) j = ground (arith, get-insert_pair k v d j)

  pub get-sort_pairs : (d : List (ℕ × V)) (j : ℕ) → get_at (sort_pairs d) j ≡ get_at d j
  unfolding get_at sort_pairs
  get-sort_pairs [] j = refl
  get-sort_pairs ((k, v) ∷ d) j =
      ground (arith, get-insert_pair k v (sort_pairs d) j, get-sort_pairs d j)

  -- No key twice, and keys that ascend.
  abbrev pub IsUniqueAt : List (ℕ × V) → Type ℓ
  IsUniqueAt [] = Unit
  IsUniqueAt ((k, v) ∷ d) = (get_at d k ≡ none) × IsUniqueAt d

  abbrev pub IsAbove : ℕ → List (ℕ × V) → Type 0
  IsAbove k [] = Unit
  IsAbove k ((j, v) ∷ d) = (k < j) × IsAbove k d

  abbrev pub IsAscending : List (ℕ × V) → Type 0
  IsAscending [] = Unit
  IsAscending ((k, v) ∷ d) = IsAbove k d × IsAscending d

  pub put_at-IsUniqueAt :
      (d : List (ℕ × V)) (k : ℕ) (v : V) → IsUniqueAt d → IsUniqueAt (put_at d k v)
  unfolding put_at get_at
  put_at-IsUniqueAt [] k v u = (refl, tt)
  put_at-IsUniqueAt ((i, w) ∷ d) k v u =
      ground (arith, get-put_at d k i v, put_at-IsUniqueAt d k v u.1)

  IsAbove-trans : (i j : ℕ) (d : List (ℕ × V)) → i < j → IsAbove j d → IsAbove i d
  IsAbove-trans i j [] h a = tt
  IsAbove-trans i j ((k, v) ∷ d) h a = (omega arith, IsAbove-trans i j d h a.1)

  insert_pair-IsAbove :
      (i k : ℕ) (v : V) (d : List (ℕ × V)) → i < k → IsAbove i d → IsAbove i (insert_pair k v d)
  unfolding insert_pair
  insert_pair-IsAbove i k v [] h a = (h, tt)
  insert_pair-IsAbove i k v ((j, w) ∷ d) h a = ground (arith, insert_pair-IsAbove i k v d h a.1)

  insert_pair-IsAscending :
      (k : ℕ) (v : V) (d : List (ℕ × V))
      → get_at d k ≡ none
      → IsAscending d
      → IsAscending (insert_pair k v d)
  unfolding insert_pair get_at
  insert_pair-IsAscending k v [] g a = (tt, tt)
  insert_pair-IsAscending k v ((j, w) ∷ d) g a =
      ground
        (arith, insert_pair-IsAscending k v d, IsAbove-trans k j d, insert_pair-IsAbove j k v d)

  pub sort_pairs-IsAscending : (d : List (ℕ × V)) → IsUniqueAt d → IsAscending (sort_pairs d)
  unfolding sort_pairs
  sort_pairs-IsAscending [] u = tt
  sort_pairs-IsAscending ((k, v) ∷ d) u =
      insert_pair-IsAscending k v (sort_pairs d) (get-sort_pairs d k ∙ u.0)
        (sort_pairs-IsAscending d u.1)

  pub IsAbove-get_at : (k : ℕ) (d : List (ℕ × V)) → IsAbove k d → get_at d k ≡ none
  unfolding get_at
  IsAbove-get_at k [] a = refl
  IsAbove-get_at k ((j, v) ∷ d) a = ground (arith, IsAbove-get_at k d a.1)

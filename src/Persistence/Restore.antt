-- ===== src/Persistence/Restore.antt =====
-- The loop of the `_restore_from_redis` methods: every key under the prefix is loaded, and what
-- loads is put under its own id. `load` stands for `load_record` and for what the method does with
-- the loaded record, `none` where it skips it.
use tu_ft.Base.{
  String, ◌≡◌, refl, ◌∙◌, subst, Option, none, some, [], ◌∷◌, str_eq, eq_iff, arith, inl, inr,
  Bool-cases, if◌then◌else◌,
}
use tu_ft.Dict
use tu_ft.Dict.{Dict, get-put}
use tu_ft.Dict.Unique.{IsUnique, put-IsUnique}

module _ {R T : Type 0} (load : T → Option R) (id_of : R → String) where
  unfoldable pub restore_one : Option R → Dict R → Dict R
  restore_one none d = d
  restore_one (some r) d = Dict.put d (id_of r) r

  unfoldable pub restore_all : Dict T → Dict R → Dict R
  unfolding restore_one
  restore_all [] d = d
  restore_all ((k, t) ∷ rest) d = restore_all rest (restore_one (load t) d)

  abbrev pub load_at : Option T → Option R
  load_at none = none
  load_at (some t) = load t

  abbrev or_old : Option R → Option R → Option R
  or_old none old = old
  or_old (some r) old = some r

  -- What loads from under a key has the key as its id.
  abbrev pub IsOwn : Dict T → Type 0
  IsOwn redis =
      (k : String) (t : T) (r : R) → Dict.get redis k ≡ some t → load t ≡ some r → id_of r ≡ k

  tail-IsOwn :
      (k : String) (t : T) (rest : Dict T)
      → Dict.get rest k ≡ none
      → IsOwn ((k, t) ∷ rest)
      → IsOwn rest
  unfolding Dict.get
  tail-IsOwn k t rest u own j t' r h l = own j t' r (ground (arith, eq_iff k j)) l

  get-restore_one :
      (k : String) (o : Option R) (j : String) (d : Dict R)
      → ((r : R) → o ≡ some r → id_of r ≡ k)
      → Dict.get (restore_one o d) j
        ≡ (if str_eq k j then or_old o (Dict.get d j) else Dict.get d j)
  unfolding restore_one
  get-restore_one k none j d own = ground arith
  get-restore_one k (some r) j d own = ground (arith, own r refl, get-put d (id_of r) j r)

  get-restore_all_or :
      (redis : Dict T) (d : Dict R) (j : String)
      → IsUnique redis
      → IsOwn redis
      → Dict.get (restore_all redis d) j ≡ or_old (load_at (Dict.get redis j)) (Dict.get d j)
  unfolding restore_all Dict.get
  get-restore_all_or [] d j u own = refl
  get-restore_all_or ((k, t) ∷ rest) d j u own =
      get-restore_all_or rest (restore_one (load t) d) j u.1 (tail-IsOwn k t rest u.0 own)
      ∙ rw (get-restore_one k (load t) j d (λ r e. own k t r (ground (arith, eq_iff k k)) e))
          (elim (Bool-cases (str_eq k j)) [
            | inl same ↦
                rw (same, subst (λ i. Dict.get rest i ≡ none) ((eq_iff k j).0 same) u.0) refl
            | inr other ↦ rw other refl
          ])

  pub restore_all-IsUnique :
      (redis : Dict T) (d : Dict R) → IsUnique d → IsUnique (restore_all redis d)
  unfolding restore_all
  restore_all-IsUnique [] d u = u
  restore_all-IsUnique ((k, t) ∷ rest) d u =
      restore_all-IsUnique rest (restore_one (load t) d) (restore_one-IsUnique (load t) d u)
    where
      restore_one-IsUnique : (o : Option R) (d : Dict R) → IsUnique d → IsUnique (restore_one o d)
      restore_one-IsUnique none d u = u
      restore_one-IsUnique (some r) d u = put-IsUnique d (id_of r) r u

  -- A restart holds, under each key, what loads from under that key.
  pub get-restore_all :
      (redis : Dict T) (k : String)
      → IsUnique redis
      → IsOwn redis
      → Dict.get (restore_all redis []) k ≡ load_at (Dict.get redis k)
  unfolding Dict.get
  get-restore_all redis k u own =
      get-restore_all_or redis [] k u own ∙ or_none (load_at (Dict.get redis k))
    where
      or_none : (o : Option R) → or_old o none ≡ o
      or_none none = refl
      or_none (some r) = refl

-- ===== src/Futures/Effects.antt =====
-- What each operation of the registry does to the record at a given request id. Saving never touches
-- the registry itself.
use tu_ft.Base.{
  ℕ, String, ◌≡◌, refl, ap, ◌∙◌, Bool, true, Option, none, some, List, [], ◌∷◌, str_eq,
  if◌then◌else◌, opt_map, is_some, arith, eq_iff, Bool-cases, inl, inr,
}
use tu_ft.Dict
use tu_ft.Dict.{Dict, elem, elem-keys, get-put, get-pop}
use tu_ft.Errors.{future_cancelled}
use tu_ft.Futures.{FutureRecord, FutureStore, Env, failed, save_future}
use tu_ft.Futures.Marking.{mark_one, mark_each}

module _ {V T : Type 0} (env : Env V T) where
  pub records-save_future :
      (k : String) (s : FutureStore V T) → (save_future env k s).records ≡ s.records
  unfolding save_future
  records-save_future k s = ground arith

  pub next-save_future :
      (k : String) (s : FutureStore V T) → (save_future env k s).next_future_id ≡ s.next_future_id
  unfolding save_future
  next-save_future k s = ground arith

-- Each record stands under its own request id.
abbrev pub IsKeyed : {V : Type 0} → Dict (FutureRecord V) → Type 0
IsKeyed {V} d = (k : String) (r : FutureRecord V) → Dict.get d k ≡ some r → r.request_id ≡ k

-- What a method that fails the selected records makes of one record.
unfoldable pub fail_if :
    {V : Type 0} → (FutureRecord V → Bool) → String → FutureRecord V → FutureRecord V
fail_if test reason r =
    if test r
    then record r {
      status = failed;
      error = some (future_cancelled r.request_id reason);
      event = true;
    }
    else r

fail_if_twice :
    {V : Type 0} (test : FutureRecord V → Bool) (reason : String) (r : FutureRecord V)
    → fail_if test reason (fail_if test reason r) ≡ fail_if test reason r
unfolding fail_if
fail_if_twice test reason r = ground arith

module _ {V T : Type 0} (env : Env V T) (test : FutureRecord V → Bool) (reason : String) where
  get-mark_one :
      (k j : String) (s : FutureStore V T) (n : ℕ) (o : Option (FutureRecord V))
      → IsKeyed s.records
      → Dict.get s.records k ≡ o
      → Dict.get (mark_one env test reason o s n).0.records j
        ≡ (if str_eq k j then opt_map (fail_if test reason) o else Dict.get s.records j)
  unfolding mark_one fail_if
  get-mark_one k j s n none keyed e = ground (arith, eq_iff k j)
  get-mark_one k j s n (some r) keyed e = elim (Bool-cases (test r)) [
    | inl chosen ↦ rw (chosen, records-save_future, get-put, keyed k r e) refl
    | inr passed ↦ ground (arith, eq_iff k j)
  ]

  mark_one-IsKeyed :
      (k : String) (s : FutureStore V T) (n : ℕ) (o : Option (FutureRecord V))
      → IsKeyed s.records
      → Dict.get s.records k ≡ o
      → IsKeyed (mark_one env test reason o s n).0.records
  unfolding fail_if
  mark_one-IsKeyed k s n none keyed e j r h =
      ground (arith, get-mark_one k j s n none keyed e, keyed j r, eq_iff k j)
  mark_one-IsKeyed k s n (some r0) keyed e j r h =
      ground (arith, get-mark_one k j s n (some r0) keyed e, keyed j r, keyed k r0 e, eq_iff k j)

  next-mark_one :
      (s : FutureStore V T) (n : ℕ) (o : Option (FutureRecord V))
      → (mark_one env test reason o s n).0.next_future_id ≡ s.next_future_id
  unfolding mark_one
  next-mark_one s n none = refl
  next-mark_one s n (some r) = elim (Bool-cases (test r)) [
    | inl chosen ↦ rw (chosen, next-save_future) refl
    | inr passed ↦ rw passed refl
  ]

  -- One pass over the keys fails the selected records under those keys, and no others. A key that
  -- came twice would be failed to the same record again.
  pub get-mark_each :
      (ks : List String) (j : String) (s : FutureStore V T) (n : ℕ)
      → IsKeyed s.records
      → Dict.get (mark_each env test reason ks s n).0.records j ≡ (
          if elem ks j
          then opt_map (fail_if test reason) (Dict.get s.records j)
          else Dict.get s.records j)
  unfolding mark_each elem
  get-mark_each [] j s n keyed = refl
  get-mark_each (k ∷ ks) j s n keyed =
      let o = Dict.get s.records k in
      let (s', n') = mark_one env test reason o s n in
      ground (
        arith,
        get-mark_each ks j s' n' (mark_one-IsKeyed k s n o keyed refl),
        get-mark_one k j s n o keyed refl,
        eq_iff k j,
        twice (Dict.get s.records j),
      )
    where
      twice :
          (o : Option (FutureRecord V))
          → opt_map (fail_if test reason) (opt_map (fail_if test reason) o)
            ≡ opt_map (fail_if test reason) o
      twice none = refl
      twice (some r) = ap some (fail_if_twice test reason r)

  pub next-mark_each :
      (ks : List String) (s : FutureStore V T) (n : ℕ)
      → (mark_each env test reason ks s n).0.next_future_id ≡ s.next_future_id
  unfolding mark_each
  next-mark_each [] s n = refl
  next-mark_each (k ∷ ks) s n =
      let (s', n') = mark_one env test reason (Dict.get s.records k) s n in
      next-mark_each ks s' n' ∙ next-mark_one s n (Dict.get s.records k)

  -- The whole loop: every selected record of the registry is failed, and no other is changed.
  pub get-mark_keys :
      (j : String) (s : FutureStore V T)
      → IsKeyed s.records
      → Dict.get (mark_each env test reason (Dict.keys s.records) s 0).0.records j
        ≡ opt_map (fail_if test reason) (Dict.get s.records j)
  get-mark_keys j s keyed =
      get-mark_each (Dict.keys s.records) j s 0 keyed
      ∙ rw elem-keys (present (Dict.get s.records j))
    where
      present :
          (o : Option (FutureRecord V))
          → (if is_some o then opt_map (fail_if test reason) o else o)
            ≡ opt_map (fail_if test reason) o
      present none = refl
      present (some r) = refl

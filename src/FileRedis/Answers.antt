-- ===== src/FileRedis/Answers.antt =====
-- What the reading calls of the store answer after any other calls.
use tu_ft.Base.{
  ℕ, zero, suc, ◌≤◌, String, ◌≡◌, refl, ◌∙◌, ap, Bool, true, ◌&&◌, Option, none, some, List, [],
  ◌∷◌, arith, ltb, str_eq, eq_iff, is_some, if◌then◌else◌,
}
use tu_ft.Dict
use tu_ft.Dict.{elem, elem-keys, test_at}
use tu_ft.Dict.Unique.{IsUnique}
use tu_ft.FileRedis.{
  FileRedis, Value, absent, Call, load, run, is_expired, purge_expired, get, exists, select,
  pattern_or_all, scan_iter,
}
use tu_ft.FileRedis.Keys.{step-IsUnique}
use tu_ft.FileRedis.View.{live, view, get-purge_expired, get-exists-eq-view}
use tu_ft.FileRedis.Spec.{IsTimed, end_time, spec_run, view-run-eq-spec}

-- A value lasts where it has no time of expiry or the time 0, and otherwise before that time.
abbrev pub lasts : ℕ → Option ℕ → Bool
lasts now none = true
lasts now (some zero) = true
lasts now (some (suc t)) = ltb now (suc t)

abbrev pub shown : ℕ → Option Value → Option String
shown now none = none
shown now (some v) = if lasts now v.expires_at then some v.value else none

lasts-is_expired :
    (now : ℕ) (value : String) (t : Option ℕ)
    → live now (some (record { value = value; expires_at = t }))
      ≡ (if lasts now t then some value else none)
unfolding is_expired
lasts-is_expired now value none = refl
lasts-is_expired now value (some zero) = refl
lasts-is_expired now value (some (suc t)) = ground arith

live-shown : (now : ℕ) (o : Option Value) → live now o ≡ shown now o
live-shown now none = refl
live-shown now (some v) = lasts-is_expired now v.value v.expires_at

elem-select :
    (test : String → Bool) (ks : List String) (k : String)
    → elem (select test ks) k ≡ (elem ks k && test k)
unfolding select elem
elem-select test [] k = refl
elem-select test (x ∷ ks) k =
    let same : str_eq x k ≡ true → test x ≡ test k = λ e. ap test ((eq_iff x k).0 e) in
    ground (arith, same, elem-select test ks k)

purged-live :
    (now : ℕ) (o : Option Value)
    → is_some (if test_at (is_expired now) o then none else o) ≡ is_some (live now o)
purged-live now none = refl
purged-live now (some v) = ground arith

module _ (fnmatch : String → String → Bool) where
  elem-scan_iter :
      (now : ℕ) (match : Option String) (s : FileRedis) (k : String)
      → IsUnique s.entries
      → elem (scan_iter fnmatch now match s).1 k
        ≡ (is_some (view now k s) && fnmatch k (pattern_or_all match))
  unfolding scan_iter view
  elem-scan_iter now match s k u =
      elem-select (λ key. fnmatch key (pattern_or_all match))
        (Dict.keys (purge_expired now s).entries) k
      ∙ ap (λ b. b && fnmatch k (pattern_or_all match))
          (elem-keys (purge_expired now s).entries k
            ∙ ap is_some (get-purge_expired now s k u)
            ∙ purged-live now (Dict.get s.entries k))

  run-IsUnique :
      (cs : List (ℕ × Call)) (s : FileRedis)
      → IsUnique s.entries
      → IsUnique (run fnmatch cs s).entries
  unfolding run
  run-IsUnique [] s u = u
  run-IsUnique ((now, c) ∷ cs) s u = run-IsUnique cs _ (step-IsUnique fnmatch now c s u)

  -- A store that starts without a file answers, after any calls in the order of their times and at
  -- any time from the last call on, what the abstract store holds after the same calls, which purges
  -- nothing and takes a pipeline as its operations one after another: `get` gives the value that was
  -- last assigned to the key if it still lasts, `exists` says whether there is one, and `scan_iter`
  -- gives the keys that have one and fit the pattern.
  pub get-run-eq-spec :
      (cs : List (ℕ × Call)) (later : ℕ) (k : String) (match : Option String)
      → IsTimed 0 cs
      → end_time 0 cs ≤ later
      → let s = run fnmatch cs (load absent) in
        let value = shown later (spec_run cs (λ _. none) k) in
        ((get later k s).1 ≡ value)
        × (((exists later k s).1 ≡ (if is_some value then 1 else 0))
            × (elem (scan_iter fnmatch later match s).1 k
                ≡ (is_some value && fnmatch k (pattern_or_all match))))
  unfolding load
  get-run-eq-spec cs later k match timed h =
      let s = run fnmatch cs (load absent) in
      let u = run-IsUnique cs (load absent) tt in
      let e =
        view-run-eq-spec fnmatch cs later k timed h
        ∙ live-shown later (spec_run cs (λ _. none) k) in
      let a = get-exists-eq-view later later k k s u (omega arith) in
      (
        a.0 ∙ e,
        (
          a.1 ∙ ap (λ o. if is_some o then 1 else 0) e,
          elem-scan_iter later match s k u
              ∙ ap (λ o. is_some o && fnmatch k (pattern_or_all match)) e,
        ),
      )

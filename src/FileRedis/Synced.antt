-- ===== src/FileRedis/Synced.antt =====
-- The file always holds what the memory holds, so a process that starts again from the file goes on
-- from the same entries.
use tu_ft.Base.{
  ℕ, ◌+◌, ◌≤◌, String, ◌≡◌, refl, sym, ◌∙◌, Bool, true, false, Bool-cases, inl, inr, none, List, [],
  ◌∷◌, ◌++◌, arith, ◌==◌, str_eq, eq_iff,
}
use tu_ft.Dict
use tu_ft.Dict.{Dict}
use mathlib.Core.List.{append-nil, append_assoc}
use tu_ft.Dict.Unique.{IsUnique, pop_all-IsUnique, put-IsUnique}
use tu_ft.FileRedis.Keys.{step-IsUnique, remove_keys-IsUnique, apply_ops-IsUnique}
use tu_ft.FileRedis.{
  FileRedis, Value, absent, Call, set_call, setex_call, get_call, delete_call, exists_call,
  scan_call, pipeline_call, load, load_entries, to_payload, dump, apply_ops, purge_expired,
  remove_keys, step, execute, run, is_expired, delete,
}

-- No key of `d` is a key of `e`.
abbrev IsApart : Dict Value → Dict Value → Type 0
IsApart e [] = Unit
IsApart e ((k, v) ∷ d) = (Dict.get e k ≡ none) × IsApart e d

put_new :
    (e : Dict Value) (k : String) (v : Value)
    → Dict.get e k ≡ none
    → Dict.put e k v ≡ e ++ (k, v) ∷ []
unfolding Dict.put Dict.get
put_new [] k v h = refl
put_new ((i, w) ∷ e) k v h = ground (arith, put_new e k v)

get-append_none :
    (e : Dict Value) (k j : String) (v : Value)
    → Dict.get e j ≡ none
    → str_eq k j ≡ false
    → Dict.get (e ++ (k, v) ∷ []) j ≡ none
unfolding Dict.get
get-append_none [] k j v h ne = ground arith
get-append_none ((i, w) ∷ e) k j v h ne = ground (arith, get-append_none e k j v)

append-IsApart :
    (e d : Dict Value) (k : String) (v : Value)
    → IsApart e d
    → Dict.get d k ≡ none
    → IsApart (e ++ (k, v) ∷ []) d
unfolding Dict.get
append-IsApart e [] k v a h = tt
append-IsApart e ((j, w) ∷ d) k v a h =
    ground (arith, append-IsApart e d k v a.1, get-append_none e k j v a.0, eq_iff j k, eq_iff k j)

load_entries-to_payload :
    (e d : Dict Value) → IsUnique d → IsApart e d → load_entries e (to_payload d) ≡ e ++ d
unfolding load_entries to_payload
load_entries-to_payload e [] u a = sym (append-nil e)
load_entries-to_payload e ((k, v) ∷ d) u a =
    rw (load_entries, put_new e k v a.0)
      (load_entries-to_payload (e ++ (k, v) ∷ []) d u.1 (append-IsApart e d k v a.1 u.0)
        ∙ append_assoc e ((k, v) ∷ []) d)

nil-IsApart : (d : Dict Value) → IsApart [] d
unfolding Dict.get
nil-IsApart [] = tt
nil-IsApart ((k, v) ∷ d) = (refl, nil-IsApart d)

abbrev IsSynced : FileRedis → Type 0
IsSynced s = (load s.file).entries ≡ s.entries

dump-IsSynced : (s : FileRedis) → IsUnique s.entries → IsSynced (dump s)
unfolding dump load
dump-IsSynced s u = load_entries-to_payload [] s.entries u (nil-IsApart s.entries)

dumped_put :
    (s : FileRedis) (key : String) (v : Value)
    → IsUnique s.entries
    → IsSynced (dump (record s { entries = Dict.put s.entries key v }))
dumped_put s key v u =
    dump-IsSynced (record s { entries = Dict.put s.entries key v }) (put-IsUnique s.entries key v u)

purge_expired-IsSynced :
    (now : ℕ) (s : FileRedis) → IsUnique s.entries → IsSynced s → IsSynced (purge_expired now s)
unfolding purge_expired
purge_expired-IsSynced now s u h = purge_cases (Dict.keys_where (is_expired now) s.entries)
  where
    purge_cases :
        (ks : List String)
        → IsSynced (elim ks [
          | [] ↦ s
          | k ∷ ks ↦ dump (record s { entries = Dict.pop_all s.entries (k ∷ ks) })
        ])
    purge_cases [] = h
    purge_cases (k ∷ ks) =
        dump-IsSynced (record s { entries = Dict.pop_all s.entries (k ∷ ks) })
          (pop_all-IsUnique s.entries (k ∷ ks) u)

-- A `delete` that counts nothing has popped nothing.
remove_keys-le : (ks : List String) (d : Dict Value) (n : ℕ) → n ≤ (remove_keys ks d n).1
unfolding remove_keys
remove_keys-le [] d n = omega arith
remove_keys-le (k ∷ ks) d n =
    ground (arith, remove_keys-le ks (Dict.pop d k) (n + 1), remove_keys-le ks d n)

remove_keys_none :
    (ks : List String) (d : Dict Value) (n : ℕ)
    → (remove_keys ks d n).1 ≡ n
    → (remove_keys ks d n).0 ≡ d
unfolding remove_keys
remove_keys_none [] d n h = refl
remove_keys_none (k ∷ ks) d n h = elim (Bool-cases (Dict.has d k)) [
  | inl e ↦ absurd (ground (arith, remove_keys-le ks (Dict.pop d k) (n + 1)))
  | inr e ↦ ground (arith, remove_keys_none ks d n)
]

delete-IsSynced :
    (ks : List String) (s : FileRedis) → IsUnique s.entries → IsSynced s → IsSynced (delete ks s).0
unfolding delete
delete-IsSynced ks s u h = elim (Bool-cases ((remove_keys ks s.entries 0).1 == 0)) [
  | inl e ↦ rw e (h ∙ sym (remove_keys_none ks s.entries 0 (ground arith)))
  | inr e ↦ rw e (
      dump-IsSynced (record s { entries = (remove_keys ks s.entries 0).0 })
        (remove_keys-IsUnique ks s.entries 0 u))
]

module _ (fnmatch : String → String → Bool) where
  step-IsSynced :
      (now : ℕ) (c : Call) (s : FileRedis)
      → IsUnique s.entries
      → IsSynced s
      → IsSynced (step fnmatch (now, c) s)
  unfolding step execute
  step-IsSynced now (set_call key value) s u h = dumped_put s key _ u
  step-IsSynced now (setex_call key ttl value) s u h = dumped_put s key _ u
  step-IsSynced now (get_call key) s u h = purge_expired-IsSynced now s u h
  step-IsSynced now (delete_call ks) s u h = delete-IsSynced ks s u h
  step-IsSynced now (exists_call key) s u h = purge_expired-IsSynced now s u h
  step-IsSynced now (scan_call match) s u h = purge_expired-IsSynced now s u h
  step-IsSynced now (pipeline_call true ops) s u h = h
  step-IsSynced now (pipeline_call false []) s u h = h
  step-IsSynced now (pipeline_call false (op ∷ ops)) s u h =
      dump-IsSynced (record s { entries = apply_ops now (op ∷ ops) s.entries })
        (apply_ops-IsUnique now (op ∷ ops) s.entries u)

  run-IsSynced :
      (cs : List (ℕ × Call)) (s : FileRedis)
      → IsUnique s.entries
      → IsSynced s
      → IsSynced (run fnmatch cs s)
  unfolding run
  run-IsSynced [] s u h = h
  run-IsSynced ((now, c) ∷ cs) s u h =
      run-IsSynced cs _ (step-IsUnique fnmatch now c s u) (step-IsSynced now c s u h)

-- A store that started without a file and made any calls is rebuilt from its file with exactly the
-- entries, values and expiries that it holds in memory.
pub load-run-eq_entries :
    (fnmatch : String → String → Bool) (cs : List (ℕ × Call))
    → (load (run fnmatch cs (load absent)).file).entries ≡ (run fnmatch cs (load absent)).entries
load-run-eq_entries fnmatch cs = unfold load in run-IsSynced fnmatch cs (load absent) tt refl

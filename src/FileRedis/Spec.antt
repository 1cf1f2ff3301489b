-- ===== src/FileRedis/Spec.antt =====
-- The abstract store: a value with its expiry at each key, that no operation purges and that knows
-- no file. The file-backed store shows the same at every time that is not before its last call.
use tu_ft.Base.{
  ℕ, ◌+◌, ◌≤◌, String, ◌≡◌, refl, ◌∙◌, Bool, true, false, Option, none, some, List, [], ◌∷◌, arith,
  str_eq, eq_iff, if◌then◌else◌,
}
use tu_ft.Dict
use tu_ft.Dict.{Dict, elem, get-put, get-pop, get-pop_all}
use tu_ft.Dict.Unique.{IsUnique}
use tu_ft.FileRedis.{
  FileRedis, absent, Value, Op, set_op, setex_op, delete_op, Call, set_call, setex_call, get_call,
  delete_call, exists_call, scan_call, pipeline_call, purge_expired, remove_keys, apply_op,
  apply_ops, step, run, execute, load,
}
use tu_ft.FileRedis.Keys.{step-IsUnique}
use tu_ft.FileRedis.View.{live, view, view-purge_expired}

abbrev pub Model : Type 0
Model = String → Option Value

unfoldable pub assign : String → Value → Model → Model
assign k v m j = if str_eq k j then some v else m j

unfoldable pub forget : List String → Model → Model
forget ks m j = if elem ks j then none else m j

unfoldable pub spec_op : ℕ → Op → Model → Model
unfolding assign forget
spec_op now (set_op key value) = assign key (record { value = value; expires_at = none })
spec_op now (setex_op key ttl value) =
    assign key (record { value = value; expires_at = some (now + ttl) })
spec_op now (delete_op ks) = forget ks

unfoldable pub spec_ops : ℕ → List Op → Model → Model
unfolding spec_op
spec_ops now [] m = m
spec_ops now (op ∷ ops) m = spec_ops now ops (spec_op now op m)

unfoldable pub spec_step : ℕ × Call → Model → Model
unfolding spec_ops
spec_step (now, set_call key value) m = assign key (record { value = value; expires_at = none }) m
spec_step (now, setex_call key ttl value) m =
    assign key (record { value = value; expires_at = some (now + ttl) }) m
spec_step (now, get_call key) m = m
spec_step (now, delete_call ks) m = forget ks m
spec_step (now, exists_call key) m = m
spec_step (now, scan_call match) m = m
spec_step (now, pipeline_call true ops) m = m
spec_step (now, pipeline_call false ops) m = spec_ops now ops m

unfoldable pub spec_run : List (ℕ × Call) → Model → Model
spec_run [] m = m
spec_run (c ∷ cs) m = spec_run cs (spec_step c m)

-- From time `t` on, the entries `d` show what the model `m` shows.
abbrev Agrees : ℕ → Dict Value → Model → Type 0
Agrees t d m = (later : ℕ) (k : String) → t ≤ later → live later (Dict.get d k) ≡ live later (m k)

assign-Agrees :
    (t : ℕ) (k : String) (v : Value) (d : Dict Value) (m : Model)
    → Agrees t d m
    → Agrees t (Dict.put d k v) (assign k v m)
unfolding assign
assign-Agrees t k v d m a later j h = ground (arith, get-put d k j v, a later j h)

forget-Agrees :
    (t : ℕ) (ks : List String) (d : Dict Value) (m : Model)
    → Agrees t d m
    → Agrees t (Dict.pop_all d ks) (forget ks m)
unfolding forget
forget-Agrees t ks d m a later j h = ground (arith, get-pop_all d ks j, a later j h)

apply_op-Agrees :
    (t now : ℕ) (op : Op) (d : Dict Value) (m : Model)
    → Agrees t d m
    → Agrees t (apply_op now op d) (spec_op now op m)
unfolding apply_op spec_op
apply_op-Agrees t now (set_op key value) d m a = assign-Agrees t key _ d m a
apply_op-Agrees t now (setex_op key ttl value) d m a = assign-Agrees t key _ d m a
apply_op-Agrees t now (delete_op ks) d m a = forget-Agrees t ks d m a

apply_ops-Agrees :
    (t now : ℕ) (ops : List Op) (d : Dict Value) (m : Model)
    → Agrees t d m
    → Agrees t (apply_ops now ops d) (spec_ops now ops m)
unfolding apply_ops spec_ops
apply_ops-Agrees t now [] d m a = a
apply_ops-Agrees t now (op ∷ ops) d m a =
    apply_ops-Agrees t now ops _ _ (apply_op-Agrees t now op d m a)

-- `delete` pops the keys that are present; popping the others would change nothing.
get-remove_keys :
    (ks : List String) (d : Dict Value) (n : ℕ) (j : String)
    → Dict.get (remove_keys ks d n).0 j ≡ (if elem ks j then none else Dict.get d j)
unfolding remove_keys elem
get-remove_keys [] d n j = refl
get-remove_keys (k ∷ ks) d n j = ground (
  arith,
  get-remove_keys ks (Dict.pop d k) (n + 1) j,
  get-remove_keys ks d n j,
  get-pop d k j,
  Dict.has-eq-is_some d k,
  eq_iff k j,
)

purged-Agrees :
    (now : ℕ) (s : FileRedis) (m : Model)
    → IsUnique s.entries
    → Agrees now s.entries m
    → Agrees now (purge_expired now s).entries m
unfolding view
purged-Agrees now s m u a later k h = view-purge_expired now later k s u h ∙ a later k h

-- Each call is no earlier than the one before it.
abbrev pub IsTimed : ℕ → List (ℕ × Call) → Type 0
IsTimed t [] = Unit
IsTimed t ((now, c) ∷ cs) = (t ≤ now) × IsTimed now cs

abbrev pub end_time : ℕ → List (ℕ × Call) → ℕ
end_time t [] = t
end_time t ((now, c) ∷ cs) = end_time now cs

module _ (fnmatch : String → String → Bool) where
  step-Agrees :
      (now : ℕ) (c : Call) (s : FileRedis) (m : Model)
      → IsUnique s.entries
      → Agrees now s.entries m
      → Agrees now (step fnmatch (now, c) s).entries (spec_step (now, c) m)
  unfolding step spec_step spec_ops forget execute
  step-Agrees now (set_call key value) s m u a = assign-Agrees now key _ s.entries m a
  step-Agrees now (setex_call key ttl value) s m u a = assign-Agrees now key _ s.entries m a
  step-Agrees now (get_call key) s m u a = purged-Agrees now s m u a
  step-Agrees now (delete_call ks) s m u a =
      λ later j h. ground (arith, get-remove_keys ks s.entries 0 j, a later j h)
  step-Agrees now (exists_call key) s m u a = purged-Agrees now s m u a
  step-Agrees now (scan_call match) s m u a = purged-Agrees now s m u a
  step-Agrees now (pipeline_call true ops) s m u a = a
  step-Agrees now (pipeline_call false []) s m u a = a
  step-Agrees now (pipeline_call false (op ∷ ops)) s m u a =
      apply_ops-Agrees now now (op ∷ ops) s.entries m a

  run-Agrees :
      (t : ℕ) (cs : List (ℕ × Call)) (s : FileRedis) (m : Model)
      → IsUnique s.entries
      → IsTimed t cs
      → Agrees t s.entries m
      → Agrees (end_time t cs) (run fnmatch cs s).entries (spec_run cs m)
  unfolding run spec_run
  run-Agrees t [] s m u timed a = a
  run-Agrees t ((now, c) ∷ cs) s m u timed a =
      run-Agrees now cs (step fnmatch (now, c) s) (spec_step (now, c) m)
        (step-IsUnique fnmatch now c s u) timed.1
        (step-Agrees now c s m u (λ later k h. a later k (omega arith)))

-- A store that starts without a file shows, after any calls in the order of their times and at any
-- time from the last call on, what the abstract store shows for the same calls: purging is
-- invisible, and a pipeline is its operations one after another.
pub view-run-eq-spec :
    (fnmatch : String → String → Bool) (cs : List (ℕ × Call)) (later : ℕ) (k : String)
    → IsTimed 0 cs
    → end_time 0 cs ≤ later
    → view later k (run fnmatch cs (load absent)) ≡ live later (spec_run cs (λ _. none) k)
unfolding view load Dict.get
view-run-eq-spec fnmatch cs later k timed h =
    run-Agrees fnmatch 0 cs (load absent) (λ _. none) tt timed (λ _ _ _. refl) later k h

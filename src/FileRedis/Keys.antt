-- ===== src/FileRedis/Keys.antt =====
-- Every operation keeps each key of the store once, as a Python dict does.
use tu_ft.Base.{ℕ, ◌+◌, String, Bool, true, false, List, [], ◌∷◌, arith}
use tu_ft.Dict
use tu_ft.Dict.{Dict}
use tu_ft.Dict.Unique.{IsUnique, pop-IsUnique, pop_all-IsUnique, put-IsUnique}
use tu_ft.FileRedis.View.{purge_expired-IsUnique}
use tu_ft.FileRedis.{
  FileRedis, Value, Op, set_op, setex_op, delete_op, Call, set_call, setex_call, get_call,
  delete_call, exists_call, scan_call, pipeline_call, remove_keys, apply_op, apply_ops, step,
  execute,
}

pub remove_keys-IsUnique :
    (ks : List String) (d : Dict Value) (n : ℕ) → IsUnique d → IsUnique (remove_keys ks d n).0
unfolding remove_keys
remove_keys-IsUnique [] d n u = u
remove_keys-IsUnique (k ∷ ks) d n u = ground (
  arith,
  remove_keys-IsUnique ks (Dict.pop d k) (n + 1) (pop-IsUnique d k u),
  remove_keys-IsUnique ks d n u,
)

apply_op-IsUnique : (now : ℕ) (op : Op) (d : Dict Value) → IsUnique d → IsUnique (apply_op now op d)
unfolding apply_op
apply_op-IsUnique now (set_op key value) d u = put-IsUnique d key _ u
apply_op-IsUnique now (setex_op key ttl value) d u = put-IsUnique d key _ u
apply_op-IsUnique now (delete_op ks) d u = pop_all-IsUnique d ks u

pub apply_ops-IsUnique :
    (now : ℕ) (ops : List Op) (d : Dict Value) → IsUnique d → IsUnique (apply_ops now ops d)
unfolding apply_ops
apply_ops-IsUnique now [] d u = u
apply_ops-IsUnique now (op ∷ ops) d u = apply_ops-IsUnique now ops _ (apply_op-IsUnique now op d u)

pub step-IsUnique :
    (fnmatch : String → String → Bool) (now : ℕ) (c : Call) (s : FileRedis)
    → IsUnique s.entries
    → IsUnique (step fnmatch (now, c) s).entries
unfolding step execute
step-IsUnique fnmatch now (set_call key value) s u = put-IsUnique s.entries key _ u
step-IsUnique fnmatch now (setex_call key ttl value) s u = put-IsUnique s.entries key _ u
step-IsUnique fnmatch now (get_call key) s u = purge_expired-IsUnique now s u
step-IsUnique fnmatch now (delete_call ks) s u =
    ground (arith, remove_keys-IsUnique ks s.entries 0 u)
step-IsUnique fnmatch now (exists_call key) s u = purge_expired-IsUnique now s u
step-IsUnique fnmatch now (scan_call match) s u = purge_expired-IsUnique now s u
step-IsUnique fnmatch now (pipeline_call true ops) s u = u
step-IsUnique fnmatch now (pipeline_call false []) s u = u
step-IsUnique fnmatch now (pipeline_call false (op ∷ ops)) s u =
    apply_ops-IsUnique now (op ∷ ops) s.entries u

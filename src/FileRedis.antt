-- ===== src/FileRedis.antt =====
-- src/tuft/persistence/file_redis.py: the file-backed store with expiry. The clock `time.time()` is
-- an argument of each operation, in whole ticks, and the JSON file is a field of the state. The
-- lock of the class is held through each operation, so an operation is one step.
pub mod View
pub mod Keys
pub mod Spec
pub mod Synced
pub mod Answers
use tu_ft.Base.{
  ℕ, ◌+◌, String, Bool, true, false, not, ◌&&◌, Option, none, some, List, [], ◌∷◌, leb, ◌==◌,
  if◌then◌else◌, opt_map, str_eq,
}
use tu_ft.Dict
use tu_ft.Dict.{Dict}

-- _FileRedisValue
pub record Value : Type 0 where
  pub value : String
  pub expires_at : Option ℕ

-- One value of the JSON object in the file: an object with its two entries, or anything else.
pub data Payload : Type 0 where
  entry : (value : Option String) (expires_at : Option ℕ) → Payload
  other : Payload

-- The backing file: absent, not readable as JSON, or a JSON object.
pub data File : Type 0 where
  absent unreadable : File
  object : Dict Payload → File

pub record FileRedis : Type 0 where
  pub entries : Dict Value
  pub file : File

-- `payload.get("value", "")` and `payload.get("expires_at")`
abbrev text_or_empty : Option String → String
text_or_empty none = ""
text_or_empty (some v) = v

-- The loop of `_load`, which assigns to the keys of `self._data` in the order of the file.
unfoldable pub load_entries : Dict Value → Dict Payload → Dict Value
load_entries d [] = d
load_entries d ((k, other) ∷ raw) = load_entries d raw
load_entries d ((k, entry v t) ∷ raw) =
    load_entries (Dict.put d k (record { value = text_or_empty v; expires_at = t })) raw

-- __init__ and _load
unfoldable pub load : File → FileRedis
unfolding load_entries
load (object raw) = record { entries = load_entries [] raw; file = object raw }
load f = record { entries = []; file = f }

unfoldable pub to_payload : Dict Value → Dict Payload
to_payload [] = []
to_payload ((k, v) ∷ d) = (k, entry (some v.value) v.expires_at) ∷ to_payload d

-- _dump
unfoldable pub dump : FileRedis → FileRedis
unfolding to_payload
dump s = record s { file = object (to_payload s.entries) }

-- `entry.expires_at and entry.expires_at <= now`: an expiry of 0 is falsy, and never comes.
unfoldable pub is_expired : ℕ → Value → Bool
is_expired now v = elim v.expires_at [ none ↦ false | some t ↦ not (t == 0) && leb t now ]

-- _purge_expired
unfoldable pub purge_expired : ℕ → FileRedis → FileRedis
unfolding dump
purge_expired now s = elim (Dict.keys_where (is_expired now) s.entries) [
  | [] ↦ s
  | k ∷ ks ↦ dump (record s { entries = Dict.pop_all s.entries (k ∷ ks) })
]

unfoldable pub set : String → String → FileRedis → FileRedis × Bool
set key value s =
    let v : Value = record { value = value; expires_at = none } in
    (dump (record s { entries = Dict.put s.entries key v }), true)

unfoldable pub setex : ℕ → String → ℕ → String → FileRedis → FileRedis × Bool
setex now key ttl_seconds value s =
    let v : Value = record { value = value; expires_at = some (now + ttl_seconds) } in
    (dump (record s { entries = Dict.put s.entries key v }), true)

unfoldable pub get : ℕ → String → FileRedis → FileRedis × Option String
get now key s =
    let s' = purge_expired now s in (s', opt_map (λ v. v.value) (Dict.get s'.entries key))

-- The loop of `delete`: the keys that are present are popped and counted.
unfoldable pub remove_keys : List String → Dict Value → ℕ → Dict Value × ℕ
remove_keys [] d removed = (d, removed)
remove_keys (key ∷ ks) d removed =
    let present = Dict.has d key in
    remove_keys ks (if present then Dict.pop d key else d)
      (if present then removed + 1 else removed)

unfoldable pub delete : List String → FileRedis → FileRedis × ℕ
unfolding remove_keys dump
delete ks s =
    let (d, removed) = remove_keys ks s.entries 0 in
    let s' = record s { entries = d } in (if removed == 0 then s' else dump s', removed)

unfoldable pub exists : ℕ → String → FileRedis → FileRedis × ℕ
exists now key s = let s' = purge_expired now s in (s', if Dict.has s'.entries key then 1 else 0)

unfoldable pub select : (String → Bool) → List String → List String
select test [] = []
select test (k ∷ ks) = let rest = select test ks in if test k then k ∷ rest else rest

-- `match or "*"`
unfoldable pub pattern_or_all : Option String → String
pattern_or_all none = "*"
pattern_or_all (some p) = if str_eq p "" then "*" else p

-- The generator of `scan_iter`; `fnmatch` is the glob test of the standard library.
unfoldable pub scan_iter :
    (fnmatch : String → String → Bool) → ℕ → Option String → FileRedis → FileRedis × List String
unfolding pattern_or_all select
scan_iter fnmatch now match s =
    let s' = purge_expired now s in
    (s', select (λ key. fnmatch key (pattern_or_all match)) (Dict.keys s'.entries))

-- The operations that a FileRedisPipeline queues.
pub data Op : Type 0 where
  set_op : (key value : String) → Op
  setex_op : (key : String) (ttl_seconds : ℕ) (value : String) → Op
  delete_op : List String → Op

-- One round of the loop of `_execute`.
unfoldable pub apply_op : ℕ → Op → Dict Value → Dict Value
apply_op now (set_op key value) d = Dict.put d key (record { value = value; expires_at = none })
apply_op now (setex_op key ttl_seconds value) d =
    Dict.put d key (record { value = value; expires_at = some (now + ttl_seconds) })
apply_op now (delete_op ks) d = Dict.pop_all d ks

unfoldable pub apply_ops : ℕ → List Op → Dict Value → Dict Value
unfolding apply_op
apply_ops now [] d = d
apply_ops now (op ∷ ops) d = apply_ops now ops (apply_op now op d)

-- FileRedisPipeline._execute: one dump for all, and the queue is empty afterwards.
unfoldable pub execute : ℕ → List Op → FileRedis → FileRedis × List Op
unfolding apply_ops dump
execute now [] s = (s, [])
execute now (op ∷ ops) s = (dump (record s { entries = apply_ops now (op ∷ ops) s.entries }), [])

-- __exit__: a block that raised leaves the queue unexecuted.
unfoldable pub exit : (raised : Bool) → ℕ → List Op → FileRedis → FileRedis × List Op
exit true now ops s = (s, ops)
exit false now ops s = execute now ops s

-- A call of the store, at its time.
pub data Call : Type 0 where
  set_call : (key value : String) → Call
  setex_call : (key : String) (ttl_seconds : ℕ) (value : String) → Call
  get_call : (key : String) → Call
  delete_call : List String → Call
  exists_call : (key : String) → Call
  scan_call : (match : Option String) → Call
  pipeline_call : (raised : Bool) → List Op → Call

module _ (fnmatch : String → String → Bool) where
  unfoldable pub step : ℕ × Call → FileRedis → FileRedis
  unfolding set setex get delete exists scan_iter exit
  step (now, set_call key value) s = (set key value s).0
  step (now, setex_call key ttl value) s = (setex now key ttl value s).0
  step (now, get_call key) s = (get now key s).0
  step (now, delete_call ks) s = (delete ks s).0
  step (now, exists_call key) s = (exists now key s).0
  step (now, scan_call match) s = (scan_iter fnmatch now match s).0
  step (now, pipeline_call raised ops) s = (exit raised now ops s).0

  unfoldable pub run : List (ℕ × Call) → FileRedis → FileRedis
  run [] s = s
  run (c ∷ cs) s = run cs (step c s)

-- ===== src/Tests/Stores.antt =====
-- Runs of the file-backed store, of the sessions and of the paging.
use tu_ft.Base.{
  ℕ, ◌+◌, ◌-◌, min, String, ◌≡◌, ◌≢◌, refl, Bool, true, false, none, some, List, [], ◌∷◌, ◌++◌,
  length, arith, eq_iff, opt_eq, is_some, some, if◌then◌else◌, ◌&&◌,
}
use tu_ft.Dict
use tu_ft.Dict.{Dict, elem, test_at}
use tu_ft.Errors.{user_mismatch, session_not_found, err, status_code}
use tu_ft.Text.{strip, checkpoint_name}
use tu_ft.Persistence.{Codec}
use tu_ft.Paging.{page, page-append}
use tu_ft.FileRedis.{
  Call, set_call, setex_call, get_call, pipeline_call, set_op, delete_op, run, load, absent, get,
  exists, scan_iter, pattern_or_all,
}
use tu_ft.FileRedis.Spec.{spec_run}
use tu_ft.FileRedis.Answers.{shown, get-run-eq-spec}
use tu_ft.FileRedis.Synced.{load-run-eq_entries}
use tu_ft.Sessions.{
  SessionRecord, SessionManager, authenticate, require, heartbeat, list_sessions,
  restore_from_redis,
}
use tu_ft.Sessions.Listed.{creator, elem-list_sessions}
use tu_ft.Sessions.Laws.{Request, create, beat, serve, initial, require-restart, heartbeat_lem}

abbrev match_all : String → String → Bool
match_all key pattern = true

abbrev calls : List (ℕ × Call)
calls =
    (1, setex_call "a" 5 "x")
    ∷ (2, set_call "b" "y")
    ∷ (4, pipeline_call false (set_op "c" "z" ∷ delete_op ("b" ∷ []) ∷ []))
    ∷ (7, get_call "a")
    ∷ []

get-run_example :
    ((get 9 "c" (run match_all calls (load absent))).1 ≡ shown 9 (spec_run calls (λ _. none) "c"))
    × (((exists 9 "c" (run match_all calls (load absent))).1
          ≡ (if is_some (shown 9 (spec_run calls (λ _. none) "c")) then 1 else 0))
        × (elem (scan_iter match_all 9 none (run match_all calls (load absent))).1 "c" ≡ (
            is_some (shown 9 (spec_run calls (λ _. none) "c"))
            && match_all "c" (pattern_or_all none))))
get-run_example =
    get-run-eq-spec match_all calls 9 "c" none
      (omega arith, (omega arith, (omega arith, (omega arith, tt)))) (omega arith)

load-run_example :
    (load (run match_all calls (load absent)).file).entries
    ≡ (run match_all calls (load absent)).entries
load-run_example = load-run-eq_entries match_all calls

abbrev numbers : List ℕ
numbers = 1 ∷ 2 ∷ 3 ∷ 4 ∷ []

page_example :
    (length (page (some 2) 1 numbers) ≡ min 2 (4 - 1))
    × (page (some 2) 1 numbers ++ page none (1 + 2) numbers ≡ page none 1 numbers)
    × (page none 0 numbers ≡ numbers)
page_example = page-append 2 1 numbers

abbrev session : SessionRecord ℕ
session = record {
  session_id = "s";
  tags = "t" ∷ [];
  user_metadata = 0;
  user_id = "ann";
  sdk_version = "1";
  created_at = 3;
  last_heartbeat = 3;
}

-- Texts are the records themselves.
abbrev plain : Codec (SessionRecord ℕ) (SessionRecord ℕ)
plain = record { enabled = true; dumps = λ r. some r; loads = λ t. some t }

abbrev requests : List (Request ℕ)
requests = create "s" 3 ("t" ∷ []) 0 "1" "ann" ∷ beat 5 "s" "bob" ∷ beat 6 "s" "ann" ∷ []

require-restart_example :
    require "s" (restore_from_redis plain (serve plain requests (initial plain)).redis)
    ≡ require "s" (serve plain requests (initial plain))
require-restart_example = require-restart plain requests "s" refl (λ r. (r, refl, refl))

abbrev ann : String
ann = "ann"

abbrev bob : String
bob = "bob"

bob-ann : bob ≢ ann
bob-ann p = ground (arith, eq_iff bob ann)

abbrev manager : SessionManager ℕ (SessionRecord ℕ)
manager = record { sessions = ("s", session) ∷ []; redis = [] }

heartbeat_example :
    (Dict.get (heartbeat plain 9 "s" "ann" manager).0.sessions "s"
      ≡ some (record session { last_heartbeat = 9 }))
    × ((k : String)
        → k ≢ "s"
        → Dict.get (heartbeat plain 9 "s" "ann" manager).0.sessions k ≡ Dict.get manager.sessions k)
    × (heartbeat plain 9 "s" "bob" manager ≡ (manager, err user_mismatch))
    × (heartbeat plain 9 "x" "bob" manager ≡ (manager, err (session_not_found "x")))
heartbeat_example =
    heartbeat_lem plain 9 "s" "x" "ann" "bob" manager session found refl bob-ann missing
  where
    found : Dict.get manager.sessions "s" ≡ some session
    found = unfold Dict.get in refl

    missing : Dict.get manager.sessions "x" ≡ none
    missing = unfold Dict.get in refl

list_sessions_example :
    elem (list_sessions "ann" (serve plain requests (initial plain))) "s"
    ≡ opt_eq (creator "s" requests none) (some "ann")
list_sessions_example = elem-list_sessions plain requests "ann" "s"

authenticate_test : authenticate (("key", "ann") ∷ ("none", "") ∷ []) "none" ≡ none
unfolding authenticate Dict.get
authenticate_test = refl

strip_test : strip " q_proj\t" ≡ "q_proj"
unfolding strip
strip_test = refl

checkpoint_name_test : checkpoint_name 42 ≡ "checkpoint-0042"
unfolding checkpoint_name
checkpoint_name_test = refl

status_code_test : status_code user_mismatch ≡ 403
unfolding status_code
status_code_test = refl

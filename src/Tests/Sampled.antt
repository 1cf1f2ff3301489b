-- ===== src/Tests/Sampled.antt =====
-- The theorems on the sampling sessions and on the executor, on concrete ones.
use tu_ft.Base.{
  ℕ, String, ◌≡◌, ◌≢◌, refl, ◌&&◌, Bool, true, none, some, [], ◌∷◌, str_eq, eq_iff, if◌then◌else◌,
  ◌==◌, arith,
}
use tu_ft.Dict
use tu_ft.Dict.{test_at}
use tu_ft.Text.{is_empty}
use tu_ft.Errors.{ok, err, session_not_found, user_mismatch, missing_sequence_id, unknown_model}
use tu_ft.Sampling.{Env, SamplingController, SamplingSessionRecord, opt_max, sampling_disabled}
use tu_ft.Sampling.Index.{get_at}
use tu_ft.Sampling.History.{by_id}
use tu_ft.Sampling.Requests.{create_sampling_session, run_sample, evict_model, get_sampler_info}
use tu_ft.Sampling.Valid.{Keeps, IsConsistent}
use tu_ft.Sampling.Reached.{Reach, started, create, sample, Reach-IsConsistent}
use tu_ft.Sampling.Evict.{get-evict_model, is_user}
use tu_ft.Sampling.Answers.{entry, stranger_sample-refused, sample-no_backend, run_sample-history}
use tu_ft.Sampling.Executor.{process_tasks, IsAscending, count, process_tasks-IsAscending}
use tu_ft.Tests.Bench.{ann, bob}

abbrev env : Env ℕ SamplingSessionRecord ℕ ℕ ℕ
env = record {
  supported_models = [];
  codec = record { enabled = true; dumps = λ r. some r; loads = λ t. some t };
  parse_path = λ path. err (session_not_found path);
  checkpoint_path = λ run name. name;
  adapter_path = λ path. path;
  add_adapter = λ id path b. (b, ok tt);
  sample = λ prompt request lora b. (b, ok prompt);
  token_count = λ prompt. prompt;
  hash_prompt = λ prompt. "h";
}

abbrev session : SamplingSessionRecord
session = record {
  sampling_session_id = "x";
  session_id = "s";
  model_id = "x";
  base_model = "base";
  user_id = ann;
  model_path = none;
  session_seq_id = 0;
  last_seq_id = none;
  history = [];
  history_by_seq_id = [];
}

abbrev empty_controller : SamplingController ℕ SamplingSessionRecord
empty_controller = record { sampling_sessions = []; base_backends = ("base", 0) ∷ []; redis = [] }

abbrev one_session : SamplingController ℕ SamplingSessionRecord
one_session = record {
  sampling_sessions = ("x", session) ∷ [];
  base_backends = ("base", 0) ∷ [];
  redis = ("x", session) ∷ [];
}

abbrev no_model : SamplingController ℕ SamplingSessionRecord
no_model = record one_session { base_backends = [] }

codec_Keeps : Keeps env.codec
codec_Keeps r t q d l = (ground arith, (ground arith, (ground arith, ground arith)))

one_session_Reach : Reach env ℕ one_session
unfolding create_sampling_session Dict.put Dict.has Dict.get
one_session_Reach = create empty_controller [] "x" "s" ann "base" "" 0 (started (("base", 0) ∷ []))

Reach-IsConsistent_example : IsConsistent env (run_sample env 5 ann "x" (some 3) 7 0 one_session).0
Reach-IsConsistent_example =
    Reach-IsConsistent env (run_sample env 5 ann "x" (some 3) 7 0 one_session).0 codec_Keeps
      (sample one_session 5 ann "x" (some 3) 7 0 one_session_Reach)

get-evict_model_example : Dict.get (evict_model env "m" ann one_session).sampling_sessions "x" ≡ (
    if str_eq "x" "m" && test_at (is_user env ann) (Dict.get one_session.sampling_sessions "x")
    then none
    else Dict.get one_session.sampling_sessions "x")
get-evict_model_example = get-evict_model env one_session "m" ann "x" codec_Keeps one_session_Reach

ann-bob : session.user_id ≢ bob
ann-bob p = ground (arith, eq_iff ann bob)

stranger_sample_example :
    (run_sample env 5 bob "x" (some 3) 7 0 one_session ≡ (one_session, err user_mismatch))
    × (get_sampler_info env "x" bob "base" one_session ≡ err user_mismatch)
unfolding Dict.get is_empty
stranger_sample_example =
    stranger_sample-refused env 5 bob "x" "base" (some 3) 7 0 one_session session refl refl ann-bob

sample-no_backend_example :
    (run_sample env 5 ann "x" none 7 0 no_model ≡ (no_model, err missing_sequence_id))
    × (run_sample env 5 ann "x" (some 3) 7 0 no_model ≡ (no_model, err (unknown_model "base")))
unfolding Dict.get is_empty sampling_disabled
sample-no_backend_example = sample-no_backend env 5 "x" 3 7 0 no_model session refl refl refl

run_sample-history_example :
    ((run_sample env 5 ann "x" (some 3) 7 0 one_session).1 ≡ ok 7)
    × ((r : SamplingSessionRecord) × ((Dict.get
              (run_sample env 5 ann "x" (some 3) 7 0 one_session).0.sampling_sessions
              "x"
            ≡ some r)
          × ((r.last_seq_id ≡ opt_max none (some 3))
              × ((k : ℕ)
                  → get_at (by_id r.history) k
                    ≡ (if 3 == k then some (entry env 5 3 7) else get_at [] k)))))
unfolding Dict.get is_empty
run_sample-history_example =
    run_sample-history env 5 "x" 3 7 0 one_session session 0 codec_Keeps one_session_Reach refl refl
      refl

process_tasks_example :
    ((process_tasks {X = String} 3 ((2, "b") ∷ (1, "a") ∷ (5, "c") ∷ [])).1 ≡ [])
    × (IsAscending (process_tasks {X = String} 3 ((2, "b") ∷ (1, "a") ∷ (5, "c") ∷ [])).0
        × ((test : ℕ × String → Bool)
            → count test (process_tasks {X = String} 3 ((2, "b") ∷ (1, "a") ∷ (5, "c") ∷ [])).0
              ≡ count {X = String} test ((2, "b") ∷ (1, "a") ∷ (5, "c") ∷ [])))
unfolding count
process_tasks_example =
    process_tasks-IsAscending ((2, "b") ∷ (1, "a") ∷ (5, "c") ∷ []) (refl, (refl, (refl, tt)))

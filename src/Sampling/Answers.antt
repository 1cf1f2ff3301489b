-- ===== src/Sampling/Answers.antt =====
-- src/tuft/sampling_controller.py: what a request to sample is answered, and what it leaves in the
-- history of its session.
use tu_ft.Base.{
  ℕ, String, ◌≡◌, ◌≢◌, refl, sym, ◌∙◌, ap, true, false, Option, none, some, arith, str_eq,
  str_eq_ne, str_eq_self, if◌then◌else◌, ◌==◌,
}
use tu_ft.Dict
use tu_ft.Dict.{Dict, get-put_self}
use tu_ft.Text.{is_empty}
use tu_ft.Errors.{
  Error, ok, err, user_mismatch, missing_sequence_id, capability_disabled, unknown_model,
}
use tu_ft.Sampling.{
  Env, SamplingController, SamplingSessionRecord, SamplingHistoryEntry, add_entry, no_backend,
  save_session, opt_max, sampling_disabled, require_sampling_capability,
}
use tu_ft.Sampling.Index.{get_at}
use tu_ft.Sampling.History.{by_id, get-add_entry}
use tu_ft.Sampling.Requests.{record_sequence, check_request, run_sample, lora_id, get_sampler_info}
use tu_ft.Sampling.Valid.{Keeps}
use tu_ft.Sampling.Reached.{Reach, Reach-IsConsistent}

module _ {S T P Q A : Type 0} (env : Env S T P Q A) where
  save_session_sessions :
      (id : String) (s : SamplingController S T)
      → (save_session env id s).sampling_sessions ≡ s.sampling_sessions
  unfolding save_session
  save_session_sessions id s = ground arith

  -- The entry of a request.
  abbrev pub entry : ℕ → ℕ → P → SamplingHistoryEntry
  entry now q prompt = record {
    seq_id = q;
    prompt_token_count = env.token_count prompt;
    prompt_hash = env.hash_prompt prompt;
    created_at = now;
  }

  -- A request that is refused changes nothing.
  run_sample_refused :
      (now : ℕ) (user_id id : String) (seq_id : Option ℕ) (prompt : P) (request : Q)
      (s : SamplingController S T) (e : Error)
      → check_request env user_id id seq_id s ≡ err e
      → run_sample env now user_id id seq_id prompt request s ≡ (s, err e)
  unfolding run_sample
  run_sample_refused now user_id id seq_id prompt request s e h = rw (h, run_sample) refl

  check_request_stranger :
      (user_id id : String) (seq_id : Option ℕ) (s : SamplingController S T)
      (r : SamplingSessionRecord)
      → is_empty id ≡ false
      → Dict.get s.sampling_sessions id ≡ some r
      → str_eq r.user_id user_id ≡ false
      → check_request env user_id id seq_id s ≡ err user_mismatch
  unfolding check_request
  check_request_stranger user_id id seq_id s r n g u = ground arith

  check_request_unnumbered :
      (user_id id : String) (s : SamplingController S T) (r : SamplingSessionRecord)
      → is_empty id ≡ false
      → Dict.get s.sampling_sessions id ≡ some r
      → str_eq r.user_id user_id ≡ true
      → check_request env user_id id none s ≡ err missing_sequence_id
  unfolding check_request
  check_request_unnumbered user_id id s r n g u = ground arith

  check_request_backend :
      (user_id id : String) (q : ℕ) (s : SamplingController S T) (r : SamplingSessionRecord)
      → is_empty id ≡ false
      → Dict.get s.sampling_sessions id ≡ some r
      → str_eq r.user_id user_id ≡ true
      → Dict.get s.base_backends r.base_model ≡ none
      → check_request env user_id id (some q) s ≡ err (no_backend env.supported_models r.base_model)
  unfolding check_request
  check_request_backend user_id id q s r n g u o = ground arith

  check_request_ok :
      (user_id id : String) (q : ℕ) (s : SamplingController S T) (r : SamplingSessionRecord) (b : S)
      → is_empty id ≡ false
      → Dict.get s.sampling_sessions id ≡ some r
      → str_eq r.user_id user_id ≡ true
      → Dict.get s.base_backends r.base_model ≡ some b
      → check_request env user_id id (some q) s ≡ ok (r, (q, b))
  unfolding check_request
  check_request_ok user_id id q s r b n g u o = ground arith

  -- A session of another user: `run_sample` and `get_sampler_info` refuse, and nothing changes.
  pub stranger_sample-refused :
      (now : ℕ) (user_id id default_base_model : String) (seq_id : Option ℕ) (prompt : P)
      (request : Q) (s : SamplingController S T) (r : SamplingSessionRecord)
      → is_empty id ≡ false
      → Dict.get s.sampling_sessions id ≡ some r
      → r.user_id ≢ user_id
      → (run_sample env now user_id id seq_id prompt request s ≡ (s, err user_mismatch))
        × (get_sampler_info env id user_id default_base_model s ≡ err user_mismatch)
  unfolding get_sampler_info
  stranger_sample-refused now user_id id default_base_model seq_id prompt request s r n g u =
      let ne = str_eq_ne r.user_id user_id u in
      (
        run_sample_refused now user_id id seq_id prompt request s user_mismatch
            (check_request_stranger user_id id seq_id s r n g ne),
        ground arith,
      )

  -- For the owner of a session: a request without a number, and one for a model that has no backend,
  -- are refused, the latter by the error of the model's capability or as unknown; and nothing changes,
  -- so that the number of the request stays free.
  pub sample-no_backend :
      (now : ℕ) (id : String) (q : ℕ) (prompt : P) (request : Q) (s : SamplingController S T)
      (r : SamplingSessionRecord)
      → is_empty id ≡ false
      → Dict.get s.sampling_sessions id ≡ some r
      → Dict.get s.base_backends r.base_model ≡ none
      → (run_sample env now r.user_id id none prompt request s ≡ (s, err missing_sequence_id))
        × (run_sample env now r.user_id id (some q) prompt request s ≡ (
          s,
          err (
              if sampling_disabled env.supported_models r.base_model
              then capability_disabled r.base_model "sampling"
              else unknown_model r.base_model),
        ))
  unfolding no_backend require_sampling_capability
  sample-no_backend now id q prompt request s r n g o =
      let own = str_eq_self r.user_id in
      (
        run_sample_refused now r.user_id id none prompt request s missing_sequence_id
            (check_request_unnumbered r.user_id id s r n g own),
        run_sample_refused now r.user_id id (some q) prompt request s
              (no_backend env.supported_models r.base_model)
              (check_request_backend r.user_id id q s r n g own o)
            ∙ ap (λ e. (s, err e)) (ground arith),
      )

  record_sequence_session :
      (now q : ℕ) (prompt : P) (r : SamplingSessionRecord) (s : SamplingController S T)
      → Dict.get (record_sequence env now r q prompt s).sampling_sessions r.sampling_session_id
        ≡ some (add_entry (entry now q prompt) r)
  unfolding record_sequence
  record_sequence_session now q prompt r s =
      ap (λ d. Dict.get d r.sampling_session_id) (save_session_sessions r.sampling_session_id _)
      ∙ get-put_self s.sampling_sessions r.sampling_session_id (add_entry (entry now q prompt) r)

  run_sample_ok :
      (now : ℕ) (user_id id : String) (q : ℕ) (prompt : P) (request : Q)
      (s : SamplingController S T) (r : SamplingSessionRecord) (b : S)
      → check_request env user_id id (some q) s ≡ ok (r, (q, b))
      → ((run_sample env now user_id id (some q) prompt request s).1
          ≡ (env.sample prompt request (lora_id env r) b).1)
        × ((run_sample env now user_id id (some q) prompt request s).0.sampling_sessions
            ≡ (record_sequence env now r q prompt s).sampling_sessions)
  unfolding run_sample
  run_sample_ok now user_id id q prompt request s r b h =
      (rw (h, run_sample) refl, rw (h, run_sample) refl)

  -- In every state that is reached, for the owner of a session whose model has a backend: a request
  -- with a number is answered what the backend gives; the session then has the request's entry under
  -- that number, in place of an older one, and its other entries as before; and its last number is
  -- the greater of the two.
  pub run_sample-history :
      {W : Type 0} (now : ℕ) (id : String) (q : ℕ) (prompt : P) (request : Q)
      (s : SamplingController S T) (r : SamplingSessionRecord) (b : S)
      → Keeps env.codec
      → Reach env W s
      → is_empty id ≡ false
      → Dict.get s.sampling_sessions id ≡ some r
      → Dict.get s.base_backends r.base_model ≡ some b
      → ((run_sample env now r.user_id id (some q) prompt request s).1
          ≡ (env.sample prompt request (lora_id env r) b).1)
        × ((r' : SamplingSessionRecord) × ((Dict.get
                  (run_sample env now r.user_id id (some q) prompt request s).0.sampling_sessions
                  id
                ≡ some r')
              × ((r'.last_seq_id ≡ opt_max r.last_seq_id (some q))
                  × ((k : ℕ)
                      → get_at (by_id r'.history) k ≡ (
                          if q == k
                          then some (entry now q prompt)
                          else get_at (by_id r.history) k)))))
  unfolding add_entry
  run_sample-history now id q prompt request s r b keeps reach n g o =
      let x = (Reach-IsConsistent env s keeps reach).0 id r g in
      let a =
        run_sample_ok now r.user_id id q prompt request s r b
          (check_request_ok r.user_id id q s r b n g (str_eq_self r.user_id) o) in
      (
        a.0,
        (
          add_entry (entry now q prompt) r,
          (
            ap (λ d. Dict.get d id) a.1
                ∙ ap (Dict.get (record_sequence env now r q prompt s).sampling_sessions) (sym x.0.0)
                ∙ record_sequence_session now q prompt r s,
            (refl, λ k. get-add_entry (entry now q prompt) r k x.1),
          ),
        ),
      )

-- ===== src/Sessions/Laws.antt =====
-- Sessions belong to their users, and outlive the process.
use tu_ft.Base.{
  ℕ, String, ◌≡◌, ◌≢◌, refl, ap, sym, subst, ◌∙◌, true, false, Option, none, some, List, [], ◌∷◌,
  arith, str_eq, eq_iff, str_eq_ne, if_true, if-both, Option-cases, inl, inr,
}
use tu_ft.Dict
use tu_ft.Dict.{Dict, elem, test_at, get-put, get-put_self}
use tu_ft.Dict.Unique.{IsUnique, put-IsUnique}
use tu_ft.Errors.{session_not_found, user_mismatch, Result, ok, err}
use tu_ft.Persistence.{Codec}
use tu_ft.Persistence.Restore.{restore_all, get-restore_all}
use tu_ft.Sessions.{
  SessionRecord, SessionManager, save_session, create_session, heartbeat, restore_from_redis,
  require,
}

-- What a client may do with the sessions.
pub data Request (M : Type 0) : Type 0 where
  create :
      (session_id : String) (now : ℕ) (tags : List String) (user_metadata : M)
      (sdk_version user_id : String)
      → Request M
  beat : (now : ℕ) (session_id user_id : String) → Request M

module _ {M T : Type 0} (codec : Codec (SessionRecord M) T) where
  unfoldable pub serve : List (Request M) → SessionManager M T → SessionManager M T
  serve [] s = s
  serve (create id now tags metadata sdk user ∷ rest) s =
      serve rest (create_session codec id now tags metadata sdk user s).0
  serve (beat now id user ∷ rest) s = serve rest (heartbeat codec now id user s).0

  -- pydantic writes every session and reads the same session back.
  abbrev pub IsFaithful : Type 0
  IsFaithful = (r : SessionRecord M) → (t : T) × (codec.dumps r ≡ some t) × (codec.loads t ≡ some r)

  abbrev load_of : Option T → Option (SessionRecord M)
  load_of none = none
  load_of (some t) = codec.loads t

  record IsMirrored (s : SessionManager M T) : Type 0 where
    keyed : (k : String) (r : SessionRecord M) → Dict.get s.sessions k ≡ some r → r.session_id ≡ k
    stored : (k : String) → load_of (Dict.get s.redis k) ≡ Dict.get s.sessions k
    once : IsUnique s.sessions
    saved_once : IsUnique s.redis

  module _ (on : codec.enabled ≡ true) (faithful : IsFaithful) where
    redis-save_session :
        (k : String) (s : SessionManager M T) (r : SessionRecord M) (t : T)
        → Dict.get s.sessions k ≡ some r
        → codec.dumps r ≡ some t
        → save_session codec k s ≡ record s { redis = Dict.put s.redis k t }
    unfolding save_session
    redis-save_session k s r t e d = ground arith

    put-IsMirrored :
        (r : SessionRecord M) (s : SessionManager M T)
        → IsMirrored s
        → IsMirrored (
            save_session codec r.session_id
              (record s { sessions = Dict.put s.sessions r.session_id r }))
    put-IsMirrored r s m =
        let (t, dumped, read) = faithful r in
        let id = r.session_id in
        let s' = record s { sessions = Dict.put s.sessions id r } in
        rw (redis-save_session id s' r t (get-put_self s.sessions id r) dumped) (record {
          keyed = λ k r' h. ground (arith, get-put s.sessions id k r, m.keyed k r', eq_iff id k);
          stored =
              λ k. ground (arith, get-put s.redis id k t, get-put s.sessions id k r, m.stored k);
          once = put-IsUnique s.sessions id r m.once;
          saved_once = put-IsUnique s.redis id t m.saved_once;
        })

    heartbeat-IsMirrored :
        (now : ℕ) (id user : String) (s : SessionManager M T)
        → IsMirrored s
        → IsMirrored (heartbeat codec now id user s).0
    unfolding heartbeat
    heartbeat-IsMirrored now id user s m = elim (Option-cases (Dict.get s.sessions id)) [
      | inl e ↦ rw (e, heartbeat) m
      | inr (r, e) ↦
          rw (e, heartbeat)
            (if-both (λ (x : SessionManager M T × Result (Unit {0})). IsMirrored x.0)
              (str_eq r.user_id user)
              (subst
                (λ i. IsMirrored (
                  save_session codec i (record s {
                    sessions = Dict.put s.sessions i (record r { last_heartbeat = now });
                  })))
                (m.keyed id r e) (put-IsMirrored (record r { last_heartbeat = now }) s m))
              m)
    ]

    serve-IsMirrored :
        (requests : List (Request M)) (s : SessionManager M T)
        → IsMirrored s
        → IsMirrored (serve requests s)
    unfolding serve create_session
    serve-IsMirrored [] s m = m
    serve-IsMirrored (create id now tags metadata sdk user ∷ rest) s m =
        serve-IsMirrored rest _ (put-IsMirrored _ s m)
    serve-IsMirrored (beat now id user ∷ rest) s m =
        serve-IsMirrored rest _ (heartbeat-IsMirrored now id user s m)

  abbrev pub initial : SessionManager M T
  initial = record { sessions = []; redis = [] }

  initial-IsMirrored : IsMirrored initial
  unfolding Dict.get
  initial-IsMirrored = record {
    keyed = λ k r h. cc;
    stored = λ k. refl;
    once = tt;
    saved_once = tt;
  }

  -- With persistence enabled, and if pydantic reads every session back as it was written: after any
  -- requests, valid or not, a restart finds at every session id the session that was there.
  pub require-restart :
      (requests : List (Request M)) (id : String)
      → codec.enabled ≡ true
      → IsFaithful
      → require id (restore_from_redis codec (serve requests initial).redis)
        ≡ require id (serve requests initial)
  unfolding require restore_from_redis
  require-restart requests id on faithful =
      ap
        (λ o. elim o as (λ _. Result (SessionRecord M)) [
          | none ↦ err (session_not_found id)
          | some r ↦ ok r
        ])
        back
    where
      m : IsMirrored (serve requests initial)
      m = serve-IsMirrored on faithful requests initial initial-IsMirrored

      back :
          Dict.get (restore_from_redis codec (serve requests initial).redis).sessions id
          ≡ Dict.get (serve requests initial).sessions id
      back =
          ap (λ d. Dict.get d id)
            (if_true (restore_all codec.loads (λ r. r.session_id) (serve requests initial).redis [])
              [] on)
          ∙ get-restore_all codec.loads (λ r. r.session_id) (serve requests initial).redis id
              m.saved_once (λ k t r h l. m.keyed k r (ground (arith, m.stored k)))
          ∙ ground (arith, m.stored id)

  pub sessions-save_session :
      (k : String) (s : SessionManager M T) → (save_session codec k s).sessions ≡ s.sessions
  unfolding save_session
  sessions-save_session k s = ground arith

  -- For every session: a heartbeat of its owner sets its last heartbeat and nothing else of it, one
  -- of any other user is refused and changes nothing, and neither touches any other session; a
  -- heartbeat of an unknown session is refused and changes nothing.
  pub heartbeat_lem :
      (now : ℕ) (id j owner user : String) (s : SessionManager M T) (r : SessionRecord M)
      → Dict.get s.sessions id ≡ some r
      → r.user_id ≡ owner
      → user ≢ owner
      → Dict.get s.sessions j ≡ none
      → (Dict.get (heartbeat codec now id owner s).0.sessions id
          ≡ some (record r { last_heartbeat = now }))
        × ((k : String)
            → k ≢ id
            → Dict.get (heartbeat codec now id owner s).0.sessions k ≡ Dict.get s.sessions k)
        × (heartbeat codec now id user s ≡ (s, err user_mismatch))
        × (heartbeat codec now j user s ≡ (s, err (session_not_found j)))
  unfolding heartbeat
  heartbeat_lem now id j owner user s r e own ne absent = (
    ap (λ a. Dict.get a.0.sessions id) beaten
        ∙ rw sessions-save_session (get-put_self s.sessions id beat_record),
    (λ k other.
        ap (λ a. Dict.get a.0.sessions k) beaten
        ∙ rw sessions-save_session
            (get-put s.sessions id k beat_record ∙ ground (arith, eq_iff id k))),
    rw (e, heartbeat) (rw refused),
    rw (absent, heartbeat) refl,
  )
    where
      beat_record : SessionRecord M
      beat_record = record r { last_heartbeat = now }

      same : str_eq r.user_id owner ≡ true
      same = (eq_iff r.user_id owner).1 own

      refused : str_eq r.user_id user ≡ false
      refused = str_eq_ne r.user_id user (λ q. ne (sym q ∙ own))

      beaten : heartbeat codec now id owner s ≡ (
        save_session codec id (record s { sessions = Dict.put s.sessions id beat_record }),
        ok tt,
      )
      beaten = rw (e, heartbeat) (rw same)

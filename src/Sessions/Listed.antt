-- ===== src/Sessions/Listed.antt =====
-- Which sessions are listed for whom, after any requests.
use tu_ft.Base.{
  ℕ, String, ◌≡◌, refl, ◌∙◌, ap, Option, none, some, List, [], ◌∷◌, arith, str_eq, eq_iff, opt_map,
  opt_eq, if◌then◌else◌, Option-cases, inl, inr, Bool-cases,
}
use tu_ft.Dict
use tu_ft.Dict.{elem, test_at, get-put}
use tu_ft.Dict.Unique.{IsUnique, put-IsUnique, elem-keys_where}
use tu_ft.Persistence.{Codec}
use tu_ft.Sessions.{SessionRecord, SessionManager, create_session, heartbeat, list_sessions}
use tu_ft.Sessions.Laws.{Request, create, beat, serve, initial, sessions-save_session}

-- The user of the last request that created a session, or else `o`.
abbrev pub creator : {M : Type 0} → String → List (Request M) → Option String → Option String
creator id [] o = o
creator id (create i now tags metadata sdk user ∷ rest) o =
    creator id rest (if str_eq i id then some user else o)
creator id (beat now i user ∷ rest) o = creator id rest o

module _ {M T : Type 0} (codec : Codec (SessionRecord M) T) where
  abbrev owner_at : String → SessionManager M T → Option String
  owner_at id s = opt_map (λ r. r.user_id) (Dict.get s.sessions id)

  create_session-owner_at :
      (id i : String) (now : ℕ) (tags : List String) (metadata : M) (sdk user : String)
      (s : SessionManager M T)
      → owner_at id (create_session codec i now tags metadata sdk user s).0
        ≡ (if str_eq i id then some user else owner_at id s)
  unfolding create_session
  create_session-owner_at id i now tags metadata sdk user s =
      rw (sessions-save_session, get-put) (ground arith)

  create_session-IsUnique :
      (i : String) (now : ℕ) (tags : List String) (metadata : M) (sdk user : String)
      (s : SessionManager M T)
      → IsUnique s.sessions
      → IsUnique (create_session codec i now tags metadata sdk user s).0.sessions
  unfolding create_session
  create_session-IsUnique i now tags metadata sdk user s u =
      rw sessions-save_session (put-IsUnique s.sessions i _ u)

  -- A heartbeat gives a session back to the user that it had.
  heartbeat-Keeps :
      (now : ℕ) (id i user : String) (s : SessionManager M T)
      → IsUnique s.sessions
      → (owner_at id (heartbeat codec now i user s).0 ≡ owner_at id s)
        × IsUnique (heartbeat codec now i user s).0.sessions
  unfolding heartbeat
  heartbeat-Keeps now id i user s u = elim (Option-cases (Dict.get s.sessions i)) [
    | inl e ↦ rw (e, heartbeat) (refl, u)
    | inr (r, e) ↦ elim (Bool-cases (str_eq r.user_id user)) [
      | inl h ↦
          rw (e, heartbeat)
            (rw h (
              rw sessions-save_session (
                ground (
                  arith,
                  get-put s.sessions i id (record r { last_heartbeat = now }),
                  eq_iff i id,
                  e,
                ),
                put-IsUnique s.sessions i _ u,
              )))
      | inr h ↦ rw (e, heartbeat) (rw h (refl, u))
    ]
  ]

  serve-creator :
      (requests : List (Request M)) (id : String) (s : SessionManager M T)
      → IsUnique s.sessions
      → (owner_at id (serve codec requests s) ≡ creator id requests (owner_at id s))
        × IsUnique (serve codec requests s).sessions
  unfolding serve
  serve-creator [] id s u = (refl, u)
  serve-creator (create i now tags metadata sdk user ∷ rest) id s u =
      let r =
        serve-creator rest id (create_session codec i now tags metadata sdk user s).0
          (create_session-IsUnique i now tags metadata sdk user s u) in
      (r.0 ∙ ap (creator id rest) (create_session-owner_at id i now tags metadata sdk user s), r.1)
  serve-creator (beat now i user ∷ rest) id s u =
      let h = heartbeat-Keeps now id i user s u in
      let r = serve-creator rest id (heartbeat codec now i user s).0 h.1 in
      (r.0 ∙ ap (creator id rest) h.0, r.1)

  owned :
      (user : String) (o : Option (SessionRecord M))
      → test_at (λ r. str_eq r.user_id user) o ≡ opt_eq (opt_map (λ r. r.user_id) o) (some user)
  owned user none = refl
  owned user (some r) = refl

  -- After any requests, valid or not: an id is listed for a user exactly if the last request that
  -- created a session under the id was the user's; no heartbeat changes that, whoever sends it.
  pub elem-list_sessions :
      (requests : List (Request M)) (user id : String)
      → elem (list_sessions user (serve codec requests (initial codec))) id
        ≡ opt_eq (creator id requests none) (some user)
  unfolding list_sessions Dict.get
  elem-list_sessions requests user id =
      let s = serve codec requests (initial codec) in
      let r = serve-creator requests id (initial codec) tt in
      elem-keys_where (λ q. str_eq q.user_id user) s.sessions id r.1
      ∙ owned user (Dict.get s.sessions id)
      ∙ ap (λ o. opt_eq o (some user)) r.0

-- ===== src/Sessions.antt =====
-- src/tuft/auth.py, and `SessionManager` with the session part of `ServerState` in
-- src/tuft/state.py. `M` is the type of `user_metadata`; times are arguments.
pub mod Laws
pub mod Listed
use tu_ft.Base.{
  ℕ, String, Bool, true, false, Option, none, some, List, [], ◌∷◌, str_eq, if◌then◌else◌,
}
use tu_ft.Dict
use tu_ft.Dict.{Dict, keys_where}
use tu_ft.Errors.{Error, session_not_found, user_mismatch, Result, ok, err}
use tu_ft.Persistence.{Codec, save_record}
use tu_ft.Persistence.Restore.{restore_all}
use tu_ft.Paging.{page}

-- AuthenticationDB.authenticate: the user id that a key stands for. An empty user id is falsy.
unfoldable pub authenticate : (authorized_users : Dict String) → (api_key : String) → Option String
authenticate authorized_users api_key = elim (Dict.get authorized_users api_key) [
  | none ↦ none
  | some user_id ↦ if str_eq user_id "" then none else some user_id
]

pub record SessionRecord (M : Type 0) : Type 0 where
  pub session_id : String
  pub tags : List String
  pub user_metadata : M
  pub user_id : String
  pub sdk_version : String
  pub created_at : ℕ
  pub last_heartbeat : ℕ

pub record SessionManager (M T : Type 0) : Type 0 where
  pub sessions : Dict (SessionRecord M)
  pub redis : Dict T

module _ {M T : Type 0} (codec : Codec (SessionRecord M) T) where
  -- _save_session
  unfoldable pub save_session : String → SessionManager M T → SessionManager M T
  unfolding save_record
  save_session session_id s =
      if codec.enabled
      then elim (Dict.get s.sessions session_id) [
        | none ↦ s
        | some r ↦ record s { redis = (save_record codec session_id r s.redis).0 }
      ]
      else s

  -- `session_id` is the fresh uuid.
  unfoldable pub create_session :
      (session_id : String)
      → (now : ℕ) → (tags : List String) → (user_metadata : M) → (sdk_version user_id : String)
      → SessionManager M T
      → SessionManager M T × SessionRecord M
  unfolding save_session
  create_session session_id now tags user_metadata sdk_version user_id s =
      let r : SessionRecord M = record {
        session_id = session_id;
        tags = tags;
        user_metadata = user_metadata;
        user_id = user_id;
        sdk_version = sdk_version;
        created_at = now;
        last_heartbeat = now;
      } in
      (save_session session_id (record s { sessions = Dict.put s.sessions session_id r }), r)

  unfoldable pub heartbeat :
      (now : ℕ)
      → (session_id user_id : String) → SessionManager M T
      → SessionManager M T × Result (Unit {0})
  unfolding save_session
  heartbeat now session_id user_id s = elim (Dict.get s.sessions session_id) [
    | none ↦ (s, err (session_not_found session_id))
    | some r ↦
        if str_eq r.user_id user_id
        then (
          save_session session_id (record s {
            sessions = Dict.put s.sessions session_id (record r { last_heartbeat = now });
          }),
          ok tt,
        )
        else (s, err user_mismatch)
  ]

  -- `SessionManager()` over what Redis holds
  unfoldable pub restore_from_redis : Dict T → SessionManager M T
  unfolding restore_all
  restore_from_redis redis = record {
    sessions = if codec.enabled then restore_all codec.loads (λ r. r.session_id) redis [] else [];
    redis = redis;
  }

module _ {M T : Type 0} where
  unfoldable pub require : String → SessionManager M T → Result (SessionRecord M)
  require session_id s = elim (Dict.get s.sessions session_id) [
    | none ↦ err (session_not_found session_id)
    | some r ↦ ok r
  ]

  unfoldable pub list_sessions : (user_id : String) → SessionManager M T → List String
  list_sessions user_id s = keys_where (λ r. str_eq r.user_id user_id) s.sessions

  -- ServerState.list_sessions
  unfoldable pub list_sessions_page :
      (user_id : String) → Option ℕ → ℕ → SessionManager M T → List String
  unfolding list_sessions
  list_sessions_page user_id limit offset s = page limit offset (list_sessions user_id s)

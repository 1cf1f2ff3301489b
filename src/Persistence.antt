-- ===== src/Persistence.antt =====
-- src/tuft/persistence/redis_store.py: saving and loading records, as the controllers use them.
-- Redis is a dict of texts for each key prefix, keyed by the ids that `build_key` joins.
pub mod Restore
pub mod Signature
pub mod Mismatch
use tu_ft.Base.{String, Bool, true, false, Option, none, some, ◌≡◌, refl, if◌then◌else◌}
use tu_ft.Dict
use tu_ft.Dict.{Dict}
use tu_ft.Dict.Unique.{IsUnique, put-IsUnique}

-- What pydantic and the configuration give for one class of records: `dumps r` is the text of
-- `r.model_dump_json()`, or `none` where it raises or the write fails, and `loads` reads a text
-- back, or fails. Fields that the class excludes must not count in `dumps`.
pub record Codec (R T : Type 0) : Type 0 where
  pub enabled : Bool
  pub dumps : R → Option T
  pub loads : T → Option R

module _ {R T : Type 0} (codec : Codec R T) where
  -- save_record: whether it succeeded stands beside what Redis then holds
  unfoldable pub save_record : String → R → Dict T → Dict T × Bool
  save_record key r redis =
      if codec.enabled
      then elim (codec.dumps r) [ none ↦ (redis, false) | some t ↦ (Dict.put redis key t, true) ]
      else (redis, false)

  unfoldable pub load_text : Option T → Option R
  load_text none = none
  load_text (some t) = codec.loads t

  -- load_record
  unfoldable pub load_record : String → Dict T → Option R
  unfolding load_text
  load_record key redis = if codec.enabled then load_text (Dict.get redis key) else none

  -- delete_record
  unfoldable pub delete_record : String → Dict T → Dict T
  delete_record key redis = if codec.enabled then Dict.pop redis key else redis

  -- A save writes the dumped text, or nothing.
  pub save_record_ind :
      (P : Dict T → Type 0) (key : String) (r : R) (redis : Dict T)
      → P redis
      → ((t : T) → codec.dumps r ≡ some t → P (Dict.put redis key t))
      → P (save_record key r redis).0
  unfolding save_record
  save_record_ind P key r redis old new = by_dump codec.enabled (codec.dumps r) refl
    where
      by_dump :
          (enabled : Bool) (o : Option T)
          → codec.dumps r ≡ o
          → P
              (if enabled
                then elim o as (λ _. Dict T × Bool) [
                  | none ↦ (redis, false)
                  | some t ↦ (Dict.put redis key t, true)
                ]
                else (redis, false)).0
      by_dump false o e = old
      by_dump true none e = old
      by_dump true (some t) e = new t e

  pub save_record-IsUnique :
      (key : String) (r : R) (redis : Dict T)
      → IsUnique redis
      → IsUnique (save_record key r redis).0
  save_record-IsUnique key r redis u =
      save_record_ind (λ d. IsUnique d) key r redis u (λ t e. put-IsUnique redis key t u)

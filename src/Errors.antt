-- ===== src/Errors.antt =====
-- src/tuft/exceptions.py: the exceptions that the modelled code raises, with the fields that tell
-- them apart, and the HTTP status of each. The text of `detail` is kept where a caller chooses it.
use tu_ft.Base.{ℕ, String, Bool, true, false, ◌≡◌, refl}

pub data Error : Type 0 where
  server_error : (detail : String) → Error
  invalid_request : (detail : String) → Error
  resource_exhausted : (detail : String) → Error
  service_unavailable : (detail : String) → Error
  unknown_model : (model_name : String) → Error
  capability_disabled : (model_name capability : String) → Error
  checkpoint_not_found : (checkpoint_id : String) → Error
  checkpoint_access_denied : (checkpoint_id : String) → Error
  checkpoint_metadata_read : (checkpoint_id : String) → Error
  checkpoint_incompatible : (checkpoint_id : String) → Error
  sequence_conflict : (expected got : ℕ) → Error
  sequence_timeout : (sequence_id : ℕ) → Error
  missing_sequence_id : Error
  future_not_found : (request_id : String) → Error
  future_cancelled : (request_id reason : String) → Error
  session_not_found : (session_id : String) → Error
  user_mismatch : Error
  -- `ValueError` and `RuntimeError`, which a handler of the server turns into the status 500
  value_error : (detail : String) → Error

-- The `status_code` that each constructor passes to `TuFTException`.
unfoldable pub status_code : Error → ℕ
status_code (server_error detail) = 500
status_code (invalid_request detail) = 400
status_code (resource_exhausted detail) = 429
status_code (service_unavailable detail) = 503
status_code (unknown_model model_name) = 404
status_code (capability_disabled model_name capability) = 400
status_code (checkpoint_not_found checkpoint_id) = 404
status_code (checkpoint_access_denied checkpoint_id) = 403
status_code (checkpoint_metadata_read checkpoint_id) = 404
status_code (checkpoint_incompatible checkpoint_id) = 400
status_code (sequence_conflict expected got) = 409
status_code (sequence_timeout sequence_id) = 408
status_code missing_sequence_id = 409
status_code (future_not_found request_id) = 404
status_code (future_cancelled request_id reason) = 410
status_code (session_not_found session_id) = 404
status_code user_mismatch = 403
status_code (value_error detail) = 500

-- A call that returns or raises.
pub data Result {ℓ} (A : Type ℓ) : Type ℓ where
  ok : A → Result A
  err : Error → Result A

abbrev pub is_ok {ℓ} : {X : Type ℓ} → Result X → Bool
is_ok (ok x) = true
is_ok (err e) = false

-- What holds after an exception and after a return holds of what goes on from either.
pub Result-both {ℓ κ μ} :
    {X : Type ℓ} {Y : Type κ} (P : Y → Type μ) (o : Result X) {f : Error → Y} {g : X → Y}
    → ((e : Error) → o ≡ err e → P (f e))
    → ((x : X) → o ≡ ok x → P (g x))
    → P (elim o as (λ _. Y) [ err e ↦ f e | ok x ↦ g x ])
Result-both P (err e) pf pg = pf e refl
Result-both P (ok x) pf pg = pg x refl

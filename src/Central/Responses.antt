-- ===== src/Central/Responses.antt =====
-- What the handlers of Central answer: an HTTP status and the JSON body.
use distributed_matchmaking.Base.{ℕ, List, Str}

pub data Body (E : Type 0) : Type 0 where
  message : Str → List (Str × Str) → Body E
  fields : List (Str × Str) → Body E
  services : List Str → Body E
  store_failure : E → Body E
  failure : Str → Body E

pub record Response (E : Type 0) : Type 0 where
  pub status : ℕ
  pub body : Body E

abbrev pub respond : {E : Type 0} → ℕ → Body E → Response E
respond status body = record { status = status; body = body }

abbrev pub status_ok : ℕ
status_ok = 200

abbrev pub status_created : ℕ
status_created = 201

abbrev pub status_bad_request : ℕ
status_bad_request = 400

abbrev pub status_not_found : ℕ
status_not_found = 404

abbrev pub status_conflict : ℕ
status_conflict = 409

-- ===== src/ApiError.antt =====
-- The shapes that web/src/lib/api-error.ts and mobile/src/lib/api-error.ts share: a response body
-- of which nothing is known, the guard that reads the backend's error envelope, and the error that
-- the data hooks throw.
use postal.Prelude.{
  ℕ, String, Option, none, some, List, [], Bool, ◌&&◌, leb, ltb, ◌==◌, if◌then◌else◌, value_or,
  merge,
}

-- The properties of the value under `error`. `code` and `message` are missing where `"code" in err`
-- or `"message" in err` fails; behind the guard the code trusts their declared types.
pub record ErrorProps : Type 0 where
  pub code : Option String
  pub message : Option String
  pub fields : Option (List (String × String))
  pub request_id : Option String

-- A value under `error`: `typeof` is not "object", or it is `null`, or an object.
pub data ErrorValue : Type 0 where
  not_object null : ErrorValue
  props : ErrorProps → ErrorValue

-- `body: unknown`: not an object, `null`, or an object whose `error` property may be missing.
pub data Unknown : Type 0 where
  not_object null : Unknown
  object : Option ErrorValue → Unknown

pub record NormalizedError : Type 0 where
  pub code : String
  pub message : String
  pub field_errors : List (String × String)
  pub request_id : Option String
  pub status : ℕ

-- What `logger.warn` is called with.
pub record Warning : Type 0 where
  pub title : String
  pub request_id : Option String
  pub code : Option String
  pub status : ℕ

-- A body that passed the guard.
pub record ApiErrorBody : Type 0 where
  pub code : String
  pub message : String
  pub fields : Option (List (String × String))
  pub request_id : Option String

-- "code" in err && "message" in err
abbrev pub narrow_props : ErrorProps → Option String → Option String → Option ApiErrorBody
narrow_props p (some code) (some message) =
    some (record { code = code; message = message; fields = p.fields; request_id = p.request_id })
narrow_props p _ _ = none

abbrev pub narrow_value : ErrorValue → Option ApiErrorBody
narrow_value not_object = none
narrow_value null = none
narrow_value (props p) = narrow_props p p.code p.message

-- The type guard: the body narrowed to the envelope, `none` where it answers false.
unfoldable pub as_api_error_body : Unknown → Option ApiErrorBody
as_api_error_body not_object = none
as_api_error_body null = none
as_api_error_body (object none) = none
as_api_error_body (object (some e)) = narrow_value e

-- `response.ok`
abbrev pub is_ok : ℕ → Bool
is_ok status = leb 200 status && ltb status 300

structured : ℕ → ApiErrorBody → NormalizedError × Warning
structured status b = (
  record {
    code = b.code;
    message = b.message;
    field_errors = merge [] (value_or b.fields []);
    request_id = b.request_id;
    status = status;
  },
  record { title = "api error"; request_id = b.request_id; code = some b.code; status = status },
)

unstructured : (ℕ → String) → ℕ → NormalizedError × Warning
unstructured friendly_by_status status = (
  record {
    code = if status == 0 then "network_error" else "unexpected_error";
    message = friendly_by_status status;
    field_errors = [];
    request_id = none;
    status = status;
  },
  record { title = "api error (unstructured)"; request_id = none; code = none; status = status },
)

-- `normalizeError`, over the messages that the client has for a status.
unfoldable pub normalize_with : (ℕ → String) → ℕ → Unknown → NormalizedError × Warning
unfolding structured unstructured as_api_error_body
normalize_with friendly_by_status status body = elim (as_api_error_body body) [
  | some b ↦ structured status b
  | none ↦ unstructured friendly_by_status status
]

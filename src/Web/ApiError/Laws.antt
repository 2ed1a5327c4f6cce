-- ===== src/Web/ApiError/Laws.antt =====
-- What web/src/lib/api-error.ts makes of a response body, and what the auth forms show of it.
use postal.Prelude.{
  ℕ, String, ◌≡◌, ◌≢◌, none, some, List, [], true, ◌↔◌, arith, or_else, value_or, lookup,
  lookup_last, merge, lookup-merge, lookup-nil, merge-nil_pos_iff, eq_iff, merge-IsUnique,
  lookup_last-eq-lookup,
}
use postal.ApiError.{Unknown, ApiErrorBody, as_api_error_body}
use postal.Web.ApiError.{normalize_error, friendly_by_status, apply_server_errors}

lookup_last-merge :
    (k : String) (fields : List (String × String))
    → lookup_last k (merge [] fields) ≡ lookup_last k fields
lookup_last-merge k fields = ground (
  arith,
  lookup-nil {V = String} k,
  lookup_last-eq-lookup k (merge [] fields) (merge-IsUnique [] fields tt),
  lookup-merge k [] fields,
)

module _ (status : ℕ) (body : Unknown) where
  -- A body with the backend's envelope keeps its code, message and request id, and the error keeps
  -- the status; a field has the message of its last entry.
  pub normalize_error-structured :
      {b : ApiErrorBody}
      → as_api_error_body body ≡ some b
      → let err = (normalize_error status body).0 in
        (err.code ≡ b.code)
        × (err.message ≡ b.message)
        × (err.request_id ≡ b.request_id)
        × (err.status ≡ status)
        × ((k : String) → lookup k err.field_errors ≡ lookup_last k (value_or b.fields []))
  unfolding normalize_error
  normalize_error-structured {b = b} e = (
    ground arith,
    ground arith,
    ground arith,
    ground arith,
    λ k. ground (arith, lookup-nil {V = String} k, lookup-merge k [] (value_or b.fields [])),
  )

  -- A body without the envelope gives the message for the status, no field errors and no request id,
  -- and the code is "network_error" exactly for the status 0.
  pub normalize_error-unstructured :
      as_api_error_body body ≡ none
      → let err = (normalize_error status body).0 in
        (err.message ≡ friendly_by_status status)
        × (err.status ≡ status)
        × (err.field_errors ≡ [])
        × (err.request_id ≡ none)
        × ((err.code ≡ "network_error") ↔ (status ≡ 0))
  unfolding normalize_error
  normalize_error-unstructured e = (
    ground arith,
    ground arith,
    ground arith,
    ground arith,
    ground (arith, eq_iff "network_error" "unexpected_error"),
  )

  -- Showing the errors of a body with the envelope writes into the form the message of each field's last
  -- entry and leaves the other fields, and answers true exactly where the body had a field entry.
  pub apply_server_errors-normalize_error :
      (form : List (String × String)) {b : ApiErrorBody}
      → as_api_error_body body ≡ some b
      → let shown = apply_server_errors (normalize_error status body).0 form in
        ((k : String)
          → lookup k shown.0 ≡ or_else (lookup_last k (value_or b.fields [])) (lookup k form))
        × ((shown.1 ≡ true) ↔ (value_or b.fields [] ≢ []))
  unfolding normalize_error apply_server_errors
  apply_server_errors-normalize_error form {b} e = (
    λ k. ground (
      arith,
      lookup-merge k form (merge [] (value_or b.fields [])),
      lookup_last-merge k (value_or b.fields []),
    ),
    ground (arith, merge-nil_pos_iff (value_or b.fields [])),
  )

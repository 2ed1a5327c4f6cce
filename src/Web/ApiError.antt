-- ===== src/Web/ApiError.antt =====
-- web/src/lib/api-error.ts and web/src/features/auth/form-errors.ts
pub mod Laws
use postal.Prelude.{ℕ, String, List, Bool, ltb, leb, ◌==◌, if◌then◌else◌, length, merge}
use postal.ApiError.{Unknown, NormalizedError, Warning, normalize_with}

unfoldable pub friendly_by_status : ℕ → String
friendly_by_status status =
    if status == 0
    then "Network error - check your connection and try again."
    else (if status == 401
        then "Your session expired. Please sign in again."
        else (if status == 403
            then "You don't have permission to do that."
            else (if status == 404
                then "Not found."
                else (if status == 429
                    then "Too many requests - please slow down."
                    else (if leb 500 status
                        then "Something went wrong on our end. Please try again."
                        else "Request failed. Please try again.")))))

unfoldable pub normalize_error : ℕ → Unknown → NormalizedError × Warning
unfolding normalize_with
normalize_error status body = normalize_with friendly_by_status status body

-- `setError` writes the message of a form field. The result: the form's field errors after the loop,
-- and whether any field error was applied.
unfoldable pub apply_server_errors :
    NormalizedError → List (String × String) → List (String × String) × Bool
apply_server_errors err form =
    let entries = err.field_errors in (merge form entries, ltb 0 (length entries))

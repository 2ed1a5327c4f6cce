-- ===== src/Mobile/ApiError.antt =====
-- mobile/src/lib/api-error.ts
use postal.Prelude.{ℕ, String, leb, ◌==◌, if◌then◌else◌}
use postal.ApiError.{Unknown, NormalizedError, Warning, normalize_with}

unfoldable pub friendly_by_status : ℕ → String
friendly_by_status status =
    if status == 0
    then "Network error. Check your connection and try again."
    else (if status == 401
        then "Your session expired. Please sign in again."
        else (if status == 403
            then "You don't have permission to do that."
            else (if status == 404
                then "Not found."
                else (if status == 429
                    then "Too many requests. Please slow down."
                    else (if leb 500 status
                        then "Something went wrong on our end. Please try again."
                        else "Request failed. Please try again.")))))

unfoldable pub normalize_error : ℕ → Unknown → NormalizedError × Warning
unfolding normalize_with
normalize_error status body = normalize_with friendly_by_status status body

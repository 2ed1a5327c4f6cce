-- ===== src/Web/Http.antt =====
-- Requests, responses and the CSRF token of web/src/api/client.ts: what its functions do apart from
-- the calls of `fetch`. Session storage is modelled with its failures.
use postal.Prelude.{
  Text, ℕ, String, Option, none, some, List, [], ◌∷◌, Bool, false, not, ◌&&◌, ◌||◌, ◌==◌,
  if◌then◌else◌, any, codes, text_eq, includes, to_upper, insert, str_eq,
}
use postal.ApiError.{is_ok}

pub record Request : Type 0 where
  pub method : Text
  pub url : Text
  pub headers : List (String × Text)

-- What the code reads of a JSON body: `data.csrf_token` and `error.code`.
pub record Payload : Type 0 where
  pub csrf_token : Option Text
  pub error_code : Option String

pub record Response : Type 0 where
  pub status : ℕ
  pub request_id : Option String  -- the header x-request-id
  pub json : Option Payload  -- `none` where `json()` rejects

-- `sessionStorage`: absent (`typeof` is "undefined"), throwing on every call, throwing on writes, or
-- working, with the token under the key `postal_csrf_token`.
pub data Storage : Type 0 where
  absent blocked : Storage
  read_only working : Option Text → Storage

-- An empty string is falsy.
abbrev pub truthy : Option Text → Option Text
truthy none = none
truthy (some []) = none
truthy (some (c ∷ s)) = some (c ∷ s)

abbrev pub mutating_methods : List Text
mutating_methods = codes "POST" ∷ codes "PUT" ∷ codes "PATCH" ∷ codes "DELETE" ∷ []

-- `MUTATING.has(request.method.toUpperCase())`
unfoldable pub is_mutating : Request → Bool
unfolding text_eq to_upper
is_mutating request = any (text_eq (to_upper request.method)) mutating_methods

unfoldable pub is_auth_flow : Text → Bool
unfolding includes
is_auth_flow url =
    includes url (codes "/auth/refresh")
    || includes url (codes "/auth/login")
    || includes url (codes "/auth/logout")

-- `request.headers.set(key, value)`
unfoldable pub set_header : String → Text → Request → Request
set_header key value request = record request { headers = insert key value request.headers }

unfoldable pub set_csrf : Option Text → Request → Request
unfolding set_header
set_csrf none request = request
set_csrf (some token) request = set_header "X-CSRF-Token" token request

abbrev pub stored_token : Storage → Option Text
stored_token absent = none
stored_token blocked = none
stored_token (read_only token) = truthy token
stored_token (working token) = truthy token

-- `setItem`, where it works
abbrev pub set_item : Text → Storage → Storage
set_item token (working _) = working (some token)
set_item token other = other

unfoldable pub store_csrf : Option Text → Storage → Storage
store_csrf token storage = elim (truthy token) [ none ↦ storage | some t ↦ set_item t storage ]

abbrev pub issues_csrf : Text → Bool
issues_csrf url = includes url (codes "/auth/login") || includes url (codes "/auth/refresh")

unfoldable pub capture_csrf : Response → Text → Storage → Storage
unfolding store_csrf includes
capture_csrf res url storage =
    if not (is_ok res.status) || not (issues_csrf url)
    then storage
    else elim res.json [ none ↦ storage | some body ↦ store_csrf body.csrf_token storage ]

abbrev pub has_code : String → Option Payload → Bool
has_code code none = false
has_code code (some body) = elim body.error_code [ none ↦ false | some c ↦ str_eq c code ]

unfoldable pub is_csrf_failure : Response → Bool
is_csrf_failure res = res.status == 403 && has_code "csrf_failed" res.json

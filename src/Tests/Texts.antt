-- ===== src/Tests/Texts.antt =====
-- The texts that the web client reads and prints: cookies, URLs, API errors, handles and sizes.
use postal.Prelude.{
  is_space, Text, ℕ, String, ◌≡◌, ◌≢◌, refl, ◌⊎◌, inr, ◌↔◌, none, some, List, [], ◌∷◌, ◌++◌, true,
  false, codes, ◌||◌, ◌==◌, lookup, lookup_last, arith, or_else, value_or, strip_prefix,
}
use postal.ApiError.{props, Unknown, object, ApiErrorBody, as_api_error_body}
use postal.Web.ApiError.{normalize_error, friendly_by_status, apply_server_errors}
use postal.Web.ApiError.Laws.{
  normalize_error-structured, normalize_error-unstructured, apply_server_errors-normalize_error,
}
use postal.Web.Cookie.{find_cookie}
use postal.Web.Cookie.Laws.{jar_text, first_value, find_cookie-jar_text}
use postal.Web.Links.{url_chars, match_here, first_url, https}
use postal.Web.Links.Laws.{IsUrlIn, first_url-IsUrlIn, first_url-ne-none}
use postal.Web.Format.{at_handle, tenths, ByteUnit, format_bytes}
use postal.Web.Format.Laws.{Shows, format_bytes-Shows, at_handle_normal}

abbrev jar : List (Text × Text)
jar = (codes "a", codes "1") ∷ (codes "b", codes "2") ∷ []

find_cookie-jar_text_example : find_cookie (codes "b") (jar_text jar) ≡ first_value (codes "b") jar
find_cookie-jar_text_example =
    find_cookie-jar_text (codes "b") ((omega arith, omega arith), tt) jar
      (
        (((omega arith, omega arith), tt), (omega arith, tt)),
        ((((omega arith, omega arith), tt), (omega arith, tt)), tt),
      )

abbrev post_text : Text
post_text = codes "see https://a.io now"

found : first_url post_text ≡ some (codes "https://a.io")
unfolding first_url match_here url_chars strip_prefix is_space
found = refl

first_url-IsUrlIn_example : IsUrlIn post_text (codes "https://a.io")
first_url-IsUrlIn_example = first_url-IsUrlIn post_text found

plain_char : (is_space b'a' || b'a' == b')') ≡ false
unfolding is_space
plain_char = refl

first_url-ne-none_at : first_url (codes "see " ++ (https ++ b'a' ∷ codes ".io")) ≢ none
first_url-ne-none_at =
    first_url-ne-none (codes "see ") https (codes ".io") b'a' (inr refl) plain_char

abbrev envelope : Unknown
envelope = object (
    some (
      props (record {
        code = some "validation_failed";
        message = some "Check the fields.";
        fields = some (("email", "taken") ∷ []);
        request_id = some "r";
      })))

abbrev read : ApiErrorBody
read = record {
  code = "validation_failed";
  message = "Check the fields.";
  fields = some (("email", "taken") ∷ []);
  request_id = some "r";
}

reads : as_api_error_body envelope ≡ some read
unfolding as_api_error_body
reads = refl

no_envelope : as_api_error_body Unknown.null ≡ none
unfolding as_api_error_body
no_envelope = refl

normalize_error-structured_at :
    ((normalize_error 422 envelope).0.code ≡ "validation_failed")
    × ((normalize_error 422 envelope).0.message ≡ "Check the fields.")
    × ((normalize_error 422 envelope).0.request_id ≡ some "r")
    × ((normalize_error 422 envelope).0.status ≡ 422)
    × ((k : String)
        → lookup k (normalize_error 422 envelope).0.field_errors
          ≡ lookup_last k (value_or read.fields []))
normalize_error-structured_at = normalize_error-structured 422 envelope reads

normalize_error-unstructured_at :
    ((normalize_error 500 Unknown.null).0.message ≡ friendly_by_status 500)
    × ((normalize_error 500 Unknown.null).0.status ≡ 500)
    × ((normalize_error 500 Unknown.null).0.field_errors ≡ [])
    × ((normalize_error 500 Unknown.null).0.request_id ≡ none)
    × (((normalize_error 500 Unknown.null).0.code ≡ "network_error") ↔ (◌≡◌ {A = ℕ} 500 0))
normalize_error-unstructured_at = normalize_error-unstructured 500 Unknown.null no_envelope

abbrev form : List (String × String)
form = ("password", "too short") ∷ []

apply_server_errors-normalize_error_example :
    ((k : String)
      → lookup k (apply_server_errors (normalize_error 422 envelope).0 form).0
        ≡ or_else (lookup_last k (value_or read.fields [])) (lookup k form))
    × (((apply_server_errors (normalize_error 422 envelope).0 form).1 ≡ true)
        ↔ (value_or read.fields [] ≢ []))
apply_server_errors-normalize_error_example =
    apply_server_errors-normalize_error 422 envelope form reads

at_handle_normal_at :
    ((t : Text) × (at_handle (codes "ada") ≡ b'@' ∷ t))
    × (at_handle (at_handle (codes "ada")) ≡ at_handle (codes "ada"))
    × ((at_handle (codes "ada") ≡ codes "ada") ⊎ (at_handle (codes "ada") ≡ b'@' ∷ codes "ada"))
at_handle_normal_at = at_handle_normal (codes "ada")

format_bytes-Shows_example : Shows 1536 (format_bytes 1536)
format_bytes-Shows_example = format_bytes-Shows 1536

-- Just below a megabyte the largest unit that fits is still the smaller one.
below_megabyte : format_bytes 1048575 ≡ tenths 10240 ByteUnit.kib
unfolding format_bytes
below_megabyte = refl

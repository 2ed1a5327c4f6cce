-- ===== src/Query.antt =====
-- The shape that the data hooks of both clients share: a query or a mutation is the call that it
-- makes, what it makes of the reply, and, for a mutation, what it tells the query cache on success.
-- The cache itself is TanStack Query's: `QueryCache` states what the hooks rely on.
pub mod Cache
use postal.Prelude.{
  ℕ, String, Text, Option, none, some, List, [], ◌∷◌, Bool, true, false, if◌then◌else◌, str_eq,
}
use postal.ApiError.{is_ok, Unknown, NormalizedError, Warning}
use postal.Schema.{User, Post, MediaMeta, VariantInput}

-- A part of a query key: a text, or the object `{ from, to }`.
pub data Part : Type 0 where
  text : String → Part
  window : Option String → Option String → Part

abbrev pub Key : Type 0
Key = List Part

-- `["workspaces", workspaceId, ...rest]`
abbrev pub in_workspace : String → Key → Key
in_workspace workspace rest = text "workspaces" ∷ text workspace ∷ rest

pub data Method : Type 0 where
  get post put patch delete : Method

-- A value of a request's body; a field that is `undefined` is left out of the JSON.
pub data Field : Type 0 where
  str : String → Field
  txt : Text → Field
  num : ℕ → Field
  bool : Bool → Field
  strs : List String → Field
  record_of : List (String × String) → Field
  texts_of : List (String × Text) → Field
  variants : List VariantInput → Field
  null undefined : Field

pub record ApiCall : Type 0 where
  pub method : Method
  pub path : String
  pub path_params : List (String × String)
  pub query : List (String × Field)
  pub body : List (String × Field)

-- A JSON reply: `data` is missing where the answer was an error, and `data.data` may be missing too.
pub record Reply {ℓ} (D : Type ℓ) : Type ℓ where
  pub status : ℕ
  pub data_field : Option (Option D)
  pub error : Unknown

-- What a `queryFn` or a `mutationFn` ends in: a value, a thrown `NormalizedError` with the warning
-- that was logged, or a `TypeError` from a property of `undefined`.
pub data Result {ℓ} (A : Type ℓ) : Type ℓ where
  ok : A → Result A
  thrown : NormalizedError × Warning → Result A
  type_error : Result A

-- `Boolean(id)` for an id that may be `undefined`
abbrev pub is_given : Option String → Bool
is_given none = false
is_given (some id) = if str_eq id "" then false else true

abbrev pub enveloped {ℓ κ} :
    {D : Type ℓ} {A : Type κ} → (Option D → Result A) → Result A → Option (Option D) → Result A
enveloped f refused none = refused
enveloped f refused (some inner) = f inner

abbrev pub unwrapped {ℓ κ} :
    {D : Type ℓ} {A : Type κ} → (D → Result A) → Result A → Option (Option D) → Result A
unwrapped f refused (some (some d)) = f d
unwrapped f refused _ = refused

module _ (normalize : ℕ → Unknown → NormalizedError × Warning) where
  -- `if (!response.ok || !data) throw normalizeError(response.status, error); return …`
  abbrev pub with_envelope {ℓ κ} :
      {D : Type ℓ} {A : Type κ} → (Option D → Result A) → Reply D → Result A
  with_envelope f r =
      let refused = thrown (normalize r.status r.error) in
      if is_ok r.status then enveloped f refused r.data_field else refused

  -- `if (!response.ok || !data?.data) throw normalizeError(response.status, error); return …`
  abbrev pub with_data {ℓ κ} : {D : Type ℓ} {A : Type κ} → (D → Result A) → Reply D → Result A
  with_data f r =
      let refused = thrown (normalize r.status r.error) in
      if is_ok r.status then unwrapped f refused r.data_field else refused

  -- `if (!response.ok) throw normalizeError(response.status, error);`
  abbrev pub when_ok {ℓ} : {D : Type ℓ} → Reply D → Result (Unit {0})
  when_ok r = if is_ok r.status then ok tt else thrown (normalize r.status r.error)

-- `try { const a = await …; f(a) } catch (e) { g(e.message) }`; `unknown` is the message of an error of
-- the language.
abbrev pub awaited {ℓ κ} :
    {A : Type ℓ} {S : Type κ} → String → Result A → (A → S) → (String → S) → S
awaited unknown (ok a) f g = f a
awaited unknown (thrown (err, _)) f g = g err.message
awaited unknown type_error f g = g unknown

-- `(data.data ?? []) as T[]`
abbrev pub or_empty {ℓ} : {A : Type ℓ} → Option (List A) → Result (List A)
or_empty none = ok []
or_empty (some xs) = ok xs

-- A value that a hook writes into the cache.
pub data Cached : Type 0 where
  user : Option User → Cached
  post : Post → Cached

-- What a mutation tells the query client.
pub data Effect : Type 0 where
  invalidate : Key → Effect
  set_data : Key → Cached → Effect
  remove_all : Effect

pub record Query {ℓ κ} (D : Type ℓ) (A : Type κ) : Type (ℓ ⊔ κ) where
  pub key : Key
  pub enabled : Bool
  pub call : ApiCall
  pub select : Reply D → Result A

pub record Mutation {ℓ κ μ} (In : Type ℓ) (D : Type κ) (A : Type μ) : Type (ℓ ⊔ κ ⊔ μ) where
  pub call : In → ApiCall
  pub select : Reply D → Result A
  pub on_success : A → In → List Effect

-- A property that is left out where it is `undefined`.
abbrev pub opt_str : Option String → Field
opt_str none = undefined
opt_str (some s) = str s

abbrev pub opt_bool : Option Bool → Field
opt_bool none = undefined
opt_bool (some b) = bool b

-- A call below "/api/v1/workspaces/{workspaceID}": `more` are the path's other parameters.
abbrev pub workspace_call :
    Method
    → String
    → String
    → List (String × String)
    → List (String × Field)
    → List (String × Field)
    → ApiCall
workspace_call method path ws more query body = record {
  method = method;
  path = path;
  path_params = ("workspaceID", ws) ∷ more;
  query = query;
  body = body;
}

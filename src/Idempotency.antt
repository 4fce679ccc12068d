-- ===== src/Idempotency.antt =====
-- src/common/interceptors/idempotency.interceptor.ts: the cache of answers by idempotency key. The
-- handler of the route, its state and its body are parameters; a Moment is what the clock and the
-- database do during one call. The insertion, which the source does not wait for, is done when the
-- handler has returned; a thrown handler emits nothing, so nothing is inserted.
pub mod Laws
mod Examples
-- 24 hours
use fenzit_be.Access.Guards.{RequestUser}
use fenzit_be.Attendance.Errors.{validation_error, http_exception, thrown, returned, Result}
use fenzit_be.Access.Guards.{is_uuid, single, Header}
use fenzit_be.Prelude.{
  ◌+◌, zero, not, exists, ltb, [], suc, ◌||◌, none, ◌&&◌, text_eq, ◌==◌, ◌∷◌, some, if◌then◌else◌,
  ◌++◌, Bool, Option, List, Text, ℕ,
}

abbrev pub window_ms : ℕ
window_ms = 86400000

abbrev char_at : ℕ → Text → ℕ
char_at n [] = 0
char_at zero (c ∷ s) = c
char_at (suc n) (c ∷ s) = char_at n s

abbrev is_variant : ℕ → Bool
is_variant c =
    (c == b'8') || (c == b'9') || (c == b'a') || (c == b'b') || (c == b'A') || (c == b'B')

-- `UUID_V4_RE`
unfoldable pub is_uuid_v4 : Text → Bool
is_uuid_v4 s = is_uuid s && ((char_at 14 s == b'4') && is_variant (char_at 19 s))

-- A row of `idempotency_log`; `scope` is "METHOD:/path".
pub record LogRow (B : Type 0) : Type 0 where
  pub key : Text
  pub tenant_id : Text
  pub scope : Text
  pub response_body : B
  pub created_at : ℕ

pub record KeyedRequest : Type 0 where
  pub idempotency_key : Header
  pub user : Option RequestUser
  pub method : Text
  pub url : Text

pub record Moment : Type 0 where
  pub now : ℕ
  pub lookup_fails : Bool
  pub insert_fails : Bool
  pub inserted_at : ℕ

-- `req.url.split('?')[0]`
unfoldable pub path_of : Text → Text
path_of [] = []
path_of (c ∷ s) = let rest = path_of s in if c == b'?' then [] else c ∷ rest

abbrev pub scope_of : KeyedRequest → Text
scope_of request = request.method ++ (b':' ∷ path_of request.url)

abbrev pub is_entry : {B : Type 0} → Text → Text → Text → LogRow B → Bool
is_entry key tenant_id scope row =
    text_eq row.key key && (text_eq row.tenant_id tenant_id && text_eq row.scope scope)

abbrev pub is_live : {B : Type 0} → ℕ → Text → Text → Text → LogRow B → Bool
is_live now key tenant_id scope row =
    is_entry key tenant_id scope row && ltb now (row.created_at + window_ms)

abbrev pub live_rows : {B : Type 0} → ℕ → Text → Text → Text → List (LogRow B) → List (LogRow B)
live_rows now key tenant_id scope [] = []
live_rows now key tenant_id scope (row ∷ log) =
    let rest = live_rows now key tenant_id scope log in
    if is_live now key tenant_id scope row then row ∷ rest else rest

-- `maybeSingle`: several rows are an error, which has no data.
abbrev pub maybe_single : {B : Type 0} → List (LogRow B) → Option B
maybe_single (row ∷ []) = some row.response_body
maybe_single _ = none

unfoldable pub look_up : {B : Type 0} → Moment → Text → Text → Text → List (LogRow B) → Option B
look_up moment key tenant_id scope log =
    if moment.lookup_fails
    then none
    else maybe_single (live_rows moment.now key tenant_id scope log)

-- The insertion: a taken (key, tenant, scope) is a 23505, which is swallowed as any other failure.
unfoldable pub persist :
    {B : Type 0} → Moment → Text → Text → Text → B → List (LogRow B) → List (LogRow B)
persist moment key tenant_id scope body log =
    if moment.insert_fails || exists (is_entry key tenant_id scope) log
    then log
    else record {
      key = key;
      tenant_id = tenant_id;
      scope = scope;
      response_body = body;
      created_at = moment.inserted_at;
    }
      ∷ log

abbrev pub kept_answer :
    {B S : Type 0}
    → Moment
    → Text
    → Text
    → Text
    → List (LogRow B)
    → Result B × S
    → Result B × (List (LogRow B) × S)
kept_answer moment key tenant_id scope log (returned body, s) =
    (returned body, (persist moment key tenant_id scope body log, s))
kept_answer moment key tenant_id scope log (thrown e, s) = (thrown e, (log, s))

abbrev pub plain_answer :
    {B S : Type 0} → List (LogRow B) → Result B × S → Result B × (List (LogRow B) × S)
plain_answer log (answer, s) = (answer, (log, s))

-- A call with a key, by a user of the company.
unfoldable pub intercept_keyed :
    {B S : Type 0}
    → Moment
    → (S → Result B × S)
    → Text
    → Text
    → Text
    → List (LogRow B)
    → S
    → Result B × (List (LogRow B) × S)
intercept_keyed moment next key tenant_id scope log s =
    elim (look_up moment key tenant_id scope log) [
      | some body ↦ (returned body, (log, s))
      | none ↦ kept_answer moment key tenant_id scope log (next s)
    ]

-- `user?.tenantId`, of which an empty one is none.
abbrev pub tenant_of : Option RequestUser → Option Text
tenant_of none = none
tenant_of (some user) = elim user.tenant_id [ some (c ∷ s) ↦ some (c ∷ s) | _ ↦ none ]

-- The header as a text that is not empty: no header, and a header given twice, are no key.
abbrev pub key_of : Header → Option Text
key_of (single (c ∷ s)) = some (c ∷ s)
key_of _ = none

unfoldable pub intercept :
    {B S : Type 0}
    → Moment
    → (S → Result B × S)
    → KeyedRequest
    → List (LogRow B)
    → S
    → Result B × (List (LogRow B) × S)
intercept moment next request log s = elim (key_of request.idempotency_key) [
  | none ↦ plain_answer log (next s)
  | some key ↦
      if not (is_uuid_v4 key)
      then (thrown (http_exception 422 validation_error), (log, s))
      else elim (tenant_of request.user) [
        | none ↦ plain_answer log (next s)
        | some tenant_id ↦ intercept_keyed moment next key tenant_id (scope_of request) log s
      ]
]

-- ===== src/Access/Guards.antt =====
-- src/common/guards/jwt-auth.guard.ts and permissions.guard.ts. The verification of a token's signature
-- and expiry belongs to a library, and is a parameter: it gives the payload of a token or nothing.
use fenzit_be.Calendar.{split_on, is_digit}
use fenzit_be.Access.Permissions.{platform_wide_permissions, permissions_for, has, Role, Permission}
use fenzit_be.Access.Membership.{Membership, resolve, ResolvedAccess, Directory}
use fenzit_be.Attendance.Errors.{
  resource_not_found, forbidden, unauthorized, internal_server_error, http_exception, returned,
  thrown, Result, ◌>>=◌,
}
use mathlib.Core.Option
use fenzit_be.Prelude.{
  map, exists, ◌+◌, [], zero, find, get_or, codes, ◌==◌, ◌&&◌, ◌∷◌, suc, is_some, false, text_eq,
  leb, true, ◌||◌, if◌then◌else◌, none, some, List, ℕ, Bool, Text, Option,
}

pub record JwtPayload : Type 0 where
  pub sub : Option Text
  pub typ : Option Text

pub data Header : Type 0 where
  absent : Header
  single : Text → Header
  several : List Text → Header

pub record Request : Type 0 where
  pub authorization : Header
  pub company : Header

pub record RequestUser : Type 0 where
  pub user_id : Text
  pub tenant_id : Option Text
  pub role : Option Role
  pub platform_admin : Bool
  pub raw_jwt : Text

-- What the decorators of a route say; `@Can` lists permissions.
pub record Route : Type 0 where
  pub is_public : Bool
  pub any_member : Bool
  pub can : Option (List Permission)

abbrev is_hex : ℕ → Bool
is_hex c = is_digit c || ((leb b'a' c && leb c b'f') || (leb b'A' c && leb c b'F'))

-- `n` hexadecimal digits, and what stands behind them
hex_run : ℕ → Text → Option Text
hex_run zero s = some s
hex_run (suc n) [] = none
hex_run (suc n) (c ∷ s) = let rest = hex_run n s in if is_hex c then rest else none

abbrev dash : Text → Option Text
dash [] = none
dash (c ∷ s) = if c == b'-' then some s else none

abbrev and_dash : ℕ → Text → Option Text
and_dash n s = elim (hex_run n s) [ none ↦ none | some rest ↦ dash rest ]

abbrev then_run : Option Text → (Text → Option Text) → Option Text
then_run none k = none
then_run (some s) k = k s

-- `UUID_RE`
unfoldable pub is_uuid : Text → Bool
unfolding hex_run
is_uuid s =
    elim (then_run
      (then_run (then_run (then_run (and_dash 8 s) (and_dash 4)) (and_dash 4)) (and_dash 4))
      (hex_run 12)) [ some [] ↦ true | _ ↦ false ]

abbrev non_empty : Text → Option Text
non_empty [] = none
non_empty (c ∷ s) = some (c ∷ s)

bearer : List Text → Option Text
bearer (type ∷ token ∷ rest) = if text_eq type (codes "Bearer") then non_empty token else none
bearer _ = none

unfoldable pub extract_token_from_header : Request → Option Text
unfolding bearer
extract_token_from_header request = elim request.authorization [
  | single header ↦ bearer (split_on b' ' header)
  | _ ↦ none
]

-- The first value of the header, when it has one that is not empty.
company_value : Header → Option Text
company_value absent = none
company_value (single value) = non_empty value
company_value (several []) = none
company_value (several (value ∷ rest)) = non_empty value

abbrev lower : ℕ → ℕ
lower c = if leb b'A' c && leb c b'Z' then c + 32 else c

-- Anything thrown by the look-up of the company passes through, as a 500.
unfoldable pub company_from_header : Directory → Request → Result (Option Text)
unfolding company_value
company_from_header directory request = elim (company_value request.company) [
  | none ↦ returned none
  | some value ↦
      if is_uuid value
      then elim (directory.company_exists value) [
        | none ↦ thrown (http_exception 500 internal_server_error)
        | some false ↦ thrown (http_exception 404 resource_not_found)
        | some true ↦ returned (some (map lower value))
      ]
      else thrown (http_exception 404 resource_not_found)
]

abbrev refused : {A : Type 0} → Result A
refused = thrown (http_exception 401 unauthorized)

-- The person that an access token names.
unfoldable pub subject_of : JwtPayload → Result Text
subject_of payload = elim payload.sub [
  | none ↦ refused
  | some sub ↦
      if text_eq (get_or payload.typ []) (codes "access") && is_uuid sub
      then returned sub
      else refused
]

unfoldable pub access_of : Directory → Text → Result ResolvedAccess
access_of directory sub = elim (resolve directory sub) [
  | none ↦ thrown (http_exception 500 internal_server_error)
  | some none ↦ refused
  | some (some access) ↦ if access.disabled then refused else returned access
]

abbrev verified : Option JwtPayload → Result JwtPayload
verified none = refused
verified (some payload) = returned payload

abbrev token_of : Request → Result Text
token_of request = elim (extract_token_from_header request) [
  | none ↦ refused
  | some token ↦ returned token
]

-- Staff act on the company of the header; anybody else on the company of their membership.
unfoldable pub tenant_and_role :
    Directory → Request → ResolvedAccess → Result (Option Text × Option Role)
tenant_and_role directory request access =
    if access.platform_admin
    then elim (company_from_header directory request) [
      | thrown e ↦ thrown e
      | returned tenant_id ↦ returned (tenant_id, some Role.platform_admin)
    ]
    else returned (
      Option.map (λ (m : Membership). m.tenant_id) access.membership,
      Option.map (λ (m : Membership). m.role) access.membership,
    )

abbrev pub user_of : Text → ResolvedAccess → Option Text × Option Role → RequestUser
user_of token access acting = record {
  user_id = access.user_id;
  tenant_id = acting.0;
  role = acting.1;
  platform_admin = access.platform_admin;
  raw_jwt = token;
}

-- `JwtAuthGuard.canActivate`: the user that the request gets, and none on a public route.
unfoldable pub authenticate :
    (Text → Option JwtPayload) → Directory → Route → Request → Result (Option RequestUser)
unfolding subject_of
authenticate verify directory route request = if route.is_public then returned none else do
  token ← token_of request
  payload ← verified (verify token)
  sub ← subject_of payload
  access ← access_of directory sub
  acting ← tenant_and_role directory request access
  returned (some (user_of token access acting))

-- Both refusals are a 403; they differ in their message.
pub data Verdict : Type 0 where
  allowed insufficient_permissions name_the_company : Verdict

-- `user.tenantId` as a test: the empty text counts as none.
abbrev pub has_company : RequestUser → Bool
has_company user = elim user.tenant_id [ none ↦ false | some t ↦ is_some (non_empty t) ]

abbrev pub is_usable : RequestUser → Permission → Bool
is_usable user p =
    has (permissions_for user.role) p && (has_company user || has platform_wide_permissions p)

unfoldable pub judge : RequestUser → List Permission → Verdict
judge user required =
    if is_some (find (is_usable user) required)
    then allowed
    else if exists (has (permissions_for user.role)) required
    then name_the_company
    else insufficient_permissions

unfoldable pub judge_listed : RequestUser → Option (List Permission) → Verdict
judge_listed user none = insufficient_permissions
judge_listed user (some []) = insufficient_permissions
judge_listed user (some (p ∷ required)) = judge user (p ∷ required)

-- `PermissionsGuard.canActivate`
unfoldable pub can_activate : Route → Option RequestUser → Verdict
can_activate route user =
    if route.is_public
    then allowed
    else if route.any_member
    then allowed
    else elim user [ none ↦ insufficient_permissions | some u ↦ judge_listed u route.can ]

abbrev pub verdict_result : Verdict → Option RequestUser → Result (Option RequestUser)
verdict_result allowed user = returned user
verdict_result _ user = thrown (http_exception 403 forbidden)

-- The two guards, one after the other, as every route has them.
unfoldable pub guarded :
    (Text → Option JwtPayload) → Directory → Route → Request → Result (Option RequestUser)
guarded verify directory route request = do
  user ← authenticate verify directory route request
  verdict_result (can_activate route user) user

-- ===== src/Access/Authentication.antt =====
-- What authentication and both guards of src/common/guards make of a request.
use fenzit_be.Access.Laws.{can_activate_iff, MayPass}
use fenzit_be.Access.Permissions.{Role}
use fenzit_be.Access.Guards.{
  is_uuid, name_the_company, user_of, company_from_header, insufficient_permissions, subject_of,
  can_activate, verdict_result, allowed, Header, JwtPayload, extract_token_from_header, RequestUser,
  Request, Route, guarded, Verdict, authenticate, access_of, tenant_and_role,
}
use fenzit_be.Access.Membership.{UserAccessRow, Membership, resolve, Directory, ResolvedAccess}
use fenzit_be.Attendance.Errors.{Result-cases, returned}
use mathlib.Core.Option
use fenzit_be.Prelude.{
  and_right, and_left, text_eq→eq, ◌&&◌, text_eq, codes, none, some, sym, inr, ◌∙◌, arith, inl, ap,
  subst, Option-cases, ◌⊎◌, false, Bool-cases, some, true, ◌≡◌, Option, Text, refl,
}

-- The company and the role that a user acts with: staff act on the company that they name, anybody else
-- on the company of their active membership.
abbrev pub ActsFor : ResolvedAccess → Option Text → Option Role → Type 0
ActsFor access tenant_id role =
    (access.platform_admin ≡ true) × (role ≡ some Role.platform_admin)
    ⊎ (access.platform_admin ≡ false)
      × (tenant_id ≡ Option.map (λ (m : Membership). m.tenant_id) access.membership)
      × (role ≡ Option.map (λ (m : Membership). m.role) access.membership)

-- The token of the request is one that verification admits and an access token, and names the person.
abbrev pub Names : (Text → Option JwtPayload) → Request → (token sub : Text) → Type 0
Names verify request token sub =
    (payload : JwtPayload) × (extract_token_from_header request ≡ some token)
    × (verify token ≡ some payload)
    × (payload.sub ≡ some sub)
    × (payload.typ ≡ some (codes "access"))
    × (is_uuid sub ≡ true)

-- The user is the person that the token names, who is in the database and not disabled, as the database
-- has them now.
abbrev pub SignedIn : (Text → Option JwtPayload) → Directory → Request → RequestUser → Type 0
SignedIn verify directory request user =
    (sub : Text) × (row : UserAccessRow) × (access : ResolvedAccess) × Names verify request
      user.raw_jwt sub
    × (directory.user_row sub ≡ some (some row))
    × (row.disabled ≡ false)
    × (user.user_id ≡ row.id)
    × (user.platform_admin ≡ row.platform_admin)
    × (resolve directory sub ≡ some (some access))
    × ActsFor access user.tenant_id user.role

-- What stands behind a user that passes both guards.
abbrev pub Admitted :
    (Text → Option JwtPayload) → Directory → Route → Request → RequestUser → Type 0
Admitted verify directory route request user =
    SignedIn verify directory request user × MayPass route user

tenant_and_role-ActsFor :
    (directory : Directory) (request : Request) (access : ResolvedAccess)
    {acting : Option Text × Option Role}
    → tenant_and_role directory request access ≡ returned acting
    → ActsFor access acting.0 acting.1
unfolding tenant_and_role
tenant_and_role-ActsFor directory request access {acting} h =
    elim (Bool-cases access.platform_admin) [
      | inl e ↦ elim (Result-cases (company_from_header directory request)) [
        | inl (x, f) ↦ absurd (ground arith)
        | inr (t, f) ↦ inl (e, ground arith)
      ]
      | inr e ↦
          let same : (
            Option.map (λ (m : Membership). m.tenant_id) access.membership,
            Option.map (λ (m : Membership). m.role) access.membership,
          )
              ≡ acting =
            ground arith in
          inr (e, sym (ap (λ a. a.0) same), sym (ap (λ a. a.1) same))
    ]

access_of-resolve :
    (directory : Directory) (sub : Text) {access : ResolvedAccess}
    → access_of directory sub ≡ returned access
    → (resolve directory sub ≡ some (some access)) × (access.disabled ≡ false)
unfolding access_of
access_of-resolve directory sub {access} h = elim (Option-cases (resolve directory sub)) [
  | inl e ↦ absurd (ground arith)
  | inr (none, e) ↦ absurd (ground arith)
  | inr (some a, e) ↦
      let off : a.disabled ≡ false = ground arith in
      let same : a ≡ access = ground arith in
      (e ∙ ap (λ b. some (some b)) same, ap (λ (b : ResolvedAccess). b.disabled) (sym same) ∙ off)
]

-- The calls that authentication has made when it gives a user.
abbrev Chain : (Text → Option JwtPayload) → Directory → Route → Request → RequestUser → Type 0
Chain verify directory route request user =
    (token : Text) × (payload : JwtPayload) × (sub : Text) × (access : ResolvedAccess)
    × (acting : Option Text × Option Role) × (route.is_public ≡ false)
    × (extract_token_from_header request ≡ some token)
    × (verify token ≡ some payload)
    × (subject_of payload ≡ returned sub)
    × (access_of directory sub ≡ returned access)
    × (tenant_and_role directory request access ≡ returned acting)
    × (user_of token access acting ≡ user)

authenticate-Chain :
    (verify : Text → Option JwtPayload) (directory : Directory) (route : Route) (request : Request)
    {user : RequestUser}
    → authenticate verify directory route request ≡ returned (some user)
    → Chain verify directory route request user
unfolding authenticate
authenticate-Chain verify directory route request {user} h = elim (Bool-cases route.is_public) [
  | inl e ↦ absurd (ground arith)
  | inr e ↦ elim (Option-cases (extract_token_from_header request)) [
    | inl f ↦ absurd (ground arith)
    | inr (token, f) ↦ elim (Option-cases (verify token)) [
      | inl g ↦ absurd (ground arith)
      | inr (payload, g) ↦ elim (Result-cases (subject_of payload)) [
        | inl (x, i) ↦ absurd (ground arith)
        | inr (sub, i) ↦ elim (Result-cases (access_of directory sub)) [
          | inl (x, j) ↦ absurd (ground arith)
          | inr (access, j) ↦ elim (Result-cases (tenant_and_role directory request access)) [
            | inl (x, k) ↦ absurd (ground arith)
            | inr (acting, k) ↦
                (token, payload, sub, access, acting, e, f, g, i, j, k, ground arith)
          ]
        ]
      ]
    ]
  ]
]

Chain-authenticate :
    (verify : Text → Option JwtPayload) (directory : Directory) (route : Route) (request : Request)
    (user : RequestUser)
    → Chain verify directory route request user
    → authenticate verify directory route request ≡ returned (some user)
unfolding authenticate
Chain-authenticate verify directory route request user
      (token, payload, sub, access, acting, e, f, g, i, j, k, same) =
    ground arith

subject_of-Names :
    (verify : Text → Option JwtPayload) (request : Request) (token : Text) (payload : JwtPayload)
    {sub : Text}
    → extract_token_from_header request ≡ some token
    → verify token ≡ some payload
    → subject_of payload ≡ returned sub
    → Names verify request token sub
unfolding subject_of
subject_of-Names verify request token payload {sub} found admitted h =
    elim (Option-cases payload.sub) [
      | inl e ↦ absurd (ground arith)
      | inr (s, e) ↦ elim (Option-cases payload.typ) [
        | inl f ↦ absurd (ground arith)
        | inr (typ, f) ↦ elim (Bool-cases (text_eq typ (codes "access") && is_uuid s)) [
          | inl on ↦
              let same : s ≡ sub = ground arith in
              (
                payload,
                found,
                admitted,
                e ∙ ap some same,
                f ∙ ap some (text_eq→eq typ (codes "access") (and_left _ _ on)),
                subst (λ z. is_uuid z ≡ true) same (and_right _ _ on),
              )
          | inr off ↦ absurd (ground arith)
        ]
      ]
    ]

resolve-row :
    (directory : Directory) (sub : Text) {access : ResolvedAccess}
    → resolve directory sub ≡ some (some access)
    → (row : UserAccessRow) × (directory.user_row sub ≡ some (some row))
      × (access.user_id ≡ row.id)
      × (access.platform_admin ≡ row.platform_admin)
      × (access.disabled ≡ row.disabled)
unfolding resolve
resolve-row directory sub {access} h = elim (Option-cases (directory.user_row sub)) [
  | inl e ↦ absurd (ground arith)
  | inr (none, e) ↦ absurd (ground arith)
  | inr (some row, e) ↦ (row, e, ground arith, ground arith, ground arith)
]

authenticate-SignedIn :
    (verify : Text → Option JwtPayload) (directory : Directory) (route : Route) (request : Request)
    {user : RequestUser}
    → authenticate verify directory route request ≡ returned (some user)
    → SignedIn verify directory request user
authenticate-SignedIn verify directory route request {user} h =
    let (token, payload, sub, access, acting, e, f, g, i, j, k, same) =
      authenticate-Chain verify directory route request h in
    let (found, enabled) = access_of-resolve directory sub j in
    let (row, is_row, id, staff, off) = resolve-row directory sub found in
    subst (λ (u : RequestUser). SignedIn verify directory request u) same
      (
        sub,
        row,
        access,
        subject_of-Names verify request token payload f g i,
        is_row,
        sym off ∙ enabled,
        id,
        staff,
        found,
        tenant_and_role-ActsFor directory request access k,
      )

tenant_and_role-company :
    (directory : Directory) (request : Request) (company : Header) (access : ResolvedAccess)
    → access.platform_admin ≡ false
    → tenant_and_role directory (record request { company = company }) access
      ≡ tenant_and_role directory request access
unfolding tenant_and_role
tenant_and_role-company directory request company access h = rw (tenant_and_role, h) refl

token-company :
    (request : Request) (company : Header)
    → extract_token_from_header (record request { company = company })
      ≡ extract_token_from_header request
unfolding extract_token_from_header
token-company request company = refl

-- The company header of a person who is not staff is ignored: with any other header they get the same
-- user, and so the same company.
pub authenticate-company_header :
    (verify : Text → Option JwtPayload) (directory : Directory) (route : Route) (request : Request)
    (company : Header) (user : RequestUser)
    → authenticate verify directory route request ≡ returned (some user)
    → user.platform_admin ≡ false
    → authenticate verify directory route (record request { company = company })
      ≡ returned (some user)
authenticate-company_header verify directory route request company user h member =
    let (token, payload, sub, access, acting, e, f, g, i, j, k, same) =
      authenticate-Chain verify directory route request h in
    let staff : access.platform_admin ≡ false =
      ap (λ (u : RequestUser). u.platform_admin) same ∙ member in
    Chain-authenticate verify directory route (record request { company = company }) user
      (
        token,
        payload,
        sub,
        access,
        acting,
        e,
        token-company request company ∙ f,
        g,
        i,
        j,
        tenant_and_role-company directory request company access staff ∙ k,
        same,
      )

Verdict-cases : (v : Verdict) → (v ≡ allowed) ⊎ (¬ (v ≡ allowed))
Verdict-cases allowed = inl refl
Verdict-cases insufficient_permissions = inr (λ h. cc)
Verdict-cases name_the_company = inr (λ h. cc)

verdict_result-refused :
    (v : Verdict) (u : Option RequestUser) {user : Option RequestUser}
    → ¬ (v ≡ allowed)
    → ¬ (verdict_result v u ≡ returned user)
verdict_result-refused allowed u off h = off refl
verdict_result-refused insufficient_permissions u off h = cc
verdict_result-refused name_the_company u off h = cc

guarded-parts :
    (verify : Text → Option JwtPayload) (directory : Directory) (route : Route) (request : Request)
    {user : Option RequestUser}
    → guarded verify directory route request ≡ returned user
    → (authenticate verify directory route request ≡ returned user)
      × (can_activate route user ≡ allowed)
unfolding guarded
guarded-parts verify directory route request {user} h =
    elim (Result-cases (authenticate verify directory route request)) [
      | inl (x, e) ↦ absurd (ground arith)
      | inr (u, e) ↦ elim (Verdict-cases (can_activate route u)) [
        | inl on ↦ let same : u ≡ user = ground arith in (e ∙ ap returned same, rw (← same) on)
        | inr off ↦
            absurd
              (verdict_result-refused (can_activate route u) u {user = user} off (ground arith))
      ]
    ]

-- A signed-in user who passes both guards is the person that a verified access token in the request
-- names; the database has them, not disabled; they act for the company and with the role that it has for
-- them now, or as staff; and their role holds a permission that the route lists, unless the route is
-- public or for any member.
pub guarded-Admitted :
    (verify : Text → Option JwtPayload) (directory : Directory) (route : Route) (request : Request)
    (user : RequestUser)
    → guarded verify directory route request ≡ returned (some user)
    → Admitted verify directory route request user
guarded-Admitted verify directory route request user h =
    let (signed_in, may) = guarded-parts verify directory route request h in
    (
      authenticate-SignedIn verify directory route request signed_in,
      (can_activate_iff route user).0 may,
    )

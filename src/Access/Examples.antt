-- ===== src/Access/Examples.antt =====
-- A directory of one company admin, a route that reads attendance, and requests to it.
use fenzit_be.Access.Laws.{can_activate_iff, MayPass}
use fenzit_be.Attendance.Errors.{unauthorized, http_exception, thrown, returned}
use fenzit_be.Calendar.{split_on}
use fenzit_be.Access.Membership.{resolve, Directory, UserAccessRow}
use fenzit_be.Access.Authentication.{authenticate-company_header, guarded-Admitted, Admitted}
use fenzit_be.Access.Permissions.{
  user_disable, permission_name, permissions_for, attendance_read, Role, company_admin, leave_own,
  viewer, Permission,
}
use fenzit_be.Access.Guards.{
  tenant_and_role, name_the_company, insufficient_permissions, access_of, is_uuid, absent, allowed,
  subject_of, judge, single, extract_token_from_header, judge_listed, Request, JwtPayload, guarded,
  authenticate, can_activate, RequestUser, Route, Header,
}
use fenzit_be.Prelude.{
  here, there, none, ◌↔◌, [], ◌∷◌, ◌≡◌, true, false, In, some, List, codes, Option, Bool, Text,
  refl,
}

abbrev company : Text
company = codes "0f0c3e2a-1111-4c4c-8c8c-222233334444"

abbrev person : Text
person = codes "9F1c3e2a-1111-4c4c-8c8c-222233334444"

abbrev row : Bool → UserAccessRow
row disabled = record {
  id = person;
  platform_admin = false;
  disabled = disabled;
  memberships =
      record { tenant_id = codes "old"; role = viewer; status = codes "removed" }
      ∷ record { tenant_id = company; role = company_admin; status = codes "active" }
      ∷ [];
}

abbrev directory : Bool → Directory
directory disabled = record {
  user_row = λ id. some (some (row disabled));
  company_exists = λ id. some true;
}

abbrev verify : Text → Option JwtPayload
verify token = some (record { sub = some person; typ = some (codes "access") })

abbrev request_for : Header → Request
request_for header = record { authorization = single (codes "Bearer k"); company = header }

abbrev route_of : Option (List Permission) → Route
route_of can = record { is_public = false; any_member = false; can = can }

abbrev attendance_route : Route
attendance_route = route_of (some (leave_own ∷ attendance_read ∷ []))

abbrev admin : RequestUser
admin = record {
  user_id = person;
  tenant_id = some company;
  role = some company_admin;
  platform_admin = false;
  raw_jwt = codes "k";
}

abbrev staff : Option Text → RequestUser
staff tenant_id = record {
  user_id = person;
  tenant_id = tenant_id;
  role = some Role.platform_admin;
  platform_admin = true;
  raw_jwt = codes "k";
}

guard_tests :
    (can_activate (route_of none) (some admin) ≡ insufficient_permissions)
    × (can_activate (route_of (some (leave_own ∷ []))) (some admin) ≡ insufficient_permissions)
    × (can_activate attendance_route (some (staff none)) ≡ name_the_company)
    × (can_activate (route_of (some (user_disable ∷ []))) (some (staff none)) ≡ allowed)
    × (can_activate attendance_route none ≡ insufficient_permissions)
unfolding can_activate judge_listed judge permissions_for permission_name
guard_tests = (refl, refl, refl, refl, refl)

signed_in :
    authenticate verify (directory false) attendance_route (request_for absent)
    ≡ returned (some admin)
unfolding authenticate extract_token_from_header split_on subject_of is_uuid access_of resolve
    tenant_and_role
signed_in = refl

passed :
    guarded verify (directory false) attendance_route (request_for absent) ≡ returned (some admin)
unfolding guarded can_activate judge_listed judge permissions_for permission_name
passed = rw (guarded, signed_in) refl

disabled_test :
    authenticate verify (directory true) attendance_route (request_for absent)
    ≡ thrown (http_exception 401 unauthorized)
unfolding authenticate extract_token_from_header split_on subject_of is_uuid access_of resolve
disabled_test = refl

can_activate_iff_example :
    (can_activate attendance_route (some admin) ≡ allowed) ↔ MayPass attendance_route admin
can_activate_iff_example = can_activate_iff attendance_route admin

swapped :
    (p : Permission)
    → In p (leave_own ∷ attendance_read ∷ [])
    → In p (attendance_read ∷ leave_own ∷ [])
swapped p here = there here
swapped p (there here) = here
swapped p (there (there m)) = elim m [ ]

swapped_back :
    (p : Permission)
    → In p (attendance_read ∷ leave_own ∷ [])
    → In p (leave_own ∷ attendance_read ∷ [])
swapped_back p here = there here
swapped_back p (there here) = here
swapped_back p (there (there m)) = elim m [ ]

guarded-Admitted_example :
    Admitted verify (directory false) attendance_route (request_for absent) admin
guarded-Admitted_example =
    guarded-Admitted verify (directory false) attendance_route (request_for absent) admin passed

authenticate-company_header_example :
    authenticate verify (directory false) attendance_route (request_for (single (codes "other")))
    ≡ returned (some admin)
authenticate-company_header_example =
    authenticate-company_header verify (directory false) attendance_route (request_for absent)
      (single (codes "other")) admin signed_in refl

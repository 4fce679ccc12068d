-- ===== src/Access/Permissions.antt =====
-- src/common/permissions/permissions.ts and src/common/enums/role.enum.ts. A role is `none` for a person
-- without an active membership.
use fenzit_be.Prelude.{none, some, ◌++◌, exists, text_eq, codes, Option, List, Bool, Text, ◌∷◌, []}

pub data Role : Type 0 where
  platform_admin company_admin employee viewer : Role

pub data Permission : Type 0 where
  company_create_own company_manage member_invite : Permission
  member_read member_change_role member_remove : Permission
  user_disable user_manage audit_read : Permission
  job_read_all job_read_own job_write : Permission
  job_advance job_sync customer_read : Permission
  customer_write report_read report_request : Permission
  attendance_read attendance_manage attendance_own : Permission
  leave_read_all leave_approve leave_create_on_behalf : Permission
  leave_own places_search : Permission

-- The text of a permission, which is what a set of permissions compares.
unfoldable pub permission_name : Permission → Text
permission_name company_create_own = codes "company.create_own"
permission_name company_manage = codes "company.manage"
permission_name member_invite = codes "member.invite"
permission_name member_read = codes "member.read"
permission_name member_change_role = codes "member.change_role"
permission_name member_remove = codes "member.remove"
permission_name user_disable = codes "user.disable"
permission_name user_manage = codes "user.manage"
permission_name audit_read = codes "audit.read"
permission_name job_read_all = codes "job.read_all"
permission_name job_read_own = codes "job.read_own"
permission_name job_write = codes "job.write"
permission_name job_advance = codes "job.advance"
permission_name job_sync = codes "job.sync"
permission_name customer_read = codes "customer.read"
permission_name customer_write = codes "customer.write"
permission_name report_read = codes "report.read"
permission_name report_request = codes "report.request"
permission_name attendance_read = codes "attendance.read"
permission_name attendance_manage = codes "attendance.manage"
permission_name attendance_own = codes "attendance.own"
permission_name leave_read_all = codes "leave.read_all"
permission_name leave_approve = codes "leave.approve"
permission_name leave_create_on_behalf = codes "leave.create_on_behalf"
permission_name leave_own = codes "leave.own"
permission_name places_search = codes "places.search"

abbrev pub same_permission : Permission → Permission → Bool
same_permission p q = text_eq (permission_name p) (permission_name q)

-- `set.has(p)`
abbrev pub has : List Permission → Permission → Bool
has set p = exists (same_permission p) set

abbrev pub platform_wide_permissions : List Permission
platform_wide_permissions = company_create_own ∷ user_disable ∷ user_manage ∷ audit_read ∷ []

abbrev pub admin_permissions : List Permission
admin_permissions =
    company_manage ∷ member_invite ∷ member_read ∷ member_change_role ∷ member_remove ∷ audit_read
    ∷ job_read_all ∷ job_write ∷ customer_read ∷ customer_write ∷ report_read ∷ report_request
    ∷ attendance_read ∷ attendance_manage ∷ leave_read_all ∷ leave_approve ∷ leave_create_on_behalf
    ∷ places_search ∷ []

abbrev pub role_permissions : Role → List Permission
role_permissions platform_admin = admin_permissions ++ (user_disable ∷ user_manage ∷ [])
role_permissions company_admin = admin_permissions
role_permissions employee =
    job_read_own ∷ job_advance ∷ job_sync ∷ customer_read ∷ attendance_own ∷ leave_own ∷ []
role_permissions viewer =
    job_read_all ∷ customer_read ∷ report_read ∷ report_request ∷ attendance_read ∷ []

abbrev pub no_membership_permissions : List Permission
no_membership_permissions = company_create_own ∷ []

unfoldable pub permissions_for : Option Role → List Permission
permissions_for none = no_membership_permissions
permissions_for (some role) = role_permissions role

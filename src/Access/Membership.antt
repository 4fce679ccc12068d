-- ===== src/Access/Membership.antt =====
-- src/common/auth/membership-resolver.ts: what the database says of a person. A read that fails is `none`.
use fenzit_be.Access.Permissions.{Role}
use mathlib.Core.Option
use fenzit_be.Prelude.{find, codes, text_eq, List, Option, Bool, Text}

pub record MembershipRow : Type 0 where
  pub tenant_id : Text
  pub role : Role
  pub status : Text

pub record UserAccessRow : Type 0 where
  pub id : Text
  pub platform_admin : Bool
  pub disabled : Bool
  pub memberships : List MembershipRow

pub record Membership : Type 0 where
  pub tenant_id : Text
  pub role : Role

pub record ResolvedAccess : Type 0 where
  pub user_id : Text
  pub platform_admin : Bool
  pub disabled : Bool
  pub membership : Option Membership

-- The two reads: the row of a person, and whether a company is there; the outer `none` is a failure.
pub record Directory : Type 0 where
  pub user_row : Text → Option (Option UserAccessRow)
  pub company_exists : Text → Option Bool

abbrev is_active : MembershipRow → Bool
is_active m = text_eq m.status (codes "active")

abbrev to_membership : MembershipRow → Membership
to_membership m = record { tenant_id = m.tenant_id; role = m.role }

abbrev to_access : UserAccessRow → ResolvedAccess
to_access row = record {
  user_id = row.id;
  platform_admin = row.platform_admin;
  disabled = row.disabled;
  membership = Option.map to_membership (find is_active row.memberships);
}

unfoldable pub resolve : Directory → Text → Option (Option ResolvedAccess)
resolve directory user_id = Option.map (Option.map to_access) (directory.user_row user_id)

-- ===== src/Users/Account.antt =====
-- Accounts and their suspension (packages/db/prisma/schema.prisma, packages/db/src/models/user.ts).
-- A time is a count of milliseconds.
use minikura.Common.{
  ℕ, String, Bool, true, false, not, ◌&&◌, Option, none, some, leb, ltb, if◌then◌else◌,
}

pub record User : Type 0 where
  pub id : String
  pub name : String
  pub email : String
  pub role : String
  pub is_suspended : Bool
  pub suspended_until : Option ℕ
  pub banned : Bool

pub data Role : Type 0 where
  admin user : Role

abbrev pub role_name : Role → String
role_name Role.admin = "admin"
role_name Role.user = "user"

pub record UpdateUserInput : Type 0 where
  pub name : Option String
  pub role : Option Role

-- An optional field of type `Date | null`.
pub data Until : Type 0 where
  undefined null : Until
  at : ℕ → Until

pub record UpdateSuspensionInput : Type 0 where
  pub is_suspended : Bool
  pub suspended_until : Until

-- `until && until <= now`
abbrev pub has_passed : ℕ → Option ℕ → Bool
has_passed now none = false
has_passed now (some t) = leb t now

unfoldable pub is_user_suspended : ℕ → User → Bool
is_user_suspended now u =
    if not u.is_suspended then false else if has_passed now u.suspended_until then false else true

-- `input.isSuspended && (!input.suspendedUntil || input.suspendedUntil > new Date())`
abbrev pub suspension_is_active : ℕ → UpdateSuspensionInput → Bool
suspension_is_active now input =
    input.is_suspended
    && (elim input.suspended_until [ undefined ↦ true | null ↦ true | at t ↦ ltb now t ])

-- The `data` of an update: a field that is undefined is left as it is.
abbrev pub set_role : Option Role → String → String
set_role none old = old
set_role (some r) old = role_name r

abbrev pub set_user : UpdateUserInput → User → User
set_user input u = record u {
  name = elim input.name [ none ↦ u.name | some n ↦ n ];
  role = set_role input.role u.role;
}

abbrev pub set_suspension : UpdateSuspensionInput → User → User
set_suspension input u = record u {
  is_suspended = input.is_suspended;
  suspended_until = elim input.suspended_until [
    | undefined ↦ u.suspended_until
    | null ↦ none
    | at t ↦ some t
  ];
}

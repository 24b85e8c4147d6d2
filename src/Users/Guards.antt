-- ===== src/Users/Guards.antt =====
-- Who may call the API: the session that a request carries
-- (apps/backend/src/middleware/auth-plugin.ts) and the guards on it (auth-guards.ts beside it).
-- The sessions are the authentication library's: what it answers for a request is an argument.
use minikura.Common.{
  ℕ, String, Bool, true, false, not, ◌||◌, Option, none, some, ◌==◌, ◌≡◌, ◌↔◌, ◌+++◌, if◌then◌else◌,
  ok, thrown, Settled, arith,
}
use minikura.Domain.Errors.{DomainError, Thrown}
use minikura.Users.Account.{User, is_user_suspended}
use minikura.Users.Repository.{is_active_admin}

pub record Session : Type 0 where
  pub token : String
  pub user : User

pub record AuthContext : Type 0 where
  pub user : Option User
  pub session : Option String
  pub is_authenticated : Bool
  pub is_suspended : Bool

abbrev locked_out : AuthContext
locked_out = record { user = none; session = none; is_authenticated = false; is_suspended = true }

unfoldable pub auth_plugin : ℕ → Option Session → AuthContext
unfolding is_user_suspended
auth_plugin now none = record {
  user = none;
  session = none;
  is_authenticated = false;
  is_suspended = false;
}
auth_plugin now (some s) =
    if s.user.banned || is_user_suspended now s.user then locked_out else record {
      user = some s.user;
      session = some s.token;
      is_authenticated = true;
      is_suspended = false;
    }

abbrev refuse {ℓ} : {A : Type ℓ} → DomainError → Settled Thrown A
refuse e = thrown (Thrown.domain e)

abbrev present : Option User → Settled Thrown User
present none = refuse (DomainError.unauthorized none)
present (some u) = ok u

unfoldable pub authenticated_user : AuthContext → Settled Thrown User
authenticated_user ctx =
    if ctx.is_suspended
    then refuse (DomainError.forbidden (some "Account is suspended"))
    else present ctx.user

unfoldable pub assert_admin : User → Settled Thrown (Unit {0})
assert_admin u =
    if not (u.role == "admin")
    then refuse (DomainError.forbidden (some "admin access required"))
    else ok tt

unfoldable pub require_auth : AuthContext → Settled Thrown User
unfolding authenticated_user
require_auth ctx = authenticated_user ctx

in_role : String → Settled Thrown User → Settled Thrown User
in_role role (thrown e) = thrown e
in_role role (ok u) =
    if not (u.role == role)
    then refuse (DomainError.forbidden (some (role +++ " access required")))
    else ok u

unfoldable pub require_role : String → AuthContext → Settled Thrown User
unfolding authenticated_user in_role
require_role role ctx = in_role role (authenticated_user ctx)

unfoldable pub require_admin : AuthContext → Settled Thrown User
unfolding require_role
require_admin = require_role "admin"

-- The guard of the administrators' routes admits a session, as its user, exactly when that user
-- is one of those whom the repository counts as active administrators.
pub require_admin-iff-is_active_admin :
    (now : ℕ) (s : Session)
    → (require_admin (auth_plugin now (some s)) ≡ ok s.user) ↔ (is_active_admin now s.user ≡ true)
unfolding require_admin auth_plugin is_active_admin
require_admin-iff-is_active_admin now s = ground arith

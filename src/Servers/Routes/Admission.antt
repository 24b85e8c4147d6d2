-- ===== src/Servers/Routes/Admission.antt =====
-- Who may call the routes of servers and reverse proxies (apps/backend/src/routes/servers.ts,
-- reverse-proxy.ts beside it).
use minikura.Common.{Bool, not, ◌==◌, settle, ◌>>=◌}
use minikura.Domain.Errors.{Action}
use minikura.Users.Account.{User}
use minikura.Users.Guards.{AuthContext, require_auth, assert_admin}

module _ {W : Type 0} where
  -- `requireAuth`, then `assertAdmin(user)`.
  unfoldable pub admit : AuthContext → Action W (Unit {0})
  unfolding require_auth assert_admin
  admit ctx = do user ← settle (require_auth ctx); settle (assert_admin user)

abbrev pub is_no_admin : User → Bool
is_no_admin u = not (u.role == "admin")

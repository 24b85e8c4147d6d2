-- ===== src/Users/Tests.antt =====
-- The users' theorems at concrete accounts, and runs of the service.
use minikura.Common.{true, false, none, some, [], ◌∷◌, ◌≡◌, ◌↔◌, refl, ok, thrown, arith}
use minikura.Domain.Errors.{DomainError, Thrown}
use minikura.Users.Account.{User, Role, UpdateUserInput, UpdateSuspensionInput, at}
use minikura.Users.Memory.{memory, memory-IsUserStore}
use minikura.Users.Repository.{
  is_active_admin, active_admin_filter, update_with_admin_safety,
  update_suspension_with_admin_safety,
}
use minikura.Users.Guards.{Session, auth_plugin, require_admin, require_admin-iff-is_active_admin}
use minikura.Users.Routes.{
  get_users, get_user, patch_user, patch_suspension, delete_user_route, user_routes_need_admin,
}
use minikura.Users.Service.{World, update_user, update_suspension, delete_user}
use minikura.Users.Service.Access.{HasAccess, own_calls_keep_access}
use minikura.Users.Service.History.{Moment, Reach, IsManaged, Reach-IsManaged, here, next, suspends}

abbrev alice : User
alice = record {
  id = "alice";
  name = "Alice";
  email = "alice@example.org";
  role = "admin";
  is_suspended = false;
  suspended_until = none;
  banned = false;
}

abbrev bob : User
bob = record alice { id = "bob"; name = "Bob"; email = "bob@example.org" }

abbrev world : World memory
world = record { db = alice ∷ bob ∷ []; published = [] }

abbrev step_down : UpdateUserInput
step_down = record { name = none; role = some Role.user }

abbrev until_nine : UpdateSuspensionInput
until_nine = record { is_suspended = true; suspended_until = at 9 }

self_demotion :
    update_user memory 5 "alice" "alice" step_down world
    ≡ (thrown (Thrown.domain (DomainError.business_rule "Cannot demote yourself")), world)
unfolding update_user
self_demotion = refl

-- Bob, suspended until 9, is no administrator to rely on at 5, and is one at 9.
suspended_bob : World memory
unfolding update_suspension
suspended_bob = (update_suspension memory 5 5 5 "alice" "bob" until_nine world).1

last_admin_at_5 :
    (update_user memory 5 "bob" "alice" step_down suspended_bob).0
    ≡ thrown
        (Thrown.domain (DomainError.business_rule "Cannot demote the last active administrator"))
unfolding update_user suspended_bob update_with_admin_safety update_suspension_with_admin_safety
    active_admin_filter
last_admin_at_5 = refl

require_admin-iff-is_active_admin_example :
    let s : Session = record { token = "t"; user = alice } in
    (require_admin (auth_plugin 5 (some s)) ≡ ok alice) ↔ (is_active_admin 5 alice ≡ true)
require_admin-iff-is_active_admin_example =
    require_admin-iff-is_active_admin 5 (record { token = "t"; user = alice })

own_calls_keep_access_example :
    HasAccess memory memory-IsUserStore 5 "alice"
      (update_user memory 5 "alice" "bob" step_down world).1.db
    × HasAccess memory memory-IsUserStore 5 "alice"
        (update_suspension memory 5 5 5 "alice" "bob" until_nine world).1.db
    × HasAccess memory memory-IsUserStore 5 "alice" (delete_user memory 5 "alice" "bob" world).1.db
unfolding is_active_admin
own_calls_keep_access_example =
    own_calls_keep_access memory memory-IsUserStore 5 "alice" world 5 5 5 "bob" step_down until_nine
      (omega arith) (alice, refl, refl)

abbrev at_5 : Moment memory
at_5 = record { now = 5; world = world }

abbrev at_7 : Moment memory
at_7 = record { now = 7; world = (update_suspension memory 5 6 6 "alice" "bob" until_nine world).1 }

to_7 : Reach memory at_5 at_7
to_7 =
    next here
      (suspends 5 6 6 "alice" "bob" until_nine (omega arith) (omega arith) (omega arith) refl)

Reach-IsManaged_example : IsManaged memory memory-IsUserStore at_7
unfolding is_active_admin
Reach-IsManaged_example =
    Reach-IsManaged memory memory-IsUserStore {m = at_5} {m' = at_7} to_7 (alice, refl, refl)

user_routes_need_admin_example :
    let refusal = Thrown.domain (DomainError.forbidden (some "Account is suspended")) in
    let ctx =
      auth_plugin 5 (some (record { token = "t"; user = record bob { is_suspended = true } })) in
    (get_users memory ctx world ≡ (thrown refusal, world))
    × (get_user memory ctx "alice" world ≡ (thrown refusal, world))
    × (patch_user memory ctx 5 "alice" (ok step_down) world ≡ (thrown refusal, world))
    × (patch_suspension memory ctx 5 5 5 "alice" (ok until_nine) world ≡ (thrown refusal, world))
    × (delete_user_route memory ctx 5 "alice" world ≡ (thrown refusal, world))
unfolding require_admin auth_plugin
user_routes_need_admin_example =
    user_routes_need_admin memory
      (auth_plugin 5 (some (record { token = "t"; user = record bob { is_suspended = true } })))
      world (Thrown.domain (DomainError.forbidden (some "Account is suspended"))) 5 5 5 "alice"
      (ok step_down) (ok until_nine) refl

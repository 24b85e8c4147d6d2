-- ===== src/Users/Routes.antt =====
-- The routes of users (apps/backend/src/routes/users.ts). What a schema makes of a request's body,
-- and what it throws, is an argument; the times are those that the service takes.
use minikura.Common.{ℕ, String, Settled, thrown, ◌≡◌, List, ◌>>=◌, >>=-eq_of_thrown, ap}
use minikura.Domain.Errors.{Thrown, Action}
use minikura.Users.Account.{
  User, UpdateUserInput, UpdateSuspensionInput, Until, undefined, null, at,
}
use minikura.Users.Guards.{AuthContext, require_admin}
use minikura.Users.Store.{UserStore}
use minikura.Users.Service.{
  World, get_user_by_id, get_all_users, update_user, update_suspension, delete_user,
}

-- `payload.suspendedUntil ? new Date(payload.suspendedUntil) : null`
abbrev pub date_or_null : Until → Until
date_or_null undefined = null
date_or_null null = null
date_or_null (at t) = at t

abbrev pub suspension_of : UpdateSuspensionInput → UpdateSuspensionInput
suspension_of payload = record payload { suspended_until = date_or_null payload.suspended_until }

module _ (s : UserStore) (ctx : AuthContext) where
  -- `.use(requireAdmin)`, in front of every handler.
  abbrev pub as_admin : {A : Type 0} → (User → Action (World s) A) → Action (World s) A
  as_admin handler = (λ w. (require_admin ctx, w)) >>= handler

  abbrev parsed : {A : Type 0} → Settled Thrown A → Action (World s) A
  parsed body w = (body, w)

  unfoldable pub get_users : Action (World s) (List User)
  unfolding require_admin
  get_users = as_admin (λ user. get_all_users s)

  unfoldable pub get_user : String → Action (World s) User
  unfolding require_admin
  get_user id = as_admin (λ user. get_user_by_id s id)

  unfoldable pub patch_user : ℕ → String → Settled Thrown UpdateUserInput → Action (World s) User
  unfolding require_admin
  patch_user filter_now id body =
      as_admin (λ user. parsed body >>= λ input. update_user s filter_now user.id id input)

  unfoldable pub patch_suspension :
      ℕ → ℕ → ℕ → String → Settled Thrown UpdateSuspensionInput → Action (World s) User
  unfolding require_admin
  patch_suspension self_now check_now filter_now id body = as_admin (λ user.
      parsed body >>= λ payload.
      update_suspension s self_now check_now filter_now user.id id (suspension_of payload))

  unfoldable pub delete_user_route : ℕ → String → Action (World s) (Unit {0})
  unfolding require_admin
  delete_user_route filter_now id = as_admin (λ user. delete_user s filter_now user.id id)

  -- Whom the guard of administrators refuses, every route of users refuses with the same answer,
  -- and no user is changed and nothing published.
  pub user_routes_need_admin :
      (w : World s) (e : Thrown) (self_now check_now filter_now : ℕ) (id : String)
      (update : Settled Thrown UpdateUserInput) (payload : Settled Thrown UpdateSuspensionInput)
      → require_admin ctx ≡ thrown e
      → (get_users w ≡ (thrown e, w))
        × (get_user id w ≡ (thrown e, w))
        × (patch_user filter_now id update w ≡ (thrown e, w))
        × (patch_suspension self_now check_now filter_now id payload w ≡ (thrown e, w))
        × (delete_user_route filter_now id w ≡ (thrown e, w))
  unfolding get_users get_user patch_user patch_suspension delete_user_route
  user_routes_need_admin w e self_now check_now filter_now id update payload refused =
      let guard : Action (World s) User = λ v. (require_admin ctx, v) in
      let h : guard w ≡ (thrown e, w) = ap (λ r. (r, w)) refused in
      (
        >>=-eq_of_thrown guard (λ user. get_all_users s) h,
        >>=-eq_of_thrown guard (λ user. get_user_by_id s id) h,
        >>=-eq_of_thrown guard
            (λ user. parsed update >>= λ input. update_user s filter_now user.id id input) h,
        >>=-eq_of_thrown guard
            (λ user. parsed payload >>= λ p.
              update_suspension s self_now check_now filter_now user.id id (suspension_of p))
            h,
        >>=-eq_of_thrown guard (λ user. delete_user s filter_now user.id id) h,
      )

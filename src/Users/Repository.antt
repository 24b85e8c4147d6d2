-- ===== src/Users/Repository.antt =====
-- The repository of users
-- (apps/backend/src/infrastructure/repositories/prisma/user.repository.impl.ts).
pub mod Outcomes
pub mod Safety
use minikura.Common.{
  ℕ, String, Bool, true, false, not, ◌&&◌, ◌||◌, Option, none, some, List, ◌==◌, leb, ◌>>=◌, ◌>>◌,
  gets, pure, throw_if, or_throw,
}
use minikura.Domain.Errors.{DomainError, Thrown, Action}
use minikura.Users.Account.{
  User, Role, UpdateUserInput, UpdateSuspensionInput, suspension_is_active, set_user,
  set_suspension, has_passed,
}
use minikura.Users.Store.{UserStore}

-- The filter's conditions but that on the id: the store finds these users for the count.
unfoldable pub is_active_admin : ℕ → User → Bool
is_active_admin now u =
    u.role == "admin"
    && not u.banned
    && (not u.is_suspended || (u.is_suspended && has_passed now u.suspended_until))

unfoldable pub active_admin_filter : ℕ → String → User → Bool
unfolding is_active_admin
active_admin_filter now excluded u = not (u.id == excluded) && is_active_admin now u

abbrev is_zero : ℕ → Bool
is_zero n = leb n 0

abbrev pub is_user_role : Option Role → Bool
is_user_role none = false
is_user_role (some Role.admin) = false
is_user_role (some Role.user) = true

abbrev user_missing : String → Thrown
user_missing id = Thrown.domain (DomainError.not_found "User" (some id))

abbrev rule : String → Thrown
rule text = Thrown.domain (DomainError.business_rule text)

module _ (s : UserStore) where
  open s use {State, find_unique, find_many, count, update, delete, transaction}

  unfoldable pub find_by_id : String → Action State (Option User)
  find_by_id id = gets (find_unique id)

  unfoldable pub find_all : Action State (List User)
  find_all = gets find_many

  -- `filter_now` is the time that the count's filter is built at.
  demote : ℕ → String → UpdateUserInput → Action State User
  demote filter_now id input = do
    target ← gets (find_unique id)
    u ← or_throw target (user_missing id)
    others ← gets (count (active_admin_filter filter_now id))
    throw_if (u.role == "admin" && is_user_role input.role && is_zero others)
        (rule "Cannot demote the last active administrator")
    update id (set_user input)

  unfoldable pub update_with_admin_safety : ℕ → String → UpdateUserInput → Action State User
  unfolding demote
  update_with_admin_safety filter_now id input = transaction User (demote filter_now id input)

  -- `now` is the time that the suspension is judged at.
  suspend : ℕ → ℕ → String → UpdateSuspensionInput → Action State User
  suspend now filter_now id input = do
    target ← gets (find_unique id)
    u ← or_throw target (user_missing id)
    others ← gets (count (active_admin_filter filter_now id))
    throw_if (u.role == "admin" && suspension_is_active now input && is_zero others)
        (rule "Cannot suspend the last active administrator")
    update id (set_suspension input)

  unfoldable pub update_suspension_with_admin_safety :
      ℕ → ℕ → String → UpdateSuspensionInput → Action State User
  unfolding suspend
  update_suspension_with_admin_safety now filter_now id input =
      transaction User (suspend now filter_now id input)

  remove : ℕ → String → Action State (Unit {0})
  remove filter_now id = do
    target ← gets (find_unique id)
    u ← or_throw target (user_missing id)
    others ← gets (count (active_admin_filter filter_now id))
    throw_if (u.role == "admin" && is_zero others)
        (rule "Cannot delete the last active administrator")
    deleted ← delete id
    pure tt

  unfoldable pub delete_with_admin_safety : ℕ → String → Action State (Unit {0})
  unfolding remove
  delete_with_admin_safety filter_now id = transaction Unit (remove filter_now id)

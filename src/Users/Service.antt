-- ===== src/Users/Service.antt =====
-- The service in front of the repository
-- (apps/backend/src/application/services/user.service.ts, events in
-- apps/backend/src/domain/events/user-lifecycle.events.ts). Publishing an event is a write to the
-- list of the events published; the handlers of these events only log.
pub mod Access
pub mod History
pub mod Failures
use minikura.Common.{
  ℕ, String, Bool, true, false, not, ◌&&◌, Option, none, some, List, [], ◌∷◌, ◌++◌, ◌==◌, Settled,
  ok, thrown, ◌>>=◌, ◌>>◌, gets, pure, modify, throw_if, or_throw, if◌then◌else◌,
}
use minikura.Domain.Errors.{DomainError, Thrown, Action}
use minikura.Users.Account.{
  User, Role, role_name, UpdateUserInput, Until, undefined, null, at, UpdateSuspensionInput,
  suspension_is_active,
}
use minikura.Users.Store.{UserStore}
use minikura.Users.Repository.{
  find_by_id, find_all, update_with_admin_safety, update_suspension_with_admin_safety,
  delete_with_admin_safety,
}

pub data UserEvent : Type 0 where
  user_suspended : String → Option ℕ → UserEvent
  user_unsuspended : String → UserEvent

pub record World (s : UserStore) : Type 0 where
  pub db : s.State
  pub published : List UserEvent

abbrev breaks_rule : String → Thrown
breaks_rule text = Thrown.domain (DomainError.business_rule text)

-- `input.role && input.role !== "admin"`
abbrev is_other_role : Option Role → Bool
is_other_role none = false
is_other_role (some r) = not (role_name r == "admin")

abbrev gives_up_admin : UpdateUserInput → Bool
gives_up_admin input = is_other_role input.role

-- `input.suspendedUntil instanceof Date ? input.suspendedUntil : null`
abbrev until_date : Until → Option ℕ
until_date (at t) = some t
until_date undefined = none
until_date null = none

abbrev suspension_event : String → UpdateSuspensionInput → UserEvent
suspension_event id input =
    if input.is_suspended
    then user_suspended id (until_date input.suspended_until)
    else user_unsuspended id

module _ (s : UserStore) where
  -- A call of the repository leaves the published events alone.
  in_db : {A : Type 0} → Action s.State A → Action (World s) A
  in_db m w = let (r, db') = m w.db in (r, record w { db = db' })

  publish : UserEvent → Action (World s) (Unit {0})
  publish e = modify (λ w. record w { published = w.published ++ e ∷ [] })

  unfoldable pub get_user_by_id : String → Action (World s) User
  unfolding in_db find_by_id
  get_user_by_id id = do
    user ← in_db (find_by_id s id)
    or_throw user (Thrown.domain (DomainError.not_found "User" (some id)))

  unfoldable pub get_all_users : Action (World s) (List User)
  unfolding in_db find_all
  get_all_users = in_db (find_all s)

  unfoldable pub update_user : ℕ → String → String → UpdateUserInput → Action (World s) User
  unfolding in_db
  update_user filter_now requesting_user_id id input = do
    throw_if (requesting_user_id == id && gives_up_admin input)
        (breaks_rule "Cannot demote yourself")
    in_db (update_with_admin_safety s filter_now id input)

  announced : String → UpdateSuspensionInput → User → Action (World s) User
  unfolding publish
  announced id input user = do publish (suspension_event id input); pure user

  -- The three times are those of the self-check, of the repository's check and of its filter.
  unfoldable pub update_suspension :
      ℕ → ℕ → ℕ → String → String → UpdateSuspensionInput → Action (World s) User
  unfolding in_db announced
  update_suspension self_now check_now filter_now requesting_user_id id input = do
    throw_if (requesting_user_id == id && suspension_is_active self_now input)
        (breaks_rule "Cannot suspend yourself")
    user ← in_db (update_suspension_with_admin_safety s check_now filter_now id input)
    announced id input user

  unfoldable pub delete_user : ℕ → String → String → Action (World s) (Unit {0})
  unfolding in_db
  delete_user filter_now requesting_user_id target_user_id = do
    throw_if (requesting_user_id == target_user_id) (breaks_rule "Cannot delete yourself")
    in_db (delete_with_admin_safety s filter_now target_user_id)

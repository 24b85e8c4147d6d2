-- ===== src/Users/Service/Access.antt =====
-- What a call of the service does to the access of the one who makes it.
use minikura.Common.{
  ℕ, String, Bool, false, true, ◌&&◌, Option, none, some, ◌==◌, ◌≡◌, ◌≤◌, refl, Bool-cases,
  Option-cases, inl, inr, arith, eq_iff, if◌then◌else◌, ◌⊎◌,
}
use minikura.Users.Account.{
  User, Role, UpdateUserInput, UpdateSuspensionInput, suspension_is_active, set_user,
  set_suspension,
}
use minikura.Users.Store.{UserStore, IsUserStore}
use minikura.Users.Repository.{
  is_active_admin, is_user_role, update_with_admin_safety, update_suspension_with_admin_safety,
  delete_with_admin_safety,
}
use minikura.Users.Repository.Outcomes.{
  update_missing, update_refused, update_Writes, demotes_last, suspend_missing, suspend_refused,
  suspend_Writes, suspends_last, delete_missing, delete_refused, delete_Removes, deletes_last,
}
use minikura.Users.Repository.Safety.{set_user-active, set_suspension-active}
use minikura.Users.Service.{
  World, update_user, update_suspension, delete_user, gives_up_admin, is_other_role,
}
use minikura.Users.Service.History.{update_user_keeps, update_suspension_keeps, delete_user_keeps}

-- Who gives no other role than the administrator's takes the administrator's from nobody.
no_demotion :
    (r : Option Role) (is_admin : Bool)
    → is_other_role r ≡ false
    → (is_admin && is_user_role r) ≡ false
no_demotion none true h = refl
no_demotion (some Role.admin) true h = refl
no_demotion (some Role.user) true h = cc
no_demotion r false h = refl

no_suspension : (is_admin : Bool) {active : Bool} → active ≡ false → (is_admin && active) ≡ false
no_suspension true h = h
no_suspension false h = refl

-- A guard on the caller's own account that did not stop the call.
split_self :
    (self b : Bool) {Q : Type 0} → (self && b) ≡ false → (b ≡ false → Q) → (self ≡ false) ⊎ Q
split_self true b h k = inr (k h)
split_self false b h k = inl refl

module _ (s : UserStore) (laws : IsUserStore s) (now : ℕ) (me : String) where
  open s use {State, find_unique}

  -- The account `me` exists, and can use the panel as an administrator at the time `now`.
  abbrev pub HasAccess : State → Type 0
  HasAccess t = (u : User) × (find_unique me t ≡ some u) × (is_active_admin now u ≡ true)

  -- A write to `id` that finds `u` there and leaves `w`.
  write_access :
      (id : String) (t t' : State) (u : User) (w : Option User)
      → find_unique id t ≡ some u
      → ((j : String) → find_unique j t' ≡ (if id == j then w else find_unique j t))
      → ((me == id) ≡ false)
        ⊎ (is_active_admin now u ≡ true
            → (u' : User) × (w ≡ some u') × (is_active_admin now u' ≡ true))
      → HasAccess t
      → HasAccess t'
  write_access id t t' u w e after (inl other) (v, found, active) =
      (v, ground (arith, after me, eq_iff me id, eq_iff id me), active)
  write_access id t t' u w e after (inr stays) (v, found, active) = elim (Bool-cases (me == id)) [
    | inr other ↦ (v, ground (arith, after me, eq_iff me id, eq_iff id me), active)
    | inl self ↦
        let it : v ≡ u = ground (arith, eq_iff me id) in
        let (u', same, kept) = stays (ground arith) in
        (u', ground (arith, after me, eq_iff id me, eq_iff me id), kept)
  ]

  update_access :
      (f : ℕ) (id : String) (input : UpdateUserInput) (t : State)
      → (me == id && gives_up_admin input) ≡ false
      → HasAccess t
      → HasAccess (update_with_admin_safety s f id input t).1
  update_access f id input t self has = elim (Option-cases (find_unique id t)) [
    | inl e ↦ rw (update_missing s laws f id input t e) has
    | inr (u, e) ↦ elim (Bool-cases (demotes_last s laws f id input u t)) [
      | inl h ↦ rw (update_refused s laws f id input t u e h) has
      | inr h ↦
          write_access id t _ u _ e (update_Writes s laws f id input t u e h).1
            (split_self (me == id) (gives_up_admin input) self (λ k active. (
              set_user input u,
              refl,
              set_user-active now input u (no_demotion input.role (u.role == "admin") k) active,
            )))
            has
    ]
  ]

  suspension_access :
      (b c f : ℕ) (id : String) (input : UpdateSuspensionInput) (t : State)
      → b ≤ now
      → (me == id && suspension_is_active b input) ≡ false
      → HasAccess t
      → HasAccess (update_suspension_with_admin_safety s c f id input t).1
  suspension_access b c f id input t le self has = elim (Option-cases (find_unique id t)) [
    | inl e ↦ rw (suspend_missing s laws c f id input t e) has
    | inr (u, e) ↦ elim (Bool-cases (suspends_last s laws c f id input u t)) [
      | inl h ↦ rw (suspend_refused s laws c f id input t u e h) has
      | inr h ↦
          write_access id t _ u _ e (suspend_Writes s laws c f id input t u e h).1
            (split_self (me == id) (suspension_is_active b input) self (λ k active. (
              set_suspension input u,
              refl,
              set_suspension-active b now input u le (no_suspension (u.role == "admin") k) active,
            )))
            has
    ]
  ]

  delete_access :
      (f : ℕ) (id : String) (t : State)
      → (me == id) ≡ false
      → HasAccess t
      → HasAccess (delete_with_admin_safety s f id t).1
  delete_access f id t other has = elim (Option-cases (find_unique id t)) [
    | inl e ↦ rw (delete_missing s laws f id t e) has
    | inr (u, e) ↦ elim (Bool-cases (deletes_last s laws f id u t)) [
      | inl h ↦ rw (delete_refused s laws f id t u e h) has
      | inr h ↦ write_access id t _ u _ e (delete_Removes s laws f id t u e h).1 (inl other) has
    ]
  ]

  -- Nobody loses access by a call of their own: an account that is an active administrator at a
  -- time, not before the one of the service's own check of a suspension, and that updates,
  -- suspends or deletes an account, its own or another's, is one at that time also afterwards.
  pub own_calls_keep_access :
      (w : World s) (b c f : ℕ) (id : String) (user : UpdateUserInput)
      (suspension : UpdateSuspensionInput)
      → b ≤ now
      → HasAccess w.db
      → HasAccess (update_user s f me id user w).1.db
        × HasAccess (update_suspension s b c f me id suspension w).1.db
        × HasAccess (delete_user s f me id w).1.db
  own_calls_keep_access w b c f id user suspension le has = (
    update_user_keeps s HasAccess f me id user w has
        (λ other. update_access f id user w.db other has),
    update_suspension_keeps s HasAccess b c f me id suspension w has
        (λ other. suspension_access b c f id suspension w.db le other has),
    delete_user_keeps s HasAccess f me id w has (λ other. delete_access f id w.db other has),
  )

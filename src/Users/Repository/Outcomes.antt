-- ===== src/Users/Repository/Outcomes.antt =====
-- What the three writes of the user repository do on each branch.
use minikura.Common.{
  ℕ, String, Bool, true, false, ◌&&◌, Option, none, some, ◌==◌, ◌≡◌, refl, ok, thrown, atomic,
  if◌then◌else◌, ◌>>=◌, pure, Settled,
}
use minikura.Domain.Errors.{Thrown}
use minikura.Users.Account.{
  User, UpdateUserInput, UpdateSuspensionInput, suspension_is_active, set_user, set_suspension,
}
use minikura.Users.Store.{UserStore, IsUserStore, Writes}
use minikura.Users.Repository.{
  demote, suspend, remove, update_with_admin_safety, update_suspension_with_admin_safety,
  delete_with_admin_safety, active_admin_filter, is_zero, is_user_role, user_missing, rule,
}

-- An outcome that changes nothing if it is a throw.
abbrev pub Keeps : {A S : Type 0} → S → Settled Thrown A × S → Type 0
Keeps t (ok a, t') = Unit
Keeps t (thrown e, t') = t' ≡ t

atomic-Keeps : {A S : Type 0} (t : S) (r : Settled Thrown A × S) → Keeps t (atomic r t)
atomic-Keeps t (ok a, t') = tt
atomic-Keeps t (thrown e, t') = refl

-- Rolling back on a throw changes nothing where the write came through.
atomic-Writes :
    (s : UserStore) (r : Settled Thrown User × s.State) (t : s.State) {u : User}
    {found : String → Option User}
    → Writes s r u found
    → Writes s (atomic r t) u found
atomic-Writes s (ok a, t') t w = w
atomic-Writes s (thrown e, t') t w = cc (w.0)

module _ (s : UserStore) (laws : IsUserStore s) where
  open s use {State, find_unique, count, update, delete, transaction}

  pub update_missing :
      (now : ℕ) (id : String) (input : UpdateUserInput) (t : State)
      → find_unique id t ≡ none
      → update_with_admin_safety s now id input t ≡ (thrown (user_missing id), t)
  unfolding update_with_admin_safety
  update_missing now id input t e =
      rw (laws.transaction_atomic User (demote s now id input) t) (rw (e, demote))

  -- The guard of a demotion.
  abbrev pub demotes_last : ℕ → String → UpdateUserInput → User → State → Bool
  demotes_last now id input u t =
      u.role == "admin" && is_user_role input.role && is_zero (count (active_admin_filter now id) t)

  pub update_refused :
      (now : ℕ) (id : String) (input : UpdateUserInput) (t : State) (u : User)
      → find_unique id t ≡ some u
      → demotes_last now id input u t ≡ true
      → update_with_admin_safety s now id input t
        ≡ (thrown (rule "Cannot demote the last active administrator"), t)
  unfolding update_with_admin_safety
  update_refused now id input t u e h =
      rw (laws.transaction_atomic User (demote s now id input) t) (rw (e, demote) (rw h))

  pub update_Writes :
      (now : ℕ) (id : String) (input : UpdateUserInput) (t : State) (u : User)
      → find_unique id t ≡ some u
      → demotes_last now id input u t ≡ false
      → Writes s
          (update_with_admin_safety s now id input t)
          (set_user input u)
          (λ j. if id == j then some (set_user input u) else find_unique j t)
  unfolding update_with_admin_safety
  update_Writes now id input t u e h =
      rw (laws.transaction_atomic User (demote s now id input) t)
        (rw (e, demote) (rw h (atomic-Writes s _ t written)))
    where
      written :
          Writes s
            (update id (set_user input) t)
            (set_user input u)
            (λ j. if id == j then some (set_user input u) else find_unique j t)
      written = laws.update_found id (set_user input) t u e refl

  pub suspend_missing :
      (now filter_now : ℕ) (id : String) (input : UpdateSuspensionInput) (t : State)
      → find_unique id t ≡ none
      → update_suspension_with_admin_safety s now filter_now id input t
        ≡ (thrown (user_missing id), t)
  unfolding update_suspension_with_admin_safety
  suspend_missing now filter_now id input t e =
      rw (laws.transaction_atomic User (suspend s now filter_now id input) t) (rw (e, suspend))

  -- The guard of a suspension.
  abbrev pub suspends_last : ℕ → ℕ → String → UpdateSuspensionInput → User → State → Bool
  suspends_last now filter_now id input u t =
      u.role == "admin"
      && suspension_is_active now input
      && is_zero (count (active_admin_filter filter_now id) t)

  pub suspend_refused :
      (now filter_now : ℕ) (id : String) (input : UpdateSuspensionInput) (t : State) (u : User)
      → find_unique id t ≡ some u
      → suspends_last now filter_now id input u t ≡ true
      → update_suspension_with_admin_safety s now filter_now id input t
        ≡ (thrown (rule "Cannot suspend the last active administrator"), t)
  unfolding update_suspension_with_admin_safety
  suspend_refused now filter_now id input t u e h =
      rw (laws.transaction_atomic User (suspend s now filter_now id input) t)
        (rw (e, suspend) (rw h))

  pub suspend_Writes :
      (now filter_now : ℕ) (id : String) (input : UpdateSuspensionInput) (t : State) (u : User)
      → find_unique id t ≡ some u
      → suspends_last now filter_now id input u t ≡ false
      → Writes s
          (update_suspension_with_admin_safety s now filter_now id input t)
          (set_suspension input u)
          (λ j. if id == j then some (set_suspension input u) else find_unique j t)
  unfolding update_suspension_with_admin_safety
  suspend_Writes now filter_now id input t u e h =
      rw (laws.transaction_atomic User (suspend s now filter_now id input) t)
        (rw (e, suspend) (rw h (atomic-Writes s _ t written)))
    where
      written :
          Writes s
            (update id (set_suspension input) t)
            (set_suspension input u)
            (λ j. if id == j then some (set_suspension input u) else find_unique j t)
      written = laws.update_found id (set_suspension input) t u e refl

  pub delete_missing :
      (now : ℕ) (id : String) (t : State)
      → find_unique id t ≡ none
      → delete_with_admin_safety s now id t ≡ (thrown (user_missing id), t)
  unfolding delete_with_admin_safety
  delete_missing now id t e = rw (laws.transaction_atomic Unit (remove s now id) t) (rw (e, remove))

  -- The guard of a deletion.
  abbrev pub deletes_last : ℕ → String → User → State → Bool
  deletes_last now id u t = u.role == "admin" && is_zero (count (active_admin_filter now id) t)

  pub delete_refused :
      (now : ℕ) (id : String) (t : State) (u : User)
      → find_unique id t ≡ some u
      → deletes_last now id u t ≡ true
      → delete_with_admin_safety s now id t
        ≡ (thrown (rule "Cannot delete the last active administrator"), t)
  unfolding delete_with_admin_safety
  delete_refused now id t u e h =
      rw (laws.transaction_atomic Unit (remove s now id) t) (rw (e, remove) (rw h))

  pub delete_Removes :
      (now : ℕ) (id : String) (t : State) (u : User)
      → find_unique id t ≡ some u
      → deletes_last now id u t ≡ false
      → let (r, t') = delete_with_admin_safety s now id t in
        (r ≡ ok tt)
        × ((j : String) → find_unique j t' ≡ (if id == j then none else find_unique j t))
  unfolding delete_with_admin_safety
  delete_Removes now id t u e h =
      rw (laws.transaction_atomic Unit (remove s now id) t)
        (rw (e, remove) (rw h (done (delete id t) (laws.delete_found id t u e))))
    where
      done :
          (r : Settled Thrown User × State)
          → Writes s r u (λ j. if id == j then none else find_unique j t)
          → let (r', t') = atomic ((◌>>=◌ (λ _. r) (λ _. pure tt)) t) t in
            (r' ≡ ok tt)
            × ((j : String) → find_unique j t' ≡ (if id == j then none else find_unique j t))
      done (ok a, t') w = (refl, w.1)
      done (thrown x, t') w = cc (w.0)

  -- Each write is one transaction: if it throws, the table is as it was.
  pub update_atomic :
      (now : ℕ) (id : String) (input : UpdateUserInput) (t : State)
      → Keeps t (update_with_admin_safety s now id input t)
  unfolding update_with_admin_safety
  update_atomic now id input t =
      rw (laws.transaction_atomic User (demote s now id input) t) (atomic-Keeps t _)

  pub suspend_atomic :
      (now filter_now : ℕ) (id : String) (input : UpdateSuspensionInput) (t : State)
      → Keeps t (update_suspension_with_admin_safety s now filter_now id input t)
  unfolding update_suspension_with_admin_safety
  suspend_atomic now filter_now id input t =
      rw (laws.transaction_atomic User (suspend s now filter_now id input) t) (atomic-Keeps t _)

  pub delete_atomic :
      (now : ℕ) (id : String) (t : State) → Keeps t (delete_with_admin_safety s now id t)
  unfolding delete_with_admin_safety
  delete_atomic now id t = rw (laws.transaction_atomic Unit (remove s now id) t) (atomic-Keeps t _)

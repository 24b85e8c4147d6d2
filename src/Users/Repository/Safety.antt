-- ===== src/Users/Repository/Safety.antt =====
-- The repository's writes never lose the last active administrator.
use minikura.Common.{
  ℕ, String, Bool, true, false, ◌&&◌, Option, none, some, ◌==◌, ◌≡◌, ◌≤◌, refl, if◌then◌else◌,
  arith, Bool-cases, Option-cases, eq_iff, inl, inr, ◌⊎◌,
}
use minikura.Users.Account.{
  User, Role, set_role, UpdateUserInput, UpdateSuspensionInput, suspension_is_active, set_user,
  set_suspension,
}
use minikura.Users.Store.{UserStore, IsUserStore}
use minikura.Users.Repository.{
  update_with_admin_safety, update_suspension_with_admin_safety, delete_with_admin_safety,
  is_active_admin, active_admin_filter, is_zero, is_user_role,
}
use minikura.Users.Repository.Outcomes.{
  update_missing, update_refused, update_Writes, demotes_last, suspend_missing, suspend_refused,
  suspend_Writes, suspends_last, delete_missing, delete_refused, delete_Removes, deletes_last,
}

-- An administrator that is active stays so as time passes.
pub is_active_admin_later :
    (now later : ℕ) (u : User)
    → now ≤ later
    → is_active_admin now u ≡ true
    → is_active_admin later u ≡ true
unfolding is_active_admin
is_active_admin_later now later u le h = ground arith

set_role-admin :
    (r : Option Role) (old : String)
    → (old == "admin" && is_user_role r) ≡ false
    → (old == "admin") ≡ true
    → (set_role r old == "admin") ≡ true
set_role-admin none old h a = a
set_role-admin (some Role.admin) old h a = refl
set_role-admin (some Role.user) old h a = ground arith

-- A demotion that is no demotion keeps an administrator active.
pub set_user-active :
    (now : ℕ) (input : UpdateUserInput) (u : User)
    → (u.role == "admin" && is_user_role input.role) ≡ false
    → is_active_admin now u ≡ true
    → is_active_admin now (set_user input u) ≡ true
unfolding is_active_admin
set_user-active now input u h a = ground (arith, set_role-admin input.role u.role)

-- A suspension that is over leaves an administrator active.
pub set_suspension-active :
    (now later : ℕ) (input : UpdateSuspensionInput) (u : User)
    → now ≤ later
    → (u.role == "admin" && suspension_is_active now input) ≡ false
    → is_active_admin later u ≡ true
    → is_active_admin later (set_suspension input u) ≡ true
unfolding is_active_admin
set_suspension-active now later input u le h a = ground arith

-- A guard that did not stop the write: the count found someone, or the write was harmless.
split_guard :
    (a b : Bool) {P Q : Type 0} {n : Bool}
    → (a && b && n) ≡ false
    → ((a && b) ≡ false → P → Q)
    → (n ≡ false) ⊎ (P → Q)
split_guard true true h k = inl h
split_guard true false h k = inr (k refl)
split_guard false b h k = inr (k refl)

module _ (s : UserStore) (laws : IsUserStore s) where
  open s use {State, find_unique, count}

  -- Some administrator can use the panel at the time `now`.
  abbrev pub HasActiveAdmin : ℕ → State → Type 0
  HasActiveAdmin now t = (u : User) × (find_unique u.id t ≡ some u) × (is_active_admin now u ≡ true)

  -- A count that is not zero shows another active administrator.
  other_admin :
      (now later : ℕ) (id : String) (t : State)
      → now ≤ later
      → is_zero (count (active_admin_filter now id) t) ≡ false
      → (u : User) × (find_unique u.id t ≡ some u)
        × (is_active_admin later u ≡ true)
        × ((u.id == id) ≡ false)
  unfolding active_admin_filter
  other_admin now later id t le h =
      let (u, found, passed) = laws.count_pos (active_admin_filter now id) t (ground arith) in
      (u, found, is_active_admin_later now later u le (ground arith), ground arith)

  -- Whoever is not written to is found as before.
  keep_other :
      (now : ℕ) (id : String) (t t' : State) (value : Option User)
      → ((j : String) → find_unique j t' ≡ (if id == j then value else find_unique j t))
      → (u : User) × (find_unique u.id t ≡ some u)
        × (is_active_admin now u ≡ true)
        × ((u.id == id) ≡ false)
      → HasActiveAdmin now t'
  keep_other now id t t' value after (u, found, active, other) =
      (u, ground (arith, after u.id, eq_iff u.id id, eq_iff id u.id), active)

  -- A removal that the guard lets through leaves another, or removes no administrator.
  removal_keeps :
      (filter_now now : ℕ) (id : String) (t t' : State) (u : User)
      → filter_now ≤ now
      → find_unique id t ≡ some u
      → ((j : String) → find_unique j t' ≡ (if id == j then none else find_unique j t))
      → deletes_last s laws filter_now id u t ≡ false
      → HasActiveAdmin now t
      → HasActiveAdmin now t'
  unfolding is_active_admin
  removal_keeps filter_now now id t t' u le e after h (v, found, active) =
      elim (Bool-cases (v.id == id)) [
        | inr other ↦ keep_other now id t t' none after (v, found, active, other)
        | inl self ↦
            let it : v ≡ u = ground (arith, eq_iff v.id id) in
            keep_other now id t t' none after (other_admin filter_now now id t le (ground arith))
      ]

  -- A write that came through: either someone else is active, or the one who is active is the one
  -- who is written to and stays active.
  write_keeps :
      (filter_now now : ℕ) (id : String) (t t' : State) (u w : User)
      → filter_now ≤ now
      → find_unique id t ≡ some u
      → w.id ≡ u.id
      → ((j : String) → find_unique j t' ≡ (if id == j then some w else find_unique j t))
      → (is_zero (count (active_admin_filter filter_now id) t) ≡ false)
        ⊎ (is_active_admin now u ≡ true → is_active_admin now w ≡ true)
      → HasActiveAdmin now t
      → HasActiveAdmin now t'
  write_keeps filter_now now id t t' u w le e same after (inl more) active =
      keep_other now id t t' (some w) after (other_admin filter_now now id t le more)
  write_keeps filter_now now id t t' u w le e same after (inr stays) (v, found, active) =
      elim (Bool-cases (v.id == id)) [
        | inr other ↦ keep_other now id t t' (some w) after (v, found, active, other)
        | inl self ↦
            let here : u.id ≡ id = laws.found_id id t u e in
            let it : v ≡ u = ground (arith, eq_iff v.id id) in
            (w, ground (arith, after w.id, eq_iff id w.id), stays (ground arith))
      ]

  pub update-HasActiveAdmin :
      (filter_now now : ℕ) (id : String) (input : UpdateUserInput) (t : State)
      → filter_now ≤ now
      → HasActiveAdmin now t
      → HasActiveAdmin now (update_with_admin_safety s filter_now id input t).1
  update-HasActiveAdmin filter_now now id input t le has = elim (Option-cases (find_unique id t)) [
    | inl e ↦ rw (update_missing s laws filter_now id input t e) has
    | inr (u, e) ↦ elim (Bool-cases (demotes_last s laws filter_now id input u t)) [
      | inl h ↦ rw (update_refused s laws filter_now id input t u e h) has
      | inr h ↦
          write_keeps filter_now now id t _ u (set_user input u) le e refl
            (update_Writes s laws filter_now id input t u e h).1
            (split_guard (u.role == "admin") (is_user_role input.role) h
              (set_user-active now input u))
            has
    ]
  ]

  pub suspend-HasActiveAdmin :
      (check_now filter_now now : ℕ) (id : String) (input : UpdateSuspensionInput) (t : State)
      → check_now ≤ now
      → filter_now ≤ now
      → HasActiveAdmin now t
      → HasActiveAdmin now (update_suspension_with_admin_safety s check_now filter_now id input t).1
  suspend-HasActiveAdmin check_now filter_now now id input t lc le has =
      elim (Option-cases (find_unique id t)) [
        | inl e ↦ rw (suspend_missing s laws check_now filter_now id input t e) has
        | inr (u, e) ↦ elim (Bool-cases (suspends_last s laws check_now filter_now id input u t)) [
          | inl h ↦ rw (suspend_refused s laws check_now filter_now id input t u e h) has
          | inr h ↦
              write_keeps filter_now now id t _ u (set_suspension input u) le e refl
                (suspend_Writes s laws check_now filter_now id input t u e h).1
                (split_guard (u.role == "admin") (suspension_is_active check_now input) h
                  (set_suspension-active check_now now input u lc))
                has
        ]
      ]

  pub delete-HasActiveAdmin :
      (filter_now now : ℕ) (id : String) (t : State)
      → filter_now ≤ now
      → HasActiveAdmin now t
      → HasActiveAdmin now (delete_with_admin_safety s filter_now id t).1
  delete-HasActiveAdmin filter_now now id t le has = elim (Option-cases (find_unique id t)) [
    | inl e ↦ rw (delete_missing s laws filter_now id t e) has
    | inr (u, e) ↦ elim (Bool-cases (deletes_last s laws filter_now id u t)) [
      | inl h ↦ rw (delete_refused s laws filter_now id t u e h) has
      | inr h ↦
          removal_keeps filter_now now id t _ u le e (delete_Removes s laws filter_now id t u e h).1
            h has
    ]
  ]

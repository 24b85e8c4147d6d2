-- ===== src/Users/Service/History.antt =====
-- What any number of calls of the service, from anyone and as time passes, leave in place.
use minikura.Common.{
  ℕ, String, false, ◌&&◌, ◌==◌, ◌≡◌, ◌≤◌, Bool-cases, inl, inr, Settled, ok, thrown, ◌>>=◌,
}
use minikura.Domain.Errors.{Thrown}
use minikura.Users.Account.{User, UpdateUserInput, UpdateSuspensionInput, suspension_is_active}
use minikura.Users.Store.{UserStore, IsUserStore}
use minikura.Users.Repository.{
  update_with_admin_safety, update_suspension_with_admin_safety, delete_with_admin_safety,
}
use minikura.Users.Repository.Safety.{
  HasActiveAdmin, is_active_admin_later, update-HasActiveAdmin, suspend-HasActiveAdmin,
  delete-HasActiveAdmin,
}
use minikura.Users.Service.{
  World, update_user, update_suspension, delete_user, announced, gives_up_admin,
}

module _ (s : UserStore) (P : s.State → Type 0) where
  -- What holds of the database before a call, and after the repository's part of it, holds after it.
  pub update_user_keeps :
      (now : ℕ) (me id : String) (input : UpdateUserInput) (w : World s)
      → P w.db
      → ((me == id && gives_up_admin input) ≡ false
          → P (update_with_admin_safety s now id input w.db).1)
      → P (update_user s now me id input w).1.db
  unfolding update_user
  update_user_keeps now me id input w before after =
      elim (Bool-cases (me == id && gives_up_admin input)) [
        | inl self ↦ rw self before
        | inr other ↦ rw other (after other)
      ]

  pub update_suspension_keeps :
      (self_now check_now now : ℕ) (me id : String) (input : UpdateSuspensionInput) (w : World s)
      → P w.db
      → ((me == id && suspension_is_active self_now input) ≡ false
          → P (update_suspension_with_admin_safety s check_now now id input w.db).1)
      → P (update_suspension s self_now check_now now me id input w).1.db
  unfolding update_suspension
  update_suspension_keeps self_now check_now now me id input w before after =
      elim (Bool-cases (me == id && suspension_is_active self_now input)) [
        | inl self ↦ rw self before
        | inr other ↦ rw other (
            settle (update_suspension_with_admin_safety s check_now now id input w.db)
              (after other))
      ]
    where
      settle :
          (r : Settled Thrown User × s.State)
          → P r.1
          → P (◌>>=◌ (λ _. (r.0, record w { db = r.1 })) (announced s id input) w).1.db
      settle (ok u, db') h = h
      settle (thrown e, db') h = h

  pub delete_user_keeps :
      (now : ℕ) (me id : String) (w : World s)
      → P w.db
      → ((me == id) ≡ false → P (delete_with_admin_safety s now id w.db).1)
      → P (delete_user s now me id w).1.db
  unfolding delete_user
  delete_user_keeps now me id w before after = elim (Bool-cases (me == id)) [
    | inl self ↦ rw self before
    | inr other ↦ rw other (after other)
  ]

-- A time and the world at that time.
pub record Moment (s : UserStore) : Type 0 where
  pub now : ℕ
  pub world : World s

-- One call of the service by anyone, on any account, or the passing of time. A call reads its
-- clock before it is over. Transactions are serializable, so that calls that overlap act as if
-- one came after the other.
pub data Step (s : UserStore) (m m' : Moment s) : Type 0 where
  wait : m.now ≤ m'.now → m'.world ≡ m.world → Step s m m'
  updates :
      (filter_now : ℕ) (me id : String) (input : UpdateUserInput)
      → m.now ≤ m'.now
      → filter_now ≤ m'.now
      → m'.world ≡ (update_user s filter_now me id input m.world).1
      → Step s m m'
  suspends :
      (self_now check_now filter_now : ℕ) (me id : String) (input : UpdateSuspensionInput)
      → m.now ≤ m'.now
      → check_now ≤ m'.now
      → filter_now ≤ m'.now
      → m'.world ≡ (update_suspension s self_now check_now filter_now me id input m.world).1
      → Step s m m'
  deletes :
      (filter_now : ℕ) (me id : String)
      → m.now ≤ m'.now
      → filter_now ≤ m'.now
      → m'.world ≡ (delete_user s filter_now me id m.world).1
      → Step s m m'

pub data Reach (s : UserStore) (m : Moment s) : Moment s → Type 0 where
  here : Reach s m m
  next : {m' m'' : Moment s} → Reach s m m' → Step s m' m'' → Reach s m m''

module _ (s : UserStore) (laws : IsUserStore s) where
  abbrev pub IsManaged : Moment s → Type 0
  IsManaged m = HasActiveAdmin s laws m.now m.world.db

  later :
      {now : ℕ} (m : Moment s)
      → now ≤ m.now
      → (db : s.State) → HasActiveAdmin s laws now db
      → HasActiveAdmin s laws m.now db
  later {now} m le db (u, found, active) = (u, found, is_active_admin_later now m.now u le active)

  Step-IsManaged : {m m' : Moment s} → Step s m m' → IsManaged m → IsManaged m'
  Step-IsManaged {m} {m'} (wait le e) h = rw e (later m' le _ h)
  Step-IsManaged {m} {m'} (updates f me id input le lf e) h =
      let h' : HasActiveAdmin s laws m'.now m.world.db = later m' le _ h in
      rw e (
        update_user_keeps s (HasActiveAdmin s laws m'.now) f me id input m.world h'
          (λ _. update-HasActiveAdmin s laws f m'.now id input m.world.db lf h'))
  Step-IsManaged {m} {m'} (suspends b c f me id input le lc lf e) h =
      let h' : HasActiveAdmin s laws m'.now m.world.db = later m' le _ h in
      rw e (
        update_suspension_keeps s (HasActiveAdmin s laws m'.now) b c f me id input m.world h'
          (λ _. suspend-HasActiveAdmin s laws c f m'.now id input m.world.db lc lf h'))
  Step-IsManaged {m} {m'} (deletes f me id le lf e) h =
      let h' : HasActiveAdmin s laws m'.now m.world.db = later m' le _ h in
      rw e (
        delete_user_keeps s (HasActiveAdmin s laws m'.now) f me id m.world h'
          (λ _. delete-HasActiveAdmin s laws f m'.now id m.world.db lf h'))

  -- Once some administrator is active, some administrator is active ever after: no sequence of
  -- updates, suspensions and deletions, by whomever and on whichever accounts, interleaved with
  -- the passing of time, takes the last one away, where the clock never runs backwards.
  pub Reach-IsManaged : {m m' : Moment s} → Reach s m m' → IsManaged m → IsManaged m'
  Reach-IsManaged here h = h
  Reach-IsManaged (next r st) h = Step-IsManaged st (Reach-IsManaged r h)

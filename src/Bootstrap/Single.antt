-- ===== src/Bootstrap/Single.antt =====
-- A set-up on its own
-- (apps/backend/src/routes/bootstrap.ts).
use minikura.Common.{
  String, true, false, Option, none, some, ◌≡◌, refl, ap, suc, Settled, ok, ◌>>=◌, pure, thrown,
  arith,
}
use minikura.Domain.Errors.{Thrown}
use minikura.Bootstrap.{
  BootstrapInput, Accounts, IsAccounts, completed, success, needs_setup, answer_of, setup,
  first_admin, Result, post_setup,
}

-- The result of a call that makes a user, as a result of the set-up.
abbrev pub wrap : {W : Type 0} → Settled Thrown (Option String) × W → W → Settled Thrown Result × W
wrap p = ◌>>=◌ (λ _. p) (λ user. pure (some user))

module _ (s : Accounts) where
  -- What a set-up leaves of a state: where there are users it is refused and nothing changes;
  -- where there are none, it tells of success exactly if there is one user afterwards that it
  -- made, an administrator.
  pub post_setup_lem :
      IsAccounts s
      → (data_ : BootstrapInput) (t : s.State)
      → (needs_setup s t ≡ false → post_setup s (ok data_) t ≡ (completed, t))
        × (needs_setup s t ≡ true
            → (post_setup s (ok data_) t).0 ≡ success
            → (needs_setup s (post_setup s (ok data_) t).1 ≡ false)
              × (s.count (post_setup s (ok data_) t).1 ≡ 1)
              × ((id : String) × (s.role_of id (post_setup s (ok data_) t).1 ≡ some "admin")))
  unfolding post_setup setup needs_setup
  post_setup_lem laws data_ t = (
    λ h. rw h refl,
    λ h. rw h (
        made (s.create_user (first_admin data_) t) (laws.created (first_admin data_) t)
          (ground arith)),
  )
    where
      Made : Settled Thrown Result × s.State → Type 0
      Made p =
          (needs_setup s p.1 ≡ false)
          × (s.count p.1 ≡ 1)
          × ((id : String) × (s.role_of id p.1 ≡ some "admin"))

      absurd_message : {A : Type 0} {text : String} → some text ≡ none → A
      absurd_message e = cc e

      made :
          (p : Settled Thrown (Option String) × s.State)
          → ((id : String)
              → p.0 ≡ ok (some id)
              → (s.count p.1 ≡ suc (s.count t)) × (s.role_of id p.1 ≡ some "admin"))
          → s.count t ≡ 0
          → answer_of (wrap p t).0 ≡ success
          → Made (wrap p t)
      made (ok (some id), t') law none_yet e =
          let told = law id refl in (ground (arith, told.0), ground (arith, told.0), (id, told.1))
      made (ok none, t') law none_yet e = absurd_message (ap (λ a. a.message) e)
      made (thrown x, t') law none_yet e = absurd_message (ap (λ a. a.message) e)

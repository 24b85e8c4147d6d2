-- ===== src/Bootstrap/Doubled.antt =====
-- Set-ups that overlap where a transaction times out (apps/backend/src/routes/bootstrap.ts).
use minikura.Common.{
  String, true, false, none, some, ◌==◌, ◌≡◌, refl, Settled, ok, arith, eq_iff, eq_refl,
  >>=-eq_of_ok, pair_of_result, pure,
}
use minikura.Bootstrap.{
  BootstrapInput, Issue, Accounts, IsAccounts, failed, success, needs_setup, created_result,
  first_admin,
}
use minikura.Bootstrap.Overlap.{
  Phase, System, Step, Reach, put, start, counted, created, created_late, timed_out,
}

module _ (s : Accounts) where
  made :
      (z : BootstrapInput) (t : s.State) (id : String)
      → (s.create_user (first_admin z) t).0 ≡ ok (some id)
      → created_result s z t ≡ (ok (some (some id)), (s.create_user (first_admin z) t).1)
  made z t id h =
      >>=-eq_of_ok (s.create_user (first_admin z)) (λ user. pure (some user))
        (pair_of_result (s.create_user (first_admin z) t) h)

  -- Where there are no users, two set-ups whose calls that make the user come through can both
  -- make one: the transaction of the first times out after its count, which gives the lock back,
  -- and the second counts before the user of the first is there. The first is answered as a failure.
  pub Reach-two :
      IsAccounts s
      → (t : s.State) (bodies : String → Settled Issue BootstrapInput) (i j a b : String)
        (x y : BootstrapInput)
      → (i == j) ≡ false
      → s.count t ≡ 0
      → bodies i ≡ ok x
      → bodies j ≡ ok y
      → (s.create_user (first_admin x) t).0 ≡ ok (some a)
      → (s.create_user (first_admin y) (s.create_user (first_admin x) t).1).0 ≡ ok (some b)
      → (m : System s) × Reach s false (start s bodies t) m
        × (s.count m.accounts ≡ 2)
        × (m.phase i ≡ Phase.answered failed)
        × (m.phase j ≡ Phase.answered success)
  unfolding needs_setup counted
  Reach-two laws t bodies i j a b x y n empty bi bj first second = (
    created s j y m4,
    Reach.later
        (Reach.later
          (enters j y m2
            (Reach.later (enters i x (start s bodies t) Reach.here (rw bi refl) refl nobody)
              (Step.times_out i refl refl))
            (rw (n, bj) refl) (rw (eq_refl i) refl) nobody)
          (Step.creates_late i x (rw (n', eq_refl i) refl) refl))
        (Step.creates j y (rw (n, eq_refl j) refl) refl),
    rw (made x t a first, made y (s.create_user (first_admin x) t).1 b second)
        (omega (
          arith,
          empty,
          (laws.created (first_admin x) t a first).0,
          (laws.created (first_admin y) (s.create_user (first_admin x) t).1 b second).0,
        )),
    rw (n', eq_refl i) refl,
    rw (eq_refl j, made x t a first, made y (s.create_user (first_admin x) t).1 b second) refl,
  )
    where
      n' : (j == i) ≡ false
      n' = ground (arith, eq_iff i j, eq_iff j i)

      nobody : needs_setup s t ≡ true
      nobody = rw empty refl

      inside : String → BootstrapInput → System s → System s
      inside k z m = record m {
        lock = some k;
        phase = put k (Phase.creating z) (put k (Phase.holding z) m.phase);
      }

      enters :
          (k : String) (z : BootstrapInput) (m : System s)
          → Reach s false (start s bodies t) m
          → m.phase k ≡ Phase.waiting z
          → m.lock ≡ none
          → needs_setup s m.accounts ≡ true
          → Reach s false (start s bodies t) (inside k z m)
      enters k z m before waits free needed =
          Reach.later (Reach.later before (Step.locks k z waits free refl))
            (Step.counts k z (rw (eq_refl k) refl) (rw needed refl))

      m2 : System s
      m2 = timed_out s i (inside i x (start s bodies t))

      m4 : System s
      m4 = created_late s i x (inside j y m2)

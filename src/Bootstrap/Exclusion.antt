-- ===== src/Bootstrap/Exclusion.antt =====
-- Set-ups that overlap and do not time out (apps/backend/src/routes/bootstrap.ts): the lock keeps
-- them apart.
use minikura.Common.{
  String, Bool, true, false, Option, none, some, ◌==◌, ◌≡◌, ◌≤◌, refl, suc, Settled, ok, thrown,
  arith, eq_iff, eq_refl, Bool-cases, inl, inr, subst, sym,
}
use Prim.{absurd}
use minikura.Domain.Errors.{Thrown}
use minikura.Bootstrap.Single.{wrap}
use minikura.Bootstrap.{
  NewUser, BootstrapInput, Issue, Accounts, IsAccounts, completed, needs_setup, created_result,
  answer_of, first_admin,
}
use minikura.Bootstrap.Overlap.{
  Phase, System, Step, Reach, put, start, locked, counted, created, unlocked, arrives,
}

abbrev pub succeeded : Phase → Bool
succeeded (Phase.answered answer) = elim answer.message [ none ↦ true | some text ↦ false ]
succeeded _ = false

-- Between the lock and the answer, within the transaction.
abbrev is_inside : Phase → Bool
is_inside (Phase.holding data_) = true
is_inside (Phase.creating data_) = true
is_inside _ = false

abbrev is_creating : Phase → Bool
is_creating (Phase.creating data_) = true
is_creating _ = false

abbrev is_late : Phase → Bool
is_late (Phase.late data_) = true
is_late _ = false

creating_inside : (p : Phase) → is_creating p ≡ true → is_inside p ≡ true
creating_inside (Phase.creating data_) h = refl
creating_inside (Phase.waiting data_) h = h
creating_inside (Phase.holding data_) h = refl
creating_inside (Phase.late data_) h = h
creating_inside (Phase.answered answer) h = h

-- A test of a request's phase, after the phase of one was set.
put-cases :
    {P : Type 0} (test : Phase → Bool) (i : String) (p : Phase) (phase : String → Phase)
    (j : String)
    → (i ≡ j → test p ≡ true → P)
    → ((i == j) ≡ false → test (phase j) ≡ true → P)
    → test (put i p phase j) ≡ true
    → P
put-cases test i p phase j same other = elim (Bool-cases (i == j)) [
  | inl h ↦ rw h (same ((eq_iff i j).0 h))
  | inr h ↦ rw h (other h)
]

arrives-rests :
    (body : Settled Issue BootstrapInput)
    → (is_inside (arrives body) ≡ false)
      × (is_creating (arrives body) ≡ false)
      × (is_late (arrives body) ≡ false)
      × (succeeded (arrives body) ≡ false)
arrives-rests (ok data_) = (refl, refl, refl, refl)
arrives-rests (thrown issue) = (refl, refl, refl, refl)

module _ (s : Accounts) where
  -- What is kept, from a beginning with the accounts `t`.
  record Apart (t : s.State) (m : System s) : Type 0 where
    owner : (i : String) → is_inside (m.phase i) ≡ true → m.lock ≡ some i
    none_yet : (i : String) → is_creating (m.phase i) ≡ true → s.count m.accounts ≡ 0
    no_late : (i : String) → ¬ (is_late (m.phase i) ≡ true)
    some_then : (i : String) → succeeded (m.phase i) ≡ true → 1 ≤ s.count m.accounts
    one : (i j : String) → succeeded (m.phase i) ≡ true → succeeded (m.phase j) ≡ true → i ≡ j
    grows : s.count t ≤ s.count m.accounts
    bound : s.count t ≡ 0 → s.count m.accounts ≤ 1
    kept : 1 ≤ s.count t → m.accounts ≡ t

  start-Apart :
      (bodies : String → Settled Issue BootstrapInput) (t : s.State) → Apart t (start s bodies t)
  start-Apart bodies t = record {
    owner = λ i h. cc (h, (arrives-rests (bodies i)).0);
    none_yet = λ i h. cc (h, (arrives-rests (bodies i)).1);
    no_late = λ i h. cc (h, (arrives-rests (bodies i)).2);
    some_then = λ i h. cc (h, (arrives-rests (bodies i)).3);
    one = λ i j h k. cc (h, (arrives-rests (bodies i)).3);
    grows = omega arith;
    bound = λ h. omega arith;
    kept = λ h. refl;
  }

  -- The phase of one request and the lock change, and the accounts stay.
  moved-Apart :
      (t : s.State) (m : System s) (i : String) (p : Phase) (lock : Option String)
      → Apart t m
      → ¬ (succeeded p ≡ true)
      → ¬ (is_late p ≡ true)
      → (is_creating p ≡ true → s.count m.accounts ≡ 0)
      → (is_inside p ≡ true → lock ≡ some i)
      → ((j : String) → (i == j) ≡ false → is_inside (m.phase j) ≡ true → lock ≡ some j)
      → Apart t (record m { lock = lock; phase = put i p m.phase })
  moved-Apart t m i p lock h fails timely none_yet mine others = record {
    owner = λ j.
        put-cases is_inside i p m.phase j (λ e k. subst (λ x. lock ≡ some x) e (mine k)) (others j);
    none_yet = λ j. put-cases is_creating i p m.phase j (λ e k. none_yet k) (λ n k. h.none_yet j k);
    no_late = λ j. put-cases is_late i p m.phase j (λ e k. timely k) (λ n k. h.no_late j k);
    some_then =
        λ j. put-cases succeeded i p m.phase j (λ e k. absurd (fails k)) (λ n k. h.some_then j k);
    one = λ j k.
        put-cases succeeded i p m.phase j (λ e x. absurd (fails x))
          (λ n x.
            put-cases succeeded i p m.phase k (λ e y. absurd (fails y)) (λ n' y. h.one j k x y));
    grows = h.grows;
    bound = h.bound;
    kept = h.kept;
  }

  locked-Apart :
      (t : s.State) (m : System s) (i : String) (data_ : BootstrapInput)
      → Apart t m
      → m.lock ≡ none
      → Apart t (locked s i data_ m)
  locked-Apart t m i data_ h free =
      moved-Apart t m i (Phase.holding data_) (some i) h (λ e. cc e) (λ e. cc e) (λ e. cc e)
        (λ e. refl) (λ j n e. cc (h.owner j e, free))

  counted-Apart :
      (t : s.State) (m : System s) (i : String) (data_ : BootstrapInput)
      → Apart t m
      → m.phase i ≡ Phase.holding data_
      → Apart t (counted s i data_ m)
  unfolding needs_setup counted
  counted-Apart t m i data_ h holds = elim (Bool-cases (needs_setup s m.accounts)) [
    | inl needed ↦ rw needed (
        moved-Apart t m i (Phase.creating data_) m.lock h (λ e. cc e) (λ e. cc e)
          (λ e. ground arith) (λ e. mine) (λ j n e. h.owner j e))
    | inr not_needed ↦ rw not_needed (
        moved-Apart t m i (Phase.answered completed) (unlocked i m.lock) h (λ e. cc e) (λ e. cc e)
          (λ e. cc e) (λ e. cc e) (λ j n e. rw (h.owner j e, n) refl))
  ]
    where
      mine : m.lock ≡ some i
      mine = h.owner i (rw holds refl)

  -- What the call that makes the user adds.
  created_result-count :
      IsAccounts s
      → (data_ : BootstrapInput) (t : s.State)
      → let r = created_result s data_ t in
        (s.count t ≤ s.count r.1)
        × (s.count r.1 ≤ suc (s.count t))
        × (succeeded (Phase.answered (answer_of r.0)) ≡ true → s.count r.1 ≡ suc (s.count t))
  created_result-count laws data_ t =
      go (s.create_user u t) (laws.count_grows u t) (laws.count_bound u t)
        (λ id e. (laws.created u t id e).0)
    where
      u : NewUser
      u = first_admin data_

      go :
          (p : Settled Thrown (Option String) × s.State)
          → s.count t ≤ s.count p.1
          → s.count p.1 ≤ suc (s.count t)
          → ((id : String) → p.0 ≡ ok (some id) → s.count p.1 ≡ suc (s.count t))
          → (s.count t ≤ s.count (wrap p t).1)
            × (s.count (wrap p t).1 ≤ suc (s.count t))
            × (succeeded (Phase.answered (answer_of (wrap p t).0)) ≡ true
                → s.count (wrap p t).1 ≡ suc (s.count t))
      go (ok (some id), t') below above told = (below, above, λ e. told id refl)
      go (ok none, t') below above told = (below, above, λ e. cc e)
      go (thrown x, t') below above told = (below, above, λ e. cc e)

  created-Apart :
      IsAccounts s
      → (t : s.State) (m : System s) (i : String) (data_ : BootstrapInput) → Apart t m
      → m.phase i ≡ Phase.creating data_
      → Apart t (created s i data_ m)
  created-Apart laws t m i data_ h creates = record {
    owner =
        λ j. put-cases is_inside i answer m.phase j (λ e k. cc k) (λ n k. rw (h.owner j k, n) refl);
    none_yet = λ j.
        put-cases is_creating i answer m.phase j (λ e k. cc k)
          (λ n k. cc (h.owner i mine, h.owner j (creating_inside (m.phase j) k), n, eq_refl i));
    no_late = λ j. put-cases is_late i answer m.phase j (λ e k. cc k) (λ n k. h.no_late j k);
    some_then = λ j.
        put-cases succeeded i answer m.phase j (λ e k. omega (arith, nobody, added.2 k))
          (λ n k. omega (arith, nobody, h.some_then j k));
    one = λ j k.
        put-cases succeeded i answer m.phase j
          (λ e x.
            put-cases succeeded i answer m.phase k (λ e' y. cc (e, e'))
              (λ n y. absurd (omega (arith, nobody, h.some_then k y))))
          (λ n x. absurd (omega (arith, nobody, h.some_then j x)));
    grows = omega (arith, added.0, h.grows);
    bound = λ e. omega (arith, added.1, nobody);
    kept = λ e. absurd (omega (arith, e, h.grows, nobody));
  }
    where
      answer : Phase
      answer = Phase.answered (answer_of (created_result s data_ m.accounts).0)

      nobody : s.count m.accounts ≡ 0
      nobody = h.none_yet i (rw creates refl)

      added :
          let r = created_result s data_ m.accounts in
          (s.count m.accounts ≤ s.count r.1)
          × (s.count r.1 ≤ suc (s.count m.accounts))
          × (succeeded (Phase.answered (answer_of r.0)) ≡ true
              → s.count r.1 ≡ suc (s.count m.accounts))
      added = created_result-count laws data_ m.accounts

      mine : is_inside (m.phase i) ≡ true
      mine = rw creates refl

  Step-Apart :
      IsAccounts s → (t : s.State) (m m' : System s) → Apart t m → Step s true m m' → Apart t m'
  Step-Apart laws t m m' h (Step.locks i data_ waits free e) =
      subst (Apart t) (sym e) (locked-Apart t m i data_ h free)
  Step-Apart laws t m m' h (Step.counts i data_ holds e) =
      subst (Apart t) (sym e) (counted-Apart t m i data_ h holds)
  Step-Apart laws t m m' h (Step.creates i data_ creates e) =
      subst (Apart t) (sym e) (created-Apart laws t m i data_ h creates)
  Step-Apart laws t m m' h (Step.creates_late i data_ late e) = absurd (h.no_late i (rw late refl))
  Step-Apart laws t m m' h (Step.times_out i untimely e) = cc untimely

  Reach-Apart :
      IsAccounts s
      → (t : s.State) (bodies : String → Settled Issue BootstrapInput) (m : System s)
      → Reach s true (start s bodies t) m
      → Apart t m
  Reach-Apart laws t bodies m Reach.here = start-Apart bodies t
  Reach-Apart laws t bodies m (Reach.later before step) =
      Step-Apart laws t _ m (Reach-Apart laws t bodies _ before) step

  -- However set-ups overlap, as long as no transaction times out: at most one of them tells of
  -- success, and only if there is a user then; where there were no users, there is at most one; and
  -- where there were users, the accounts stay as they were.
  pub Reach-one :
      IsAccounts s
      → (t : s.State) (bodies : String → Settled Issue BootstrapInput) (m : System s)
      → Reach s true (start s bodies t) m
      → ((i j : String) → succeeded (m.phase i) ≡ true → succeeded (m.phase j) ≡ true → i ≡ j)
        × ((i : String) → succeeded (m.phase i) ≡ true → 1 ≤ s.count m.accounts)
        × (s.count t ≡ 0 → s.count m.accounts ≤ 1)
        × (1 ≤ s.count t → m.accounts ≡ t)
  Reach-one laws t bodies m reached =
      let h = Reach-Apart laws t bodies m reached in (h.one, h.some_then, h.bound, h.kept)

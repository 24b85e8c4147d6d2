-- ===== src/Bootstrap/Tests.antt =====
-- Accounts in memory, which keep the laws asked of them, and the theorems on set-ups for them.
use minikura.Common.{
  String, true, false, Option, none, some, List, [], ◌∷◌, ◌==◌, ◌≡◌, ◌≤◌, refl, suc, length, lookup,
  Settled, ok, thrown, arith, eq_iff, if◌then◌else◌,
}
use minikura.Domain.Errors.{Thrown}
use minikura.Bootstrap.{BootstrapInput, Issue, NewUser, Accounts, IsAccounts, success, failed}
use minikura.Bootstrap.Overlap.{Phase, System, Step, Reach, start, locked, counted, created}
use minikura.Bootstrap.Exclusion.{succeeded, Reach-one}
use minikura.Bootstrap.Doubled.{Reach-two}

abbrev adds :
    NewUser
    → Option String
    → List (String × String)
    → Settled Thrown (Option String) × List (String × String)
adds u none t = (ok (some u.email), (u.email, u.role) ∷ t)
adds u (some role) t = (thrown (Thrown.error "APIError" "User already exists"), t)

-- An id is the address of the user.
abbrev memory : Accounts
memory = record {
  State = List (String × String);
  count = length;
  role_of = lookup;
  create_user = λ u t. adds u (lookup u.email t) t;
}

memory-IsAccounts : IsAccounts memory
memory-IsAccounts = record {
  count_grows = λ u t. grows u (lookup u.email t) t;
  count_bound = λ u t. bound u (lookup u.email t) t;
  created = λ u t id. created u (lookup u.email t) t id;
}
  where
    grows :
        (u : NewUser) (found : Option String) (t : List (String × String))
        → length t ≤ length (adds u found t).1
    grows u none t = omega arith
    grows u (some role) t = omega arith

    bound :
        (u : NewUser) (found : Option String) (t : List (String × String))
        → length (adds u found t).1 ≤ suc (length t)
    bound u none t = omega arith
    bound u (some role) t = omega arith

    created :
        (u : NewUser) (found : Option String) (t : List (String × String)) (id : String)
        → (adds u found t).0 ≡ ok (some id)
        → (length (adds u found t).1 ≡ suc (length t))
          × (lookup id (adds u found t).1 ≡ some u.role)
    created u none t id h = (refl, ground (arith, eq_iff u.email id))
    created u (some role) t id h = cc h

abbrev no_users : List (String × String)
no_users = []

abbrev ann : BootstrapInput
ann = record { name = "Ann"; email = "ann@example.org"; password = "correct horse" }

abbrev bob : BootstrapInput
bob = record { name = "Bob"; email = "bob@example.org"; password = "battery staple" }

abbrev bodies : String → Settled Issue BootstrapInput
bodies id = if id == "a" then ok ann else ok bob

abbrev waits : System memory
waits = start memory bodies []

-- The first of two set-ups, alone.
abbrev set_up : System memory
set_up = created memory "a" ann (counted memory "a" ann (locked memory "a" ann waits))

answered_ann : set_up.phase "a" ≡ Phase.answered success
unfolding counted
answered_ann = refl

set_up-Reach : Reach memory true waits set_up
unfolding counted
set_up-Reach =
    Reach.later
      (Reach.later (Reach.later Reach.here (Step.locks "a" ann refl refl refl))
        (Step.counts "a" ann refl refl))
      (Step.creates "a" ann refl refl)

Reach-one_example :
    ((i j : String) → succeeded (set_up.phase i) ≡ true → succeeded (set_up.phase j) ≡ true → i ≡ j)
    × ((i : String) → succeeded (set_up.phase i) ≡ true → 1 ≤ length set_up.accounts)
    × (length no_users ≡ 0 → length set_up.accounts ≤ 1)
    × (1 ≤ 0 → set_up.accounts ≡ [])
Reach-one_example = Reach-one memory memory-IsAccounts [] bodies set_up set_up-Reach

Reach-two_example :
    (m : System memory) × Reach memory false waits m
    × (length m.accounts ≡ 2)
    × (m.phase "a" ≡ Phase.answered failed)
    × (m.phase "b" ≡ Phase.answered success)
Reach-two_example =
    Reach-two memory memory-IsAccounts [] bodies "a" "b" ann.email bob.email ann bob refl refl refl
      refl refl refl

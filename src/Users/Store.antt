-- ===== src/Users/Store.antt =====
-- The table of users as the database client offers it. The client is no part of the program: its
-- calls are parameters, and the laws state what it documents of them.
use minikura.Common.{
  ℕ, String, Bool, true, false, Option, none, some, List, ◌==◌, ◌≡◌, ◌≢◌, ok, Settled, atomic,
  if◌then◌else◌,
}
use minikura.Domain.Errors.{Thrown, Action}
use minikura.Users.Account.{User}

pub record UserStore : Type 1 where
  pub State : Type 0
  pub find_unique : String → State → Option User
  pub find_many : State → List User
  pub count : (User → Bool) → State → ℕ
  pub update : String → (User → User) → Action State User
  pub delete : String → Action State User
  pub transaction : (A : Type 0) → Action State A → Action State A

-- What holds of every outcome of a write that has found its row: it returns `u`, and afterwards
-- the lookups are those of `found`.
abbrev pub Writes :
    (s : UserStore) → Settled Thrown User × s.State → User → (String → Option User) → Type 0
Writes s (r, t) u found = (r ≡ ok u) × ((j : String) → s.find_unique j t ≡ found j)

pub record IsUserStore (s : UserStore) : Type 1 where
  pub found_id : (i : String) (t : s.State) (u : User) → s.find_unique i t ≡ some u → u.id ≡ i
  pub count_zero :
      (p : User → Bool) (t : s.State) (i : String) (u : User)
      → s.count p t ≡ 0
      → s.find_unique i t ≡ some u
      → p u ≡ false
  pub count_pos :
      (p : User → Bool) (t : s.State)
      → s.count p t ≢ 0
      → (u : User) × (s.find_unique u.id t ≡ some u) × (p u ≡ true)
  pub update_found :
      (i : String) (f : User → User) (t : s.State) (u : User)
      → s.find_unique i t ≡ some u
      → (f u).id ≡ u.id
      → Writes s (s.update i f t) (f u) (λ j. if i == j then some (f u) else s.find_unique j t)
  pub delete_found :
      (i : String) (t : s.State) (u : User)
      → s.find_unique i t ≡ some u
      → Writes s (s.delete i t) u (λ j. if i == j then none else s.find_unique j t)
  pub transaction_atomic :
      (A : Type 0) (m : Action s.State A) (t : s.State) → s.transaction A m t ≡ atomic (m t) t

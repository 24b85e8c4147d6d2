-- ===== src/Bootstrap.antt =====
-- The set-up of the first administrator (apps/backend/src/routes/bootstrap.ts). The table of users
-- and the call of the authentication library that makes a user are parameters.
pub mod Overlap
pub mod Single
pub mod Exclusion
pub mod Doubled
mod Tests
use minikura.Common.{
  ℕ, String, Bool, Option, none, some, List, [], ◌∷◌, ◌≡◌, ◌≤◌, suc, leb, ◌+++◌, Settled, ok,
  thrown, Call, ◌>>=◌, gets, pure, if◌then◌else◌,
}
use minikura.Domain.Errors.{Thrown, Action}

pub record BootstrapInput : Type 0 where
  pub name : String
  pub email : String
  pub password : String

-- What the schema says of a body that it refuses.
pub record Issue : Type 0 where
  pub path : List String
  pub message : String

pub record NewUser : Type 0 where
  pub email : String
  pub password : String
  pub name : String
  pub role : String

-- `create_user` comes back with the id of `result.user`, where there is one.
pub record Accounts : Type 1 where
  pub State : Type 0
  pub count : State → ℕ
  pub role_of : String → State → Option String
  pub create_user : NewUser → Action State (Option String)

-- A call adds one user at most; it may have added one even where it throws. A user that it tells
-- is there with the role that was asked for.
pub record IsAccounts (s : Accounts) : Type 1 where
  pub count_grows : (u : NewUser) (t : s.State) → s.count t ≤ s.count (s.create_user u t).1
  pub count_bound : (u : NewUser) (t : s.State) → s.count (s.create_user u t).1 ≤ suc (s.count t)
  pub created :
      (u : NewUser) (t : s.State) (id : String)
      → (s.create_user u t).0 ≡ ok (some id)
      → (s.count (s.create_user u t).1 ≡ suc (s.count t))
        × (s.role_of id (s.create_user u t).1 ≡ some u.role)

-- A status and a message; without a message, `{ success: true }`.
pub record Answer : Type 0 where
  pub status : ℕ
  pub message : Option String

abbrev join : List String → String
join [] = ""
join (part ∷ []) = part
join (part ∷ parts) = part +++ "." +++ join parts

abbrev pub refused : Issue → Answer
refused issue = record { status = 400; message = some (join issue.path +++ ": " +++ issue.message) }

abbrev pub completed : Answer
completed = record { status = 400; message = some "Setup already completed" }

abbrev pub success : Answer
success = record { status = 200; message = none }

abbrev pub failed : Answer
failed = record { status = 500; message = some "Failed to complete setup" }

abbrev pub no_user : Answer
no_user = record { status = 500; message = some "Failed to create user" }

abbrev pub first_admin : BootstrapInput → NewUser
first_admin data_ = record {
  email = data_.email;
  password = data_.password;
  name = data_.name;
  role = "admin";
}

-- What the transaction comes back with: nothing where there are users, else what the call that
-- makes the user comes back with.
abbrev pub Result : Type 0
Result = Option (Option String)

abbrev pub answer_of : Settled Thrown Result → Answer
answer_of (thrown e) = failed
answer_of (ok none) = completed
answer_of (ok (some none)) = no_user
answer_of (ok (some (some id))) = success

module _ (s : Accounts) where
  unfoldable pub needs_setup : s.State → Bool
  needs_setup t = leb (s.count t) 0

  abbrev pub created_result : BootstrapInput → Action s.State Result
  created_result data_ = s.create_user (first_admin data_) >>= λ user. pure (some user)

  -- The body of the transaction. The call that makes the user is no part of the transaction: what
  -- it wrote stays.
  unfoldable pub setup : BootstrapInput → Action s.State Result
  unfolding needs_setup
  setup data_ = gets needs_setup >>= λ needed. if needed then created_result data_ else pure none

  -- A set-up that meets no other one and no timeout.
  unfoldable pub post_setup : Settled Issue BootstrapInput → s.State → Answer × s.State
  unfolding setup
  post_setup (thrown issue) t = (refused issue, t)
  post_setup (ok data_) t = let r = setup data_ t in (answer_of r.0, r.1)

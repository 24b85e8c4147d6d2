-- ===== src/Servers/Store.antt =====
-- The tables of servers and of reverse proxies, each with the environment variables that belong
-- to its rows, as the database client offers them. The client is no part of the program: its
-- calls are parameters, and the laws state what it documents of them, for a table with a unique
-- id and a unique API key and for variables that are unique for each owner and key, refer to
-- their owner and go with it (packages/db/prisma/schema.prisma).
pub mod Sequences
use minikura.Common.{
  String, Bool, true, false, ◌&&◌, not, Option, none, some, List, [], ◌∷◌, ◌==◌, ◌≡◌, is_some,
  lookup, if◌then◌else◌, ok, thrown, Settled,
}
use minikura.Domain.Errors.{Thrown, Action}
use minikura.Servers.Entities.{EnvVariable, WithEnvVars}

-- No key stands twice.
abbrev pub distinct : List EnvVariable → Bool
distinct [] = true
distinct ((k, _) ∷ vs) = not (is_some (lookup k vs)) && distinct vs

-- A new variable with its owner.
pub record NewVariable : Type 0 where
  pub key : String
  pub value : String
  pub owner : String

pub record Store (Row : Type 0) : Type 1 where
  pub State : Type 0
  pub find_unique : String → State → Option Row
  pub find_many : State → List Row
  pub env_variables : String → State → List EnvVariable
  pub create : Row → List EnvVariable → Action State (WithEnvVars Row)
  pub update : String → (Row → Row) → Action State (WithEnvVars Row)
  pub delete : String → Action State (Unit {0})
  -- `upsert`: the owner and the key of the variable that is looked for, the value that it gets where
  -- it is there, and the variable that is made where it is not.
  pub upsert_env : String → String → String → NewVariable → Action State (Unit {0})
  -- `deleteMany`, by a condition on the owner and the key.
  pub delete_envs : (String → String → Bool) → Action State (Unit {0})
  pub clear_env : String → Action State (Unit {0})
  pub create_env : String → List EnvVariable → Action State (Unit {0})

module _ {Row : Type 0} (s : Store Row) where
  -- The value of a variable of an owner.
  abbrev pub env : String → String → s.State → Option String
  env owner key t = lookup key (s.env_variables owner t)

  -- The rows of a state but for one id, and the variables but for one owner.
  abbrev pub row_set : String → Option Row → s.State → String → Option Row
  row_set i r t j = if i == j then r else s.find_unique j t

  abbrev pub vars_set :
      String → (String → Option String) → s.State → String → String → Option String
  vars_set i vars t j k = if i == j then vars k else env j k t

  -- What a state shows of the rows and of the variables.
  abbrev pub Shows : s.State → (String → Option Row) → (String → String → Option String) → Type 0
  Shows t rows vars =
      ((j : String) → s.find_unique j t ≡ rows j) × ((j k : String) → env j k t ≡ vars j k)

  abbrev pub joined : String → Row → s.State → WithEnvVars Row
  joined i r t = record { row = r; env_variables = s.env_variables i t }

  -- A write that comes through with `a`, and the state that it leaves.
  abbrev pub Leaves :
      {A : Type 0}
      → Settled Thrown A × s.State
      → (s.State → A)
      → (String → Option Row)
      → (String → String → Option String)
      → Type 0
  Leaves (r, t) a rows vars = (r ≡ ok (a t)) × Shows t rows vars

  -- A call that the database refuses, as one that changes nothing and throws the client's error.
  abbrev pub IsRefused : {A : Type 0} → s.State → Settled Thrown A × s.State → Type 0
  IsRefused t r =
      (text : String) × (r ≡ (thrown (Thrown.error "PrismaClientKnownRequestError" text), t))

pub record IsStore {Row : Type 0} (id_of key_of : Row → String) (s : Store Row) : Type 0 where
  pub found_id : (i : String) (t : s.State) (r : Row) → s.find_unique i t ≡ some r → id_of r ≡ i
  pub create_new :
      (r : Row) (vs : List EnvVariable) (t : s.State)
      → s.find_unique (id_of r) t ≡ none
      → ((j : String) (q : Row) → s.find_unique j t ≡ some q → (key_of q == key_of r) ≡ false)
      → distinct vs ≡ true
      → Leaves s
          (s.create r vs t)
          (joined s (id_of r) r)
          (row_set s (id_of r) (some r) t)
          (vars_set s (id_of r) (λ k. lookup k vs) t)
  pub update_found :
      (i : String) (f : Row → Row) (t : s.State) (r : Row)
      → s.find_unique i t ≡ some r
      → id_of (f r) ≡ id_of r
      → key_of (f r) ≡ key_of r
      → Leaves s
          (s.update i f t)
          (joined s i (f r))
          (row_set s i (some (f r)) t)
          (λ j k. env s j k t)
  pub delete_found :
      (i : String) (t : s.State) (r : Row)
      → s.find_unique i t ≡ some r
      → Leaves s (s.delete i t) (λ _. tt) (row_set s i none t) (vars_set s i (λ _. none) t)
  pub delete_missing :
      (i : String) (t : s.State) → s.find_unique i t ≡ none → IsRefused s t (s.delete i t)
  pub env_owned : (i key : String) (t : s.State) → s.find_unique i t ≡ none → env s i key t ≡ none
  pub upsert_env_found :
      (i key v old : String) (new : NewVariable) (t : s.State)
      → env s i key t ≡ some old
      → Leaves s
          (s.upsert_env i key v new t)
          (λ _. tt)
          (λ j. s.find_unique j t)
          (λ j k. if i == j && key == k then some v else env s j k t)
  pub upsert_env_new :
      (i key v : String) (new : NewVariable) (t : s.State) (r : Row)
      → env s i key t ≡ none
      → s.find_unique new.owner t ≡ some r
      → env s new.owner new.key t ≡ none
      → Leaves s
          (s.upsert_env i key v new t)
          (λ _. tt)
          (λ j. s.find_unique j t)
          (λ j k. if new.owner == j && new.key == k then some new.value else env s j k t)
  pub upsert_env_missing :
      (i key v : String) (new : NewVariable) (t : s.State)
      → env s i key t ≡ none
      → s.find_unique new.owner t ≡ none
      → IsRefused s t (s.upsert_env i key v new t)
  pub delete_envs_any :
      (p : String → String → Bool) (t : s.State)
      → Leaves s
          (s.delete_envs p t)
          (λ _. tt)
          (λ j. s.find_unique j t)
          (λ j k. if p j k then none else env s j k t)
  pub clear_env_any :
      (i : String) (t : s.State)
      → Leaves s (s.clear_env i t) (λ _. tt) (λ j. s.find_unique j t) (vars_set s i (λ _. none) t)
  pub create_env_found :
      (i : String) (vs : List EnvVariable) (t : s.State) (r : Row)
      → s.find_unique i t ≡ some r
      → ((k : String) → env s i k t ≡ none)
      → distinct vs ≡ true
      → Leaves s
          (s.create_env i vs t)
          (λ _. tt)
          (λ j. s.find_unique j t)
          (vars_set s i (λ k. lookup k vs) t)
  pub create_env_twice :
      (i : String) (vs : List EnvVariable) (t : s.State)
      → distinct vs ≡ false
      → IsRefused s t (s.create_env i vs t)

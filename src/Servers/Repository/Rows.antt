-- ===== src/Servers/Repository/Rows.antt =====
-- The methods that the two repository classes have in common, over the table of either
-- (server.repository.impl.ts and reverse-proxy.repository.impl.ts of
-- apps/backend/src/infrastructure/repositories/prisma).
use minikura.Common.{
  String, Bool, true, false, Option, none, some, List, [], ◌∷◌, map, is_some, ◌>>=◌, ◌>>◌, gets,
  pure, or_throw, if◌then◌else◌, ◌==◌, ◌&&◌,
}
use minikura.Domain.Errors.{DomainError, Thrown, Action}
use minikura.Servers.Entities.{EnvVariable, WithEnvVars}
use minikura.Servers.Store.{Store, joined}

abbrev pub is_empty : List EnvVariable → Bool
is_empty [] = true
is_empty (v ∷ vs) = false

-- `name` is the entity's name in messages, and `blank` empties a row's API key.
module _ {Row : Type 0} (s : Store Row) (name : String) (blank : Row → Row) where
  open s use {State, find_unique, find_many, env_variables, upsert_env, clear_env, create_env}

  abbrev pub missing : String → Thrown
  missing id = Thrown.domain (DomainError.not_found name (some id))

  abbrev pub taken : String → Thrown
  taken id = Thrown.domain (DomainError.conflict name (some id))

  abbrev pub shown : Bool → String → Row → State → WithEnvVars Row
  shown omit_sensitive id r t =
      if omit_sensitive then record { row = blank r; env_variables = [] } else joined s id r t

  abbrev pub show_found : Bool → String → State → Option (WithEnvVars Row)
  show_found omit_sensitive id t = elim (find_unique id t) [
    | none ↦ none
    | some r ↦ some (shown omit_sensitive id r t)
  ]

  unfoldable pub find_by_id : String → Bool → Action State (Option (WithEnvVars Row))
  find_by_id id omit_sensitive = gets (show_found omit_sensitive id)

  unfoldable pub find_all : (Row → String) → Bool → Action State (List (WithEnvVars Row))
  find_all id_of omit_sensitive =
      gets (λ t. map (λ r. shown omit_sensitive (id_of r) r t) (find_many t))

  unfoldable pub exists : String → Action State Bool
  exists id = gets (λ t. is_some (find_unique id t))

  unfoldable pub delete : String → Action State (Unit {0})
  delete id = s.delete id

  unfoldable pub set_env_variable : String → String → String → Action State (Unit {0})
  set_env_variable id key value =
      upsert_env id key value (record { key = key; value = value; owner = id })

  unfoldable pub get_env_variables : String → Action State (List EnvVariable)
  get_env_variables id = do
    row ← gets (find_unique id)
    r ← or_throw row (missing id)
    gets (env_variables id)

  unfoldable pub delete_env_variable : String → String → Action State (Unit {0})
  delete_env_variable id key = s.delete_envs (λ owner k. owner == id && k == key)

  unfoldable pub replace_env_variables : String → List EnvVariable → Action State (Unit {0})
  replace_env_variables id vs = do clear_env id; if is_empty vs then pure tt else create_env id vs

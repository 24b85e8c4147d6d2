-- ===== src/Servers/Crud.antt =====
-- The service that the two kinds share
-- (apps/backend/src/application/services/base-crud.service.ts). Publishing an event is a write to
-- the list of the events published.
pub mod Laws
use minikura.Common.{
  String, Bool, true, false, Option, none, some, List, [], ◌∷◌, ◌++◌, Settled, ok, thrown, ◌>>=◌,
  ◌>>◌, pure, modify, throw_if, or_throw,
}
use minikura.Domain.Errors.{DomainError, Thrown, Action}
use minikura.Servers.Entities.{EnvVariable}

-- What the service asks of a repository. `create` takes the random text for the API key.
pub record Repository (S Entity CreateInput UpdateInput : Type 0) : Type 0 where
  pub find_all : Bool → Action S (List Entity)
  pub find_by_id : String → Bool → Action S (Option Entity)
  pub exists : String → Action S Bool
  pub create : String → CreateInput → Action S Entity
  pub update : String → UpdateInput → Action S Entity
  pub delete : String → Action S (Unit {0})
  pub set_env_variable : String → String → String → Action S (Unit {0})
  pub get_env_variables : String → Action S (List EnvVariable)
  pub delete_env_variable : String → String → Action S (Unit {0})

-- The classes of the events.
pub record Events (Event Kind CreateInput UpdateInput : Type 0) : Type 0 where
  pub created : String → Kind → CreateInput → Event
  pub updated : String → UpdateInput → Event
  pub deleted : String → Event

pub record World (S Event : Type 0) : Type 0 where
  pub db : S
  pub published : List Event

module _ {S Event : Type 0} where
  unfoldable pub in_db : {A : Type 0} → Action S A → Action (World S Event) A
  in_db m w = let (r, db') = m w.db in (r, record w { db = db' })

  unfoldable pub publish : Event → Action (World S Event) (Unit {0})
  publish e = modify (λ w. record w { published = w.published ++ e ∷ [] })

  -- `await eventBus.publish(event); return entity;`
  unfoldable pub announce : {A : Type 0} → Event → A → Action (World S Event) A
  unfolding publish
  announce event entity = do publish event; pure entity

module _ {S Event Entity Kind CreateInput UpdateInput : Type 0}
    (repository : Repository S Entity CreateInput UpdateInput)
    (events : Events Event Kind CreateInput UpdateInput) (entity_name : String)
    (get_entity_type : CreateInput → Kind) (get_input_id : CreateInput → String) where
  unfoldable pub get_all : Bool → Action (World S Event) (List Entity)
  unfolding in_db
  get_all omit_sensitive = in_db (repository.find_all omit_sensitive)

  unfoldable pub get_by_id : String → Bool → Action (World S Event) Entity
  unfolding in_db
  get_by_id id omit_sensitive = do
    entity ← in_db (repository.find_by_id id omit_sensitive)
    or_throw entity (Thrown.domain (DomainError.not_found entity_name (some id)))

  -- `create` after its test.
  unfoldable pub create_unless : String → CreateInput → Bool → Action (World S Event) Entity
  unfolding in_db announce
  create_unless encoded input existing = do
    throw_if existing (Thrown.domain (DomainError.conflict entity_name (some (get_input_id input))))
    entity ← in_db (repository.create encoded input)
    announce (events.created (get_input_id input) (get_entity_type input) input) entity

  unfoldable pub create : String → CreateInput → Action (World S Event) Entity
  unfolding in_db create_unless
  create encoded input = do
    existing ← in_db (repository.exists (get_input_id input))
    create_unless encoded input existing

  unfoldable pub update : String → UpdateInput → Action (World S Event) Entity
  unfolding in_db announce
  update id input = do
    entity ← in_db (repository.update id input)
    announce (events.updated id input) entity

  unfoldable pub delete : String → Action (World S Event) (Unit {0})
  unfolding in_db publish
  delete id = do in_db (repository.delete id); publish (events.deleted id)

  unfoldable pub set_env_variable : String → String → String → Action (World S Event) (Unit {0})
  unfolding in_db
  set_env_variable id key value = in_db (repository.set_env_variable id key value)

  unfoldable pub get_env_variables : String → Action (World S Event) (List EnvVariable)
  unfolding in_db
  get_env_variables id = in_db (repository.get_env_variables id)

  unfoldable pub delete_env_variable : String → String → Action (World S Event) (Unit {0})
  unfolding in_db
  delete_env_variable id key = in_db (repository.delete_env_variable id key)

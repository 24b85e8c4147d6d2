-- ===== src/Servers/Service/Changes.antt =====
-- What updating and deleting a server does.
use minikura.Common.{
  String, true, Option, none, some, List, [], ◌∷◌, ◌==◌, ◌≡◌, ◌∙◌, refl, ap, lookup, or_else,
  if◌then◌else◌, thrown,
}
use minikura.Domain.Errors.{DomainError, Thrown}
use minikura.Domain.Handler.{error_handler}
use minikura.Servers.Entities.{Server, EnvVariable}
use minikura.Servers.Inputs.{ServerUpdateInput}
use minikura.Servers.Store.{Store, IsStore, Leaves, env, row_set, vars_set, joined, distinct}
use minikura.Servers.Store.Sequences.{bind-Leaves, Leaves-resp}
use minikura.Servers.Repository.ServerRows
use minikura.Servers.Repository.ServerRows.{set_server, replace_given, without_key}
use minikura.Servers.Repository.Writes.{replace-Leaves}
use minikura.Servers.Service.Given.{IsUpdated, set_server-IsUpdated}
use minikura.Servers.Crud.{World, announce}
use minikura.Servers.Crud.Laws.{Does, notify-Does, update_throws, delete_throws}
use minikura.Servers.Service.ServerCalls.{
  ServerEvent, server_updated, server_deleted, server_events, server_repository, update_server,
  delete_server,
}

module _ (s : Store Server) where
  -- The variables after an update: replaced if the input has any list, and left alone otherwise.
  abbrev pub given_vars :
      String → Option (List EnvVariable) → s.State → String → String → Option String
  given_vars id none t = λ j k. env s j k t
  given_vars id (some vs) t = vars_set s id (λ k. lookup k vs) t

module _ (s : Store Server) (laws : IsStore (λ r. r.id) (λ r. r.api_key) s) where
  given_Leaves :
      (id : String) (given : Option (List EnvVariable)) (t : s.State) (r : Server)
      → s.find_unique id t ≡ some r
      → distinct (or_else given []) ≡ true
      → Leaves s
          (replace_given s id given t)
          (λ _. tt)
          (λ j. s.find_unique j t)
          (given_vars s id given t)
  unfolding ServerRows.replace_env_variables
  given_Leaves id none t r e once = (refl, ((λ j. refl), λ j k. refl))
  given_Leaves id (some vs) t r e once =
      replace-Leaves (λ q. q.id) (λ q. q.api_key) s laws "Server" without_key id vs t r e once

  update_Leaves :
      (id : String) (input : ServerUpdateInput) (t : s.State) (r : Server)
      → s.find_unique id t ≡ some r
      → distinct (or_else input.env_variables []) ≡ true
      → Leaves s
          (ServerRows.update s id input t)
          (joined s id (set_server input r))
          (row_set s id (some (set_server input r)) t)
          (given_vars s id input.env_variables t)
  unfolding ServerRows.update
  update_Leaves id input t r e once =
      rw (e, ServerRows.update)
        (bind-Leaves s t (replace_given s id input.env_variables)
          (λ _. s.update id (set_server input)) (λ _. tt) (joined s id (set_server input r))
          (λ j. s.find_unique j t) (row_set s id (some (set_server input r)) t)
          (given_vars s id input.env_variables t) (given_vars s id input.env_variables t)
          (given_Leaves id input.env_variables t r e once)
          (λ u (same, kept).
            Leaves-resp s (s.update id (set_server input) u) (joined s id (set_server input r))
              (row_set s id (some (set_server input r)) u)
              (row_set s id (some (set_server input r)) t) (λ j k. env s j k u)
              (given_vars s id input.env_variables t)
              (λ j. ap (λ x. if id == j then some (set_server input r) else x) (same j)) kept
              (laws.update_found id (set_server input) u r (same id ∙ e) refl refl)))

  update_missing :
      (id : String) (input : ServerUpdateInput) (t : s.State)
      → s.find_unique id t ≡ none
      → ServerRows.update s id input t
        ≡ (thrown (Thrown.domain (DomainError.not_found "Server" (some id))), t)
  unfolding ServerRows.update
  update_missing id input t e = rw (e, ServerRows.update) refl

  -- What `update_server` owes, by the server that has the id.
  abbrev pub Updates :
      String → ServerUpdateInput → World s.State ServerEvent → Option Server → Type 0
  Updates id input w none =
      update_server s id input w
      ≡ (thrown (Thrown.domain (DomainError.not_found "Server" (some id))), w)
  Updates id input w (some r) =
      (new : Server) × IsUpdated input r new
      × Does s w (update_server s id input w) (joined s id new) (row_set s id (some new) w.db)
          (given_vars s id input.env_variables w.db) (server_updated id input ∷ [])

  -- For an input that has no variable twice: updating a server that is not there is answered by a
  -- NotFoundError and changes nothing. One that is there gets the fields that the input has,
  -- keeps its id, its type, its key and all fields that the input leaves out, and, if the input
  -- has a list of variables, has exactly these from then on; no other server changes, and the one
  -- event published tells of the input.
  pub update_server_lem :
      (id : String) (input : ServerUpdateInput) (w : World s.State ServerEvent)
      → distinct (or_else input.env_variables []) ≡ true
      → Updates id input w (s.find_unique id w.db)
  unfolding update_server
  update_server_lem id input w once = go (s.find_unique id w.db) refl
    where
      go : (o : Option Server) → s.find_unique id w.db ≡ o → Updates id input w o
      go none e =
          update_throws (server_repository s) server_events "Server" (λ i. i.type) (λ i. i.id) id
            input w (Thrown.domain (DomainError.not_found "Server" (some id)))
            (update_missing id input w.db e)
      go (some r) e = (
        set_server input r,
        set_server-IsUpdated input r,
        notify-Does s w (joined s id (set_server input r))
            (row_set s id (some (set_server input r)) w.db)
            (given_vars s id input.env_variables w.db) (server_updated id input)
            (ServerRows.update s id input) (update_Leaves id input w.db r e once),
      )

  -- What `delete_server` owes, by the server that has the id.
  abbrev pub Deletes : String → World s.State ServerEvent → Option Server → Type 0
  Deletes id w none =
      (e : Thrown) × (delete_server s id w ≡ (thrown e, w)) × ((error_handler e).status ≡ 500)
  Deletes id w (some r) =
      Does s w (delete_server s id w) (λ _. tt) (row_set s id none w.db)
        (vars_set s id (λ _. none) w.db) (server_deleted id ∷ [])

  -- Deleting a server that is there removes it with its variables, leaves all others alone and
  -- publishes the one event that tells of it. Deleting one that is not there changes nothing and
  -- publishes nothing; what the database client throws then is no domain error, so that the
  -- answer has status 500.
  pub delete_server_lem :
      (id : String) (w : World s.State ServerEvent) → Deletes id w (s.find_unique id w.db)
  unfolding delete_server ServerRows.delete error_handler announce
  delete_server_lem id w = go (s.find_unique id w.db) refl
    where
      go : (o : Option Server) → s.find_unique id w.db ≡ o → Deletes id w o
      go (some r) e =
          notify-Does s w (λ _. tt) (row_set s id none w.db) (vars_set s id (λ _. none) w.db)
            (server_deleted id) (ServerRows.delete s id) (laws.delete_found id w.db r e)
      go none e =
          let (text, refused) = laws.delete_missing id w.db e in
          (
            Thrown.error "PrismaClientKnownRequestError" text,
            delete_throws (server_repository s) server_events "Server" (λ i. i.type) (λ i. i.id) id
                w (Thrown.error "PrismaClientKnownRequestError" text) refused,
            refl,
          )

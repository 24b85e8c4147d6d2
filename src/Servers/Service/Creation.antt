-- ===== src/Servers/Service/Creation.antt =====
-- What creating a server or a reverse proxy does.
use minikura.Common.{
  String, true, false, Option, none, some, [], ◌∷◌, ◌==◌, ◌≡◌, refl, lookup, or_else, ok, thrown,
  is_some,
}
use minikura.Domain.Errors.{DomainError, Thrown}
use minikura.Servers.Entities.{Server}
use minikura.Servers.Inputs.{ServerCreateInput}
use minikura.Servers.Store.{Store, IsStore, row_set, vars_set, joined, distinct}
use minikura.Servers.Repository.ApiKeys.{generate_server_api_key}
use minikura.Servers.Repository.ServerRows
use minikura.Servers.Crud.{World}
use minikura.Servers.Crud.Laws.{Does, notify-Does, create_taken, create_fresh}
use minikura.Servers.Service.ServerCalls.{
  ServerEvent, server_created, server_events, server_repository, create_server,
}

module _ (s : Store Server) (laws : IsStore (λ r. r.id) (λ r. r.api_key) s) where
  server_exists :
      (id : String) (t : s.State)
      → ServerRows.exists s id t ≡ (ok (is_some (s.find_unique id t)), t)
  unfolding ServerRows.exists
  server_exists id t = refl

  server_create :
      (encoded : String) (input : ServerCreateInput) (t : s.State)
      → s.find_unique input.id t ≡ none
      → ServerRows.create s encoded input t
        ≡ s.create
            (ServerRows.new_row input (generate_server_api_key encoded))
            (or_else input.env_variables [])
            t
  unfolding ServerRows.create
  server_create encoded input t e = rw (e, ServerRows.create) refl

  -- What `create_server` owes, by the server that already has the id.
  abbrev pub Creates :
      String → ServerCreateInput → World s.State ServerEvent → Option Server → Type 0
  Creates encoded input w (some r) =
      create_server s encoded input w
      ≡ (thrown (Thrown.domain (DomainError.conflict "Server" (some input.id))), w)
  Creates encoded input w none =
      let row = ServerRows.new_row input (generate_server_api_key encoded) in
      Does s w (create_server s encoded input w) (joined s input.id row)
        (row_set s input.id (some row) w.db)
        (vars_set s input.id (λ k. lookup k (or_else input.env_variables [])) w.db)
        (server_created input.id input.type input ∷ [])

  -- For a key that no server has and no variable given twice: creating a server under an id that
  -- is taken is a conflict and changes nothing. Under a free id it comes through: it returns the
  -- new row with its variables, the table then has this row and these variables and all the
  -- others as before, and the one event published tells of the creation.
  pub create_server_lem :
      (encoded : String) (input : ServerCreateInput) (w : World s.State ServerEvent)
      → ((j : String) (q : Server)
          → s.find_unique j w.db ≡ some q
          → (q.api_key == generate_server_api_key encoded) ≡ false)
      → distinct (or_else input.env_variables []) ≡ true
      → Creates encoded input w (s.find_unique input.id w.db)
  unfolding create_server
  create_server_lem encoded input w fresh once = go (s.find_unique input.id w.db) refl
    where
      go : (o : Option Server) → s.find_unique input.id w.db ≡ o → Creates encoded input w o
      go (some r) e =
          create_taken (server_repository s) server_events "Server" (λ i. i.type) (λ i. i.id)
            encoded input w (rw (server_exists input.id w.db) (rw e refl))
      go none e =
          let row : Server = ServerRows.new_row input (generate_server_api_key encoded) in
          rw
            (create_fresh (server_repository s) server_events "Server" (λ i. i.type) (λ i. i.id)
              encoded input w (rw (server_exists input.id w.db) (rw e refl)))
            (notify-Does s w (joined s input.id row) (row_set s input.id (some row) w.db)
              (vars_set s input.id (λ k. lookup k (or_else input.env_variables [])) w.db)
              (server_created input.id input.type input) (ServerRows.create s encoded input)
              (rw (server_create encoded input w.db e)
                (laws.create_new row (or_else input.env_variables []) w.db e fresh once)))

-- ===== src/Servers/Service/Proxies.antt =====
-- What creating, updating and deleting a reverse proxy does.
use minikura.Common.{
  String, true, false, Option, none, some, [], ◌∷◌, ◌==◌, ◌≡◌, refl, lookup, or_else, ok, thrown,
  is_some,
}
use minikura.Domain.Errors.{DomainError, Thrown}
use minikura.Domain.Handler.{error_handler}
use minikura.Servers.Entities.{ReverseProxyServer, velocity}
use minikura.Servers.Inputs.{ReverseProxyCreateInput, ReverseProxyUpdateInput}
use minikura.Servers.Store.{Store, IsStore, Leaves, env, row_set, vars_set, joined, distinct}
use minikura.Servers.Repository.ApiKeys.{generate_reverse_proxy_api_key}
use minikura.Servers.Repository.ProxyRows
use minikura.Servers.Repository.ProxyRows.{set_proxy}
use minikura.Servers.Service.Given.{IsUpdatedProxy, set_proxy-IsUpdatedProxy}
use minikura.Servers.Crud.{World, announce}
use minikura.Servers.Crud.Laws.{
  Does, notify-Does, create_taken, create_fresh, update_throws, delete_throws,
}
use minikura.Servers.Service.ProxyCalls.{
  ReverseProxyEvent, proxy_created, proxy_updated, proxy_deleted, proxy_events, proxy_repository,
  create_reverse_proxy, update_reverse_proxy, delete_reverse_proxy,
}

abbrev name : String
name = "ReverseProxyServer"

module _ (s : Store ReverseProxyServer) (laws : IsStore (λ r. r.id) (λ r. r.api_key) s) where
  proxy_exists :
      (id : String) (t : s.State) → ProxyRows.exists s id t ≡ (ok (is_some (s.find_unique id t)), t)
  unfolding ProxyRows.exists
  proxy_exists id t = refl

  proxy_create :
      (encoded : String) (input : ReverseProxyCreateInput) (t : s.State)
      → s.find_unique input.id t ≡ none
      → ProxyRows.create s encoded input t
        ≡ s.create
            (ProxyRows.new_row input (generate_reverse_proxy_api_key encoded))
            (or_else input.env_variables [])
            t
  unfolding ProxyRows.create
  proxy_create encoded input t e = rw (e, ProxyRows.create) refl

  -- What `create_reverse_proxy` owes, by the proxy that already has the id.
  abbrev pub CreatesProxy :
      String
      → ReverseProxyCreateInput
      → World s.State ReverseProxyEvent
      → Option ReverseProxyServer
      → Type 0
  CreatesProxy encoded input w (some r) =
      create_reverse_proxy s encoded input w
      ≡ (thrown (Thrown.domain (DomainError.conflict name (some input.id))), w)
  CreatesProxy encoded input w none =
      let row = ProxyRows.new_row input (generate_reverse_proxy_api_key encoded) in
      Does s w (create_reverse_proxy s encoded input w) (joined s input.id row)
        (row_set s input.id (some row) w.db)
        (vars_set s input.id (λ k. lookup k (or_else input.env_variables [])) w.db)
        (proxy_created input.id (or_else input.type velocity) input ∷ [])

  -- For a key that no reverse proxy has and no variable given twice: creating a proxy under an id
  -- that is taken is a conflict and changes nothing. Under a free id it comes through: it returns
  -- the new row with its variables, of the type velocity if none is given, the table then has
  -- this row and these variables and all the others as before, and the one event published tells
  -- of the creation.
  pub create_reverse_proxy_lem :
      (encoded : String) (input : ReverseProxyCreateInput) (w : World s.State ReverseProxyEvent)
      → ((j : String) (q : ReverseProxyServer)
          → s.find_unique j w.db ≡ some q
          → (q.api_key == generate_reverse_proxy_api_key encoded) ≡ false)
      → distinct (or_else input.env_variables []) ≡ true
      → CreatesProxy encoded input w (s.find_unique input.id w.db)
  unfolding create_reverse_proxy
  create_reverse_proxy_lem encoded input w fresh once = go (s.find_unique input.id w.db) refl
    where
      go :
          (o : Option ReverseProxyServer)
          → s.find_unique input.id w.db ≡ o
          → CreatesProxy encoded input w o
      go (some r) e =
          create_taken (proxy_repository s) proxy_events name (λ i. or_else i.type velocity)
            (λ i. i.id) encoded input w (rw (proxy_exists input.id w.db) (rw e refl))
      go none e =
          let row : ReverseProxyServer =
            ProxyRows.new_row input (generate_reverse_proxy_api_key encoded) in
          rw
            (create_fresh (proxy_repository s) proxy_events name (λ i. or_else i.type velocity)
              (λ i. i.id) encoded input w (rw (proxy_exists input.id w.db) (rw e refl)))
            (notify-Does s w (joined s input.id row) (row_set s input.id (some row) w.db)
              (vars_set s input.id (λ k. lookup k (or_else input.env_variables [])) w.db)
              (proxy_created input.id (or_else input.type velocity) input)
              (ProxyRows.create s encoded input)
              (rw (proxy_create encoded input w.db e)
                (laws.create_new row (or_else input.env_variables []) w.db e fresh once)))

  update_missing :
      (id : String) (input : ReverseProxyUpdateInput) (t : s.State)
      → s.find_unique id t ≡ none
      → ProxyRows.update s id input t
        ≡ (thrown (Thrown.domain (DomainError.not_found name (some id))), t)
  unfolding ProxyRows.update
  update_missing id input t e = rw (e, ProxyRows.update) refl

  update_Leaves :
      (id : String) (input : ReverseProxyUpdateInput) (t : s.State) (r : ReverseProxyServer)
      → s.find_unique id t ≡ some r
      → Leaves s
          (ProxyRows.update s id input t)
          (joined s id (set_proxy input r))
          (row_set s id (some (set_proxy input r)) t)
          (λ j k. env s j k t)
  unfolding ProxyRows.update
  update_Leaves id input t r e =
      rw (e, ProxyRows.update) (laws.update_found id (set_proxy input) t r e refl refl)

  -- What an update and a deletion owe, by the proxy that has the id.
  abbrev pub ChangesProxy :
      String
      → ReverseProxyUpdateInput
      → World s.State ReverseProxyEvent
      → Option ReverseProxyServer
      → Type 0
  ChangesProxy id input w none =
      (update_reverse_proxy s id input w
        ≡ (thrown (Thrown.domain (DomainError.not_found name (some id))), w))
      × ((e : Thrown) × (delete_reverse_proxy s id w ≡ (thrown e, w))
          × ((error_handler e).status ≡ 500))
  ChangesProxy id input w (some r) =
      ((new : ReverseProxyServer) × IsUpdatedProxy input r new
        × Does s w (update_reverse_proxy s id input w) (joined s id new)
            (row_set s id (some new) w.db) (λ j k. env s j k w.db) (proxy_updated id input ∷ []))
      × Does s w (delete_reverse_proxy s id w) (λ _. tt) (row_set s id none w.db)
          (vars_set s id (λ _. none) w.db) (proxy_deleted id ∷ [])

  -- Updating a reverse proxy that is there sets the fields that the input has, keeps its key, its
  -- id and the fields that the input leaves out, and touches no variable; deleting it removes it
  -- with its variables. Either leaves all others alone and publishes the one event that tells of
  -- it. Of a proxy that is not there, an update throws a NotFoundError, and a deletion an error
  -- whose answer has status 500; neither changes or publishes anything.
  pub change_reverse_proxy_lem :
      (id : String) (input : ReverseProxyUpdateInput) (w : World s.State ReverseProxyEvent)
      → ChangesProxy id input w (s.find_unique id w.db)
  unfolding update_reverse_proxy delete_reverse_proxy ProxyRows.delete error_handler announce
  change_reverse_proxy_lem id input w = go (s.find_unique id w.db) refl
    where
      go : (o : Option ReverseProxyServer) → s.find_unique id w.db ≡ o → ChangesProxy id input w o
      go none e =
          let (text, refused) = laws.delete_missing id w.db e in
          (
            update_throws (proxy_repository s) proxy_events name (λ i. or_else i.type velocity)
                (λ i. i.id) id input w (Thrown.domain (DomainError.not_found name (some id)))
                (update_missing id input w.db e),
            (
              Thrown.error "PrismaClientKnownRequestError" text,
              delete_throws (proxy_repository s) proxy_events name (λ i. or_else i.type velocity)
                  (λ i. i.id) id w (Thrown.error "PrismaClientKnownRequestError" text) refused,
              refl,
            ),
          )
      go (some r) e = (
        (
          set_proxy input r,
          set_proxy-IsUpdatedProxy input r,
          notify-Does s w (joined s id (set_proxy input r))
              (row_set s id (some (set_proxy input r)) w.db) (λ j k. env s j k w.db)
              (proxy_updated id input) (ProxyRows.update s id input)
              (update_Leaves id input w.db r e),
        ),
        notify-Does s w (λ _. tt) (row_set s id none w.db) (vars_set s id (λ _. none) w.db)
            (proxy_deleted id) (ProxyRows.delete s id) (laws.delete_found id w.db r e),
      )

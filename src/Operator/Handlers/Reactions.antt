-- ===== src/Operator/Handlers/Reactions.antt =====
-- What the handlers of a server's events leave behind.
use minikura.Common.{
  ℕ, String, Bool, true, false, not, ◌&&◌, Option, none, some, ◌++◌, ◌+++◌, ◌≡◌, ◌∙◌, refl, ok,
  eq_refl, map, filter, contains,
}
use minikura.Events.Sockets.{Message, Sockets}
use minikura.Events.Sockets.Laws.{broadcast_reaches}
use minikura.Operator.Names.{operator_resource_name}
use minikura.Operator.Cluster.{Cluster, IsCluster, minecraft_servers}
use minikura.Operator.Specs.{Spec, ServerSpec, server_spec, Settings, SyncedServer}
use minikura.Operator.Specs.Described.{Describes}
use minikura.Operator.Sync.{sync_server_by_id, sync_server}
use minikura.Operator.Sync.Outcomes.{secret_name, sync_server_lem}
use minikura.Operator.Sync.Removal.{delete_server_resource_lem}
use minikura.Operator.Handlers.{World, on_server_event}
use minikura.Servers.Entities.{ReverseProxyServer, WithEnvVars}
use minikura.Servers.Inputs.{ServerUpdateInput}
use minikura.Servers.Store.{distinct}
use minikura.Servers.Service.ServerCalls.{server_updated, server_deleted}

-- Each client got the message in order, except those whose send failed, and only these are clients
-- no longer.
abbrev pub Told : (String → Bool) → ℕ → String → String → Sockets → Sockets → Type 0
Told fails now action id before after =
    let m : Message = record {
      action = action;
      server_type = "server";
      server_id = id;
      timestamp = now;
    } in
    (after.sent ≡ before.sent ++ map (λ c. (c, m)) (filter (λ c. not (fails c)) before.clients))
    × ((c : String) → contains c after.clients ≡ (contains c before.clients && not (fails c)))

module _ (c : Cluster Spec) (laws : IsCluster c) (settings : Settings) (fails : String → Bool)
    (now : ℕ) (servers : String → Option SyncedServer)
    (proxies : String → Option (WithEnvVars ReverseProxyServer)) where
  by_id :
      (s : SyncedServer) (id : String) (t : c.State)
      → servers id ≡ some s
      → sync_server_by_id c settings true (servers id) t ≡ sync_server c settings s t
  unfolding sync_server_by_id
  by_id s id t found = rw found refl

  -- On a cluster that is reached, the handler of an update of a server that the database has, with
  -- a valid id and no variable twice, comes through, if the server's resource is not being deleted:
  -- each socket got the message, except those whose send failed, which are clients no longer; the
  -- cluster has the resource that the server's row and plugins describe, and the secret that this
  -- refers to holds the server's key. The handler of a deletion comes through as well: the sockets
  -- were told in the same way, the secret is gone, and the resource is gone or marked for deletion.
  pub on_server_event_lem :
      (w : World c) (s : SyncedServer) (input : ServerUpdateInput)
      → servers s.server.row.id ≡ some s
      → operator_resource_name s.server.row.id ≡ ok s.server.row.id
      → distinct s.server.env_variables ≡ true
      → c.deleting minecraft_servers s.server.row.id w.cluster ≡ false
      → let id = s.server.row.id in
        let (r, w') =
          on_server_event c settings true fails now servers proxies (server_updated id input) w in
        let (r', w'') =
          on_server_event c settings true fails now servers proxies (server_deleted id) w in
        ((r ≡ ok tt)
          × Told fails now "UPDATE" id w.sockets w'.sockets
          × ((spec : ServerSpec) × Describes settings s spec
              × (c.object minecraft_servers id w'.cluster
                  ≡ some (record { name = id; database_id = id; spec = server_spec spec }))
              × (c.secret spec.api_key_secret_ref w'.cluster
                  ≡ some (record { database_id = id; api_key = s.server.row.api_key }))))
        × ((r' ≡ ok tt)
            × Told fails now "DELETE" id w.sockets w''.sockets
            × (c.object minecraft_servers id w''.cluster ≡ none)
            × (c.secret ("mc-" +++ id +++ "-api-key") w''.cluster ≡ none))
  unfolding on_server_event
  on_server_event_lem w s input found valid once here =
      let id = s.server.row.id in
      let name = secret_name minecraft_servers id in
      let (spec, describes, (came, _, objects), live) =
        sync_server_lem c laws settings w.cluster s valid once here in
      let (gone, secrets', objects') =
        delete_server_resource_lem c laws settings w.cluster id valid in
      (
        (
          rw (by_id s id w.cluster found) came,
          broadcast_reaches fails now "UPDATE" "server" id w.sockets,
          (
            spec,
            describes,
            rw (by_id s id w.cluster found) (objects minecraft_servers id ∙ rw (eq_refl id) refl),
            rw (by_id s id w.cluster found) live,
          ),
        ),
        (
          gone,
          broadcast_reaches fails now "DELETE" "server" id w.sockets,
          objects' minecraft_servers id ∙ rw (eq_refl id) refl,
          secrets' name ∙ rw (eq_refl name) refl,
        ),
      )

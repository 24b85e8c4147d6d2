-- ===== src/Servers/Routes/Actions.antt =====
-- The routes of servers that reach the cluster's pods, the connection information and the sockets
-- (apps/backend/src/routes/servers.ts, apps/backend/src/services/k8s.ts).
use minikura.Common.{
  String, Bool, true, false, not, Option, none, some, List, [], ◌∷◌, ◌+++◌, Settled, ok, thrown,
  settle, ◌>>=◌, ◌>>◌, pure, throw_if, if◌then◌else◌,
}
use minikura.Domain.Errors.{Thrown, Action}
use minikura.Operator.Names.{operator_resource_name}
use minikura.Events.Sockets.{Sockets, add_client, remove_client}
use minikura.Users.Guards.{AuthContext, require_auth}
use minikura.Servers.Entities.{Server}
use minikura.Servers.Inputs.{no_server_changes}
use minikura.Servers.PluginKeys.{Owner, OwnerKind, same_kind, find_api_key_owner}
use minikura.Servers.Store.{Store}
use minikura.Servers.Service.ServerCalls
use minikura.Servers.Service.ServerCalls.{ServerWorld}
use minikura.Servers.Routes.Admission.{admit}

-- The pods of the cluster: those that are listed, of these the ones that are not marked for
-- deletion, those that a label selects, and the deletion of one.
pub record Pods : Type 1 where
  pub State : Type 0
  pub has : String → State → Bool
  pub runs : String → State → Bool
  pub by_label : String → State → Settled Thrown (List String)
  pub delete : String → Action State (Unit {0})

pub record World (s : Store Server) (p : Pods) : Type 0 where
  pub servers : ServerWorld s
  pub pods : p.State

abbrev pub first_thrown :
    Settled Thrown (Unit {0}) → Settled Thrown (Unit {0}) → Settled Thrown (Unit {0})
first_thrown (ok _) later = later
first_thrown (thrown e) later = thrown e

module _ (s : Store Server) (p : Pods) where
  abbrev pub in_servers : {A : Type 0} → Action (ServerWorld s) A → Action (World s p) A
  in_servers m w = let (r, t) = m w.servers in (r, record w { servers = t })

  abbrev pub in_pods : {A : Type 0} → Action p.State A → Action (World s p) A
  in_pods m w = let (r, t) = m w.pods in (r, record w { pods = t })

  -- `initialized` says whether the client of the cluster is there.
  module _ (initialized : Bool) where
    abbrev pub ensure_initialized : Action p.State (Unit {0})
    ensure_initialized =
        throw_if (not initialized) (Thrown.error "Error" "Kubernetes client not initialized")

    abbrev pub get_pods_by_label : String → Action p.State (List String)
    get_pods_by_label label = ensure_initialized >> λ t. (p.by_label label t, t)

    abbrev pub restart_pod : String → Action p.State (Unit {0})
    restart_pod name = ensure_initialized >> p.delete name

    -- `Promise.all(pods.map((pod) => k8sService.restartPod(pod.name)))`
    unfoldable pub restart_pods : List String → Action p.State (Unit {0})
    restart_pods [] t = (ok tt, t)
    restart_pods (name ∷ names) t =
        let (r, t1) = restart_pod name t in
        let (later, t2) = restart_pods names t1 in (first_thrown r later, t2)

    abbrev pub restart_running : String → Action (World s p) (Unit {0})
    unfolding operator_resource_name
    restart_running id = settle (operator_resource_name id) >>= λ name.
        in_pods (get_pods_by_label ("minikura.kirameki.cafe/server-id=" +++ name)) >>= λ names.
        in_pods (restart_pods names)

    abbrev pub start_stopped : String → Action (World s p) (Unit {0})
    unfolding ServerCalls.update_server
    start_stopped id =
        in_servers
          (ServerCalls.update_server s id (record no_server_changes { running = some true }))
        >>= λ server. pure tt

    unfoldable pub restart : AuthContext → String → Action (World s p) (Unit {0})
    unfolding admit ServerCalls.get_server_by_id restart_running start_stopped
    restart ctx id =
        admit ctx
        >> (in_servers (ServerCalls.get_server_by_id s id false) >>= λ server.
            if not server.row.running then start_stopped id else restart_running id)

module _ (s : Store Server) where
  -- Any user whom `requireAuth` admits is told; `connection_info` is the cluster's part.
  unfoldable pub get_connection_info :
      {Info : Type 0}
      → (String → Settled Thrown Info)
      → AuthContext
      → String
      → Action (ServerWorld s) Info
  unfolding require_auth ServerCalls.get_connection_info
  get_connection_info connection_info ctx id =
      settle (require_auth ctx) >>= λ user. ServerCalls.get_connection_info s connection_info id

-- The socket of a proxy's plugin: `key` is its bearer token. A client that is refused is closed.
module _ (server_of proxy_of : String → Option String) where
  abbrev is_proxy : Option Owner → Bool
  is_proxy none = false
  is_proxy (some owner) = same_kind owner.kind OwnerKind.reverse_proxy

  unfoldable pub open_socket : String → String → Sockets → Bool × Sockets
  unfolding find_api_key_owner add_client
  open_socket key client sockets =
      if not (is_proxy (find_api_key_owner server_of proxy_of key))
      then (false, sockets)
      else (true, add_client client sockets)

unfoldable pub close_socket : String → Sockets → Sockets
unfolding remove_client
close_socket client sockets = remove_client client sockets

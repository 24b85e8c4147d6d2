-- ===== src/Servers/Routes/PluginRoutes.antt =====
-- The routes of the plugins in reverse proxies (apps/backend/src/routes/plugin.ts). The ids that the
-- two tables have for a key are arguments, as for the guard, and so is the environment's namespace.
use minikura.Common.{
  String, true, Option, none, some, List, [], ◌∷◌, ◌+++◌, Settled, ok, thrown, settle, ◌>>=◌, pure,
  filled,
}
use minikura.Domain.Errors.{Thrown, Action}
use minikura.Operator.Names.{operator_resource_name}
use minikura.Servers.Entities.{Server, ReverseProxyServer, WithEnvVars}
use minikura.Servers.PluginKeys.{OwnerKind, require_plugin_kind}
use minikura.Servers.Store.{Store}
use minikura.Servers.Service.ServerCalls
use minikura.Servers.Service.ServerCalls.{ServerWorld}
use minikura.Servers.Service.ProxyCalls
use minikura.Servers.Service.ProxyCalls.{ProxyWorld}

-- `{ ...server, connection_address }`
pub record ConnectedServer : Type 0 where
  pub server : WithEnvVars Server
  pub connection_address : String

abbrev pub namespace_of : Option String → String
namespace_of none = "minikura"
namespace_of (some namespace) = namespace

abbrev pub address : String → String → String
address namespace name = "minecraft-" +++ name +++ "." +++ namespace +++ ".svc.cluster.local"

abbrev pub connected :
    String → WithEnvVars Server → Settled Thrown String → Settled Thrown ConnectedServer
connected namespace server (thrown e) = thrown e
connected namespace server (ok name) =
    ok (record { server = server; connection_address = address namespace name })

abbrev pub collect :
    Settled Thrown ConnectedServer
    → Settled Thrown (List ConnectedServer)
    → Settled Thrown (List ConnectedServer)
collect (thrown e) later = thrown e
collect (ok c) (thrown e) = thrown e
collect (ok c) (ok cs) = ok (c ∷ cs)

-- The map over the servers: the first id that is no name of a resource makes it throw.
unfoldable pub connect_all :
    String → List (WithEnvVars Server) → Settled Thrown (List ConnectedServer)
unfolding operator_resource_name
connect_all namespace [] = ok []
connect_all namespace (server ∷ servers) =
    collect (connected namespace server (operator_resource_name server.row.id))
      (connect_all namespace servers)

module _ (server_of proxy_of : String → Option String) where
  unfoldable pub get_servers :
      (s : Store Server) → Option String → String → Action (ServerWorld s) (List ConnectedServer)
  unfolding require_plugin_kind ServerCalls.get_all_servers connect_all
  get_servers s namespace key =
      settle (require_plugin_kind server_of proxy_of OwnerKind.reverse_proxy key) >>= λ owner.
      ServerCalls.get_all_servers s true >>= λ servers.
      settle (connect_all (namespace_of (filled namespace)) servers)

  unfoldable pub get_reverse_proxy :
      (s : Store ReverseProxyServer)
      → String
      → Action (ProxyWorld s) (List (WithEnvVars ReverseProxyServer))
  unfolding require_plugin_kind ProxyCalls.get_reverse_proxy_by_id
  get_reverse_proxy s key =
      settle (require_plugin_kind server_of proxy_of OwnerKind.reverse_proxy key) >>= λ owner.
      ProxyCalls.get_reverse_proxy_by_id s owner.id true >>= λ proxy. pure (proxy ∷ [])

-- ===== src/Operator/Handlers.antt =====
-- What follows an event of a server or a reverse proxy: the open sockets are told, and the cluster
-- is synchronized (apps/backend/src/infrastructure/event-handlers/server-event.handler.ts,
-- reverse-proxy-event.handler.ts beside it). The rows that the database has at that time are an
-- argument.
pub mod Reactions
mod Tests
use minikura.Common.{ℕ, String, Bool, Option, Call, ◌>>◌, modify}
use minikura.Events.Sockets.{Sockets, broadcast}
use minikura.Operator.Cluster.{Raised, Cluster}
use minikura.Operator.Specs.{Spec, Settings, SyncedServer}
use minikura.Operator.Sync.{
  sync_server_by_id, sync_reverse_proxy_by_id, delete_server, delete_reverse_proxy,
}
use minikura.Servers.Entities.{
  ServerType, stateful, stateless, ReverseProxyType, velocity, bungeecord, ReverseProxyServer,
  WithEnvVars,
}
use minikura.Servers.Service.ServerCalls.{
  ServerEvent, server_created, server_updated, server_deleted,
}
use minikura.Servers.Service.ProxyCalls.{
  ReverseProxyEvent, proxy_created, proxy_updated, proxy_deleted,
}

-- The values of the two enumerations, as they are sent.
abbrev pub server_type_text : ServerType → String
server_type_text stateful = "STATEFUL"
server_type_text stateless = "STATELESS"

abbrev pub proxy_type_text : ReverseProxyType → String
proxy_type_text velocity = "VELOCITY"
proxy_type_text bungeecord = "BUNGEECORD"

pub record World (c : Cluster Spec) : Type 0 where
  pub sockets : Sockets
  pub cluster : c.State

module _ (c : Cluster Spec) (settings : Settings) (connected : Bool) (fails : String → Bool)
    (now : ℕ) (servers : String → Option SyncedServer)
    (proxies : String → Option (WithEnvVars ReverseProxyServer)) where
  abbrev Reaction : Type 0
  Reaction = Call Raised (World c) (Unit {0})

  abbrev tell_all : String → String → String → Reaction
  tell_all action kind id =
      modify (λ w. record w { sockets = broadcast fails now action kind id w.sockets })

  abbrev on_cluster : Call Raised c.State (Unit {0}) → Reaction
  on_cluster m w = let (r, t) = m w.cluster in (r, record w { cluster = t })

  unfoldable pub on_server_event : ServerEvent → Reaction
  unfolding broadcast sync_server_by_id delete_server
  on_server_event (server_created id kind input) = do
    tell_all "CREATE" (server_type_text kind) id
    on_cluster (sync_server_by_id c settings connected (servers id))
  on_server_event (server_updated id input) = do
    tell_all "UPDATE" "server" id
    on_cluster (sync_server_by_id c settings connected (servers id))
  on_server_event (server_deleted id) = do
    tell_all "DELETE" "server" id
    on_cluster (delete_server c settings connected id)

  unfoldable pub on_proxy_event : ReverseProxyEvent → Reaction
  unfolding broadcast sync_reverse_proxy_by_id delete_reverse_proxy
  on_proxy_event (proxy_created id kind input) = do
    tell_all "CREATE" (proxy_type_text kind) id
    on_cluster (sync_reverse_proxy_by_id c settings connected (proxies id))
  on_proxy_event (proxy_updated id input) = do
    tell_all "UPDATE" "reverse-proxy" id
    on_cluster (sync_reverse_proxy_by_id c settings connected (proxies id))
  on_proxy_event (proxy_deleted id) = do
    tell_all "DELETE" "reverse-proxy" id
    on_cluster (delete_reverse_proxy c settings connected id)

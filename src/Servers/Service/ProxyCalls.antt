-- ===== src/Servers/Service/ProxyCalls.antt =====
-- The service of reverse proxies
-- (apps/backend/src/application/services/reverse-proxy.service.ts; events in
-- apps/backend/src/domain/events/reverse-proxy-lifecycle.events.ts).
use minikura.Common.{String, Bool, false, List, Settled, ◌>>=◌, ◌>>◌, ◌+++◌, or_else}
use minikura.Domain.Errors.{Thrown, Action}
use minikura.Operator.Names.{operator_resource_name}
use minikura.Servers.Entities.{
  ReverseProxyServer, EnvVariable, WithEnvVars, ReverseProxyType, velocity, bungeecord,
}
use minikura.Servers.Inputs.{ReverseProxyCreateInput, ReverseProxyUpdateInput, no_proxy_changes}
use minikura.Servers.Store.{Store}
use minikura.Servers.Crud
use minikura.Servers.Crud.{Repository, Events, World}
use minikura.Servers.Repository.ProxyRows

pub data ReverseProxyEvent : Type 0 where
  proxy_created : String → ReverseProxyType → ReverseProxyCreateInput → ReverseProxyEvent
  proxy_updated : String → ReverseProxyUpdateInput → ReverseProxyEvent
  proxy_deleted : String → ReverseProxyEvent

abbrev pub proxy_events :
    Events ReverseProxyEvent ReverseProxyType ReverseProxyCreateInput ReverseProxyUpdateInput
proxy_events = record { created = proxy_created; updated = proxy_updated; deleted = proxy_deleted }

abbrev get_entity_type : ReverseProxyCreateInput → ReverseProxyType
get_entity_type input = or_else input.type velocity

abbrev get_input_id : ReverseProxyCreateInput → String
get_input_id input = input.id

-- `String(proxy.type).toLowerCase()`
abbrev pub lower_type : ReverseProxyType → String
lower_type velocity = "velocity"
lower_type bungeecord = "bungeecord"

module _ (s : Store ReverseProxyServer) where
  abbrev pub proxy_repository :
      Repository s.State
        (WithEnvVars ReverseProxyServer)
        ReverseProxyCreateInput
        ReverseProxyUpdateInput
  proxy_repository = record {
    find_all = ProxyRows.find_all s;
    find_by_id = ProxyRows.find_by_id s;
    exists = ProxyRows.exists s;
    create = ProxyRows.create s;
    update = ProxyRows.update s;
    delete = ProxyRows.delete s;
    set_env_variable = ProxyRows.set_env_variable s;
    get_env_variables = ProxyRows.get_env_variables s;
    delete_env_variable = ProxyRows.delete_env_variable s;
  }

  abbrev pub ProxyWorld : Type 0
  ProxyWorld = World s.State ReverseProxyEvent

  unfoldable pub get_all_reverse_proxies :
      Bool → Action ProxyWorld (List (WithEnvVars ReverseProxyServer))
  unfolding Crud.get_all
  get_all_reverse_proxies =
      Crud.get_all proxy_repository proxy_events "ReverseProxyServer" get_entity_type get_input_id

  unfoldable pub get_reverse_proxy_by_id :
      String → Bool → Action ProxyWorld (WithEnvVars ReverseProxyServer)
  unfolding Crud.get_by_id
  get_reverse_proxy_by_id =
      Crud.get_by_id proxy_repository proxy_events "ReverseProxyServer" get_entity_type get_input_id

  unfoldable pub create_reverse_proxy :
      String → ReverseProxyCreateInput → Action ProxyWorld (WithEnvVars ReverseProxyServer)
  unfolding Crud.create
  create_reverse_proxy =
      Crud.create proxy_repository proxy_events "ReverseProxyServer" get_entity_type get_input_id

  unfoldable pub update_reverse_proxy :
      String → ReverseProxyUpdateInput → Action ProxyWorld (WithEnvVars ReverseProxyServer)
  unfolding Crud.update
  update_reverse_proxy =
      Crud.update proxy_repository proxy_events "ReverseProxyServer" get_entity_type get_input_id

  unfoldable pub delete_reverse_proxy : String → Action ProxyWorld (Unit {0})
  unfolding Crud.delete
  delete_reverse_proxy =
      Crud.delete proxy_repository proxy_events "ReverseProxyServer" get_entity_type get_input_id

  unfoldable pub get_env_variables : String → Action ProxyWorld (List EnvVariable)
  unfolding Crud.get_env_variables
  get_env_variables =
      Crud.get_env_variables proxy_repository proxy_events "ReverseProxyServer" get_entity_type
        get_input_id

  unfoldable pub set_env_variable : String → String → String → Action ProxyWorld (Unit {0})
  unfolding Crud.set_env_variable Crud.publish
  set_env_variable id key value = do
    Crud.set_env_variable proxy_repository proxy_events "ReverseProxyServer" get_entity_type
        get_input_id id key value
    Crud.publish (proxy_updated id no_proxy_changes)

  unfoldable pub delete_env_variable : String → String → Action ProxyWorld (Unit {0})
  unfolding Crud.delete_env_variable Crud.publish
  delete_env_variable id key = do
    Crud.delete_env_variable proxy_repository proxy_events "ReverseProxyServer" get_entity_type
        get_input_id id key
    Crud.publish (proxy_updated id no_proxy_changes)

  -- `connection_info` is the cluster's part of the call, and what it throws.
  unfoldable pub get_connection_info :
      {Info : Type 0} → (String → Settled Thrown Info) → String → Action ProxyWorld Info
  unfolding get_reverse_proxy_by_id operator_resource_name
  get_connection_info connection_info id = do
    proxy ← get_reverse_proxy_by_id id false
    name ← λ w. (operator_resource_name id, w)
    λ w. (connection_info (lower_type proxy.row.type +++ "-" +++ name), w)

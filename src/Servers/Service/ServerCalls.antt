-- ===== src/Servers/Service/ServerCalls.antt =====
-- The service of servers (apps/backend/src/application/services/server.service.ts; events in
-- apps/backend/src/domain/events/server-lifecycle.events.ts).
use minikura.Common.{String, Bool, false, List, Settled, ◌>>=◌, ◌>>◌, ◌+++◌}
use minikura.Domain.Errors.{Thrown, Action}
use minikura.Operator.Names.{operator_resource_name}
use minikura.Servers.Entities.{Server, EnvVariable, WithEnvVars, ServerType}
use minikura.Servers.Inputs.{ServerCreateInput, ServerUpdateInput, no_server_changes}
use minikura.Servers.Store.{Store}
use minikura.Servers.Crud
use minikura.Servers.Crud.{Repository, Events, World}
use minikura.Servers.Repository.ServerRows

pub data ServerEvent : Type 0 where
  server_created : String → ServerType → ServerCreateInput → ServerEvent
  server_updated : String → ServerUpdateInput → ServerEvent
  server_deleted : String → ServerEvent

abbrev pub server_events : Events ServerEvent ServerType ServerCreateInput ServerUpdateInput
server_events = record {
  created = server_created;
  updated = server_updated;
  deleted = server_deleted;
}

abbrev get_entity_type : ServerCreateInput → ServerType
get_entity_type input = input.type

abbrev get_input_id : ServerCreateInput → String
get_input_id input = input.id

-- The call of the connected cluster that `get_connection_info` hands the service's name to.
module _ (s : Store Server) where
  abbrev pub server_repository :
      Repository s.State (WithEnvVars Server) ServerCreateInput ServerUpdateInput
  server_repository = record {
    find_all = ServerRows.find_all s;
    find_by_id = ServerRows.find_by_id s;
    exists = ServerRows.exists s;
    create = ServerRows.create s;
    update = ServerRows.update s;
    delete = ServerRows.delete s;
    set_env_variable = ServerRows.set_env_variable s;
    get_env_variables = ServerRows.get_env_variables s;
    delete_env_variable = ServerRows.delete_env_variable s;
  }

  abbrev pub ServerWorld : Type 0
  ServerWorld = World s.State ServerEvent

  unfoldable pub get_all_servers : Bool → Action ServerWorld (List (WithEnvVars Server))
  unfolding Crud.get_all
  get_all_servers =
      Crud.get_all server_repository server_events "Server" get_entity_type get_input_id

  unfoldable pub get_server_by_id : String → Bool → Action ServerWorld (WithEnvVars Server)
  unfolding Crud.get_by_id
  get_server_by_id =
      Crud.get_by_id server_repository server_events "Server" get_entity_type get_input_id

  unfoldable pub create_server :
      String → ServerCreateInput → Action ServerWorld (WithEnvVars Server)
  unfolding Crud.create
  create_server = Crud.create server_repository server_events "Server" get_entity_type get_input_id

  unfoldable pub update_server :
      String → ServerUpdateInput → Action ServerWorld (WithEnvVars Server)
  unfolding Crud.update
  update_server = Crud.update server_repository server_events "Server" get_entity_type get_input_id

  unfoldable pub delete_server : String → Action ServerWorld (Unit {0})
  unfolding Crud.delete
  delete_server = Crud.delete server_repository server_events "Server" get_entity_type get_input_id

  unfoldable pub get_env_variables : String → Action ServerWorld (List EnvVariable)
  unfolding Crud.get_env_variables
  get_env_variables =
      Crud.get_env_variables server_repository server_events "Server" get_entity_type get_input_id

  unfoldable pub set_env_variable : String → String → String → Action ServerWorld (Unit {0})
  unfolding Crud.set_env_variable Crud.publish
  set_env_variable id key value = do
    Crud.set_env_variable server_repository server_events "Server" get_entity_type get_input_id id
        key value
    Crud.publish (server_updated id no_server_changes)

  unfoldable pub delete_env_variable : String → String → Action ServerWorld (Unit {0})
  unfolding Crud.delete_env_variable Crud.publish
  delete_env_variable id key = do
    Crud.delete_env_variable server_repository server_events "Server" get_entity_type get_input_id
        id key
    Crud.publish (server_updated id no_server_changes)

  -- `connection_info` is the cluster's part of the call, and what it throws.
  unfoldable pub get_connection_info :
      {Info : Type 0} → (String → Settled Thrown Info) → String → Action ServerWorld Info
  unfolding get_server_by_id operator_resource_name
  get_connection_info connection_info id = do
    server ← get_server_by_id id false
    name ← λ w. (operator_resource_name id, w)
    λ w. (connection_info ("minecraft-" +++ name), w)

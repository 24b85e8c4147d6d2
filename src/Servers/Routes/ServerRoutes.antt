-- ===== src/Servers/Routes/ServerRoutes.antt =====
-- The routes of servers (apps/backend/src/routes/servers.ts). What the schema makes of a body is an
-- argument, a throw or the validated input.
use minikura.Common.{settle, String, Bool, some, List, Settled, ◌>>=◌, ◌>>◌}
use minikura.Domain.Errors.{Thrown, Action}
use minikura.Users.Guards.{AuthContext, require_auth}
use minikura.Servers.Entities.{Server, EnvVariable, WithEnvVars}
use minikura.Servers.Inputs.{ServerCreateInput, ServerUpdateInput, no_server_changes}
use minikura.Servers.Store.{Store}
use minikura.Servers.Service.ServerCalls
use minikura.Servers.Service.ServerCalls.{ServerWorld}
use minikura.Servers.Routes.Admission.{admit, is_no_admin}

module _ (s : Store Server) where
  unfoldable pub get_all : AuthContext → Action (ServerWorld s) (List (WithEnvVars Server))
  unfolding require_auth ServerCalls.get_all_servers
  get_all ctx = do
    user ← settle (require_auth ctx)
    ServerCalls.get_all_servers s (is_no_admin user)

  unfoldable pub get : AuthContext → String → Action (ServerWorld s) (WithEnvVars Server)
  unfolding require_auth ServerCalls.get_server_by_id
  get ctx id = do
    user ← settle (require_auth ctx)
    ServerCalls.get_server_by_id s id (is_no_admin user)

  unfoldable pub post :
      AuthContext
      → String
      → Settled Thrown ServerCreateInput
      → Action (ServerWorld s) (WithEnvVars Server)
  unfolding admit ServerCalls.create_server
  post ctx encoded body = do
    admit ctx
    payload ← settle body
    ServerCalls.create_server s encoded payload

  unfoldable pub patch :
      AuthContext
      → String
      → Settled Thrown ServerUpdateInput
      → Action (ServerWorld s) (WithEnvVars Server)
  unfolding admit ServerCalls.update_server
  patch ctx id body = do admit ctx; payload ← settle body; ServerCalls.update_server s id payload

  unfoldable pub delete : AuthContext → String → Action (ServerWorld s) (Unit {0})
  unfolding admit ServerCalls.delete_server
  delete ctx id = do admit ctx; ServerCalls.delete_server s id

  unfoldable pub get_env : AuthContext → String → Action (ServerWorld s) (List EnvVariable)
  unfolding admit ServerCalls.get_env_variables
  get_env ctx id = do admit ctx; ServerCalls.get_env_variables s id

  unfoldable pub post_env :
      AuthContext → String → Settled Thrown EnvVariable → Action (ServerWorld s) (Unit {0})
  unfolding admit ServerCalls.set_env_variable
  post_env ctx id body = do
    admit ctx
    payload ← settle body
    ServerCalls.set_env_variable s id payload.0 payload.1

  unfoldable pub delete_env : AuthContext → String → String → Action (ServerWorld s) (Unit {0})
  unfolding admit ServerCalls.delete_env_variable
  delete_env ctx id key = do admit ctx; ServerCalls.delete_env_variable s id key

  -- The actions `start` and `stop`: `running` is the state to go to.
  unfoldable pub switch : Bool → AuthContext → String → Action (ServerWorld s) (WithEnvVars Server)
  unfolding admit ServerCalls.update_server
  switch running ctx id = do
    admit ctx
    ServerCalls.update_server s id (record no_server_changes { running = some running })

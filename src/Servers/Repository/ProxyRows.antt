-- ===== src/Servers/Repository/ProxyRows.antt =====
-- The repository of reverse proxies
-- (apps/backend/src/infrastructure/repositories/prisma/reverse-proxy.repository.impl.ts).
use minikura.Common.{
  String, Bool, Option, some, List, [], or_else, ◌>>=◌, ◌>>◌, gets, throw_if, or_throw,
}
use minikura.Domain.Errors.{Action}
use minikura.Servers.Entities.{
  ReverseProxyServer, EnvVariable, WithEnvVars, velocity, load_balancer,
}
use minikura.Servers.Inputs.{
  ReverseProxyCreateInput, ReverseProxyUpdateInput, to_option, set_nullable, set_field, set_option,
}
use minikura.Servers.Store.{Store}
use minikura.Servers.Repository.Rows
use minikura.Servers.Repository.ApiKeys.{generate_reverse_proxy_api_key}

abbrev pub without_key : ReverseProxyServer → ReverseProxyServer
without_key r = record r { api_key = "" }

-- The row that `create` writes.
abbrev pub new_row : ReverseProxyCreateInput → String → ReverseProxyServer
new_row input token = record {
  id = input.id;
  type = or_else input.type velocity;
  description = to_option input.description;
  external_address = input.external_address;
  external_port = input.external_port;
  listen_port = or_else input.listen_port 25565;
  memory = or_else input.memory 512;
  cpu_request = some (or_else input.cpu_request "250m");
  cpu_limit = some (or_else input.cpu_limit "500m");
  service_type = or_else input.service_type load_balancer;
  node_port = to_option input.node_port;
  api_key = token;
}

-- The data of an update.
abbrev pub set_proxy : ReverseProxyUpdateInput → ReverseProxyServer → ReverseProxyServer
set_proxy input r = record r {
  type = set_field input.type r.type;
  description = set_nullable input.description r.description;
  external_address = set_field input.external_address r.external_address;
  external_port = set_field input.external_port r.external_port;
  listen_port = set_field input.listen_port r.listen_port;
  memory = set_field input.memory r.memory;
  cpu_request = set_option input.cpu_request r.cpu_request;
  cpu_limit = set_option input.cpu_limit r.cpu_limit;
  service_type = set_field input.service_type r.service_type;
  node_port = set_nullable input.node_port r.node_port;
}

module _ (s : Store ReverseProxyServer) where
  unfoldable pub find_by_id :
      String → Bool → Action s.State (Option (WithEnvVars ReverseProxyServer))
  unfolding Rows.find_by_id
  find_by_id = Rows.find_by_id s "ReverseProxyServer" without_key

  unfoldable pub find_all : Bool → Action s.State (List (WithEnvVars ReverseProxyServer))
  unfolding Rows.find_all
  find_all = Rows.find_all s "ReverseProxyServer" without_key (λ r. r.id)

  unfoldable pub exists : String → Action s.State Bool
  unfolding Rows.exists
  exists = Rows.exists s "ReverseProxyServer" without_key

  unfoldable pub create :
      String → ReverseProxyCreateInput → Action s.State (WithEnvVars ReverseProxyServer)
  unfolding exists generate_reverse_proxy_api_key
  create encoded input = do
    existing ← exists input.id
    throw_if existing (Rows.taken s "ReverseProxyServer" without_key input.id)
    s.create (new_row input (generate_reverse_proxy_api_key encoded))
        (or_else input.env_variables [])

  unfoldable pub update :
      String → ReverseProxyUpdateInput → Action s.State (WithEnvVars ReverseProxyServer)
  update id input = do
    row ← gets (s.find_unique id)
    r ← or_throw row (Rows.missing s "ReverseProxyServer" without_key id)
    s.update id (set_proxy input)

  unfoldable pub delete : String → Action s.State (Unit {0})
  unfolding Rows.delete
  delete = Rows.delete s "ReverseProxyServer" without_key

  unfoldable pub set_env_variable : String → String → String → Action s.State (Unit {0})
  unfolding Rows.set_env_variable
  set_env_variable = Rows.set_env_variable s "ReverseProxyServer" without_key

  unfoldable pub get_env_variables : String → Action s.State (List EnvVariable)
  unfolding Rows.get_env_variables
  get_env_variables = Rows.get_env_variables s "ReverseProxyServer" without_key

  unfoldable pub delete_env_variable : String → String → Action s.State (Unit {0})
  unfolding Rows.delete_env_variable
  delete_env_variable = Rows.delete_env_variable s "ReverseProxyServer" without_key

  unfoldable pub replace_env_variables : String → List EnvVariable → Action s.State (Unit {0})
  unfolding Rows.replace_env_variables
  replace_env_variables = Rows.replace_env_variables s "ReverseProxyServer" without_key

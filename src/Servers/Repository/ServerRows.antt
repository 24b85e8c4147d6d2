-- ===== src/Servers/Repository/ServerRows.antt =====
-- The repository of servers
-- (apps/backend/src/infrastructure/repositories/prisma/server.repository.impl.ts).
use minikura.Common.{
  String, Bool, true, false, Option, none, some, List, [], or_else, ◌>>=◌, ◌>>◌, gets, pure,
  throw_if, or_throw,
}
use minikura.Domain.Errors.{Action}
use minikura.Servers.Entities.{
  Server, EnvVariable, WithEnvVars, cluster_ip, vanilla, easy, survival,
}
use minikura.Servers.Inputs.{
  ServerCreateInput, ServerUpdateInput, to_option, set_nullable, set_field, set_option,
}
use minikura.Servers.Store.{Store}
use minikura.Servers.Repository.Rows
use minikura.Servers.Repository.ApiKeys.{generate_server_api_key}

abbrev pub without_key : Server → Server
without_key r = record r { api_key = "" }

-- The row that `create` writes.
abbrev pub new_row : ServerCreateInput → String → Server
new_row input token = record {
  id = input.id;
  type = input.type;
  description = to_option input.description;
  listen_port = input.listen_port;
  memory = or_else input.memory 2048;
  memory_request = or_else input.memory_request 1024;
  cpu_request = some (or_else input.cpu_request "500m");
  cpu_limit = some (or_else input.cpu_limit "2");
  service_type = or_else input.service_type cluster_ip;
  node_port = to_option input.node_port;
  api_key = token;
  running = or_else input.running true;
  jar_type = or_else input.jar_type vanilla;
  minecraft_version = or_else input.minecraft_version "LATEST";
  jvm_opts = input.jvm_opts;
  use_aikar_flags = or_else input.use_aikar_flags false;
  use_meowice_flags = or_else input.use_meowice_flags false;
  difficulty = or_else input.difficulty easy;
  game_mode = or_else input.game_mode survival;
  max_players = or_else input.max_players 20;
  pvp = or_else input.pvp true;
  online_mode = or_else input.online_mode true;
  motd = input.motd;
  level_seed = input.level_seed;
  level_type = input.level_type;
}

-- The data of an update.
abbrev pub set_server : ServerUpdateInput → Server → Server
set_server input r = record r {
  description = set_nullable input.description r.description;
  listen_port = set_field input.listen_port r.listen_port;
  memory = set_field input.memory r.memory;
  memory_request = set_field input.memory_request r.memory_request;
  cpu_request = set_option input.cpu_request r.cpu_request;
  cpu_limit = set_option input.cpu_limit r.cpu_limit;
  service_type = set_field input.service_type r.service_type;
  node_port = set_nullable input.node_port r.node_port;
  running = set_field input.running r.running;
  jar_type = set_field input.jar_type r.jar_type;
  minecraft_version = set_field input.minecraft_version r.minecraft_version;
  jvm_opts = set_option input.jvm_opts r.jvm_opts;
  use_aikar_flags = set_field input.use_aikar_flags r.use_aikar_flags;
  use_meowice_flags = set_field input.use_meowice_flags r.use_meowice_flags;
  difficulty = set_field input.difficulty r.difficulty;
  game_mode = set_field input.game_mode r.game_mode;
  max_players = set_field input.max_players r.max_players;
  pvp = set_field input.pvp r.pvp;
  online_mode = set_field input.online_mode r.online_mode;
  motd = set_option input.motd r.motd;
  level_seed = set_option input.level_seed r.level_seed;
  level_type = set_option input.level_type r.level_type;
}

module _ (s : Store Server) where
  unfoldable pub find_by_id : String → Bool → Action s.State (Option (WithEnvVars Server))
  unfolding Rows.find_by_id
  find_by_id = Rows.find_by_id s "Server" without_key

  unfoldable pub find_all : Bool → Action s.State (List (WithEnvVars Server))
  unfolding Rows.find_all
  find_all = Rows.find_all s "Server" without_key (λ r. r.id)

  unfoldable pub exists : String → Action s.State Bool
  unfolding Rows.exists
  exists = Rows.exists s "Server" without_key

  unfoldable pub create : String → ServerCreateInput → Action s.State (WithEnvVars Server)
  unfolding exists generate_server_api_key
  create encoded input = do
    existing ← exists input.id
    throw_if existing (Rows.taken s "Server" without_key input.id)
    s.create (new_row input (generate_server_api_key encoded)) (or_else input.env_variables [])

  unfoldable pub delete : String → Action s.State (Unit {0})
  unfolding Rows.delete
  delete = Rows.delete s "Server" without_key

  unfoldable pub set_env_variable : String → String → String → Action s.State (Unit {0})
  unfolding Rows.set_env_variable
  set_env_variable = Rows.set_env_variable s "Server" without_key

  unfoldable pub get_env_variables : String → Action s.State (List EnvVariable)
  unfolding Rows.get_env_variables
  get_env_variables = Rows.get_env_variables s "Server" without_key

  unfoldable pub delete_env_variable : String → String → Action s.State (Unit {0})
  unfolding Rows.delete_env_variable
  delete_env_variable = Rows.delete_env_variable s "Server" without_key

  unfoldable pub replace_env_variables : String → List EnvVariable → Action s.State (Unit {0})
  unfolding Rows.replace_env_variables
  replace_env_variables = Rows.replace_env_variables s "Server" without_key

  -- `if (input.env_variables !== undefined) …`
  abbrev pub replace_given : String → Option (List EnvVariable) → Action s.State (Unit {0})
  replace_given id none = pure tt
  replace_given id (some vs) = replace_env_variables id vs

  unfoldable pub update : String → ServerUpdateInput → Action s.State (WithEnvVars Server)
  unfolding replace_env_variables
  update id input = do
    row ← gets (s.find_unique id)
    r ← or_throw row (Rows.missing s "Server" without_key id)
    replace_given id input.env_variables
    s.update id (set_server input)

-- ===== src/Web/ServerForm/State.antt =====
-- The state that the form begins with (apps/web/components/server-form.tsx).
use minikura.Common.{String, true, false, Option, none, some, [], if◌then◌else◌, or_text}
use minikura.Servers.Entities.{ServiceType, GameMode, ServerDifficulty}
use minikura.Web.ServerForm.{ServerFormData, FormType, is_custom}
use minikura.Web.ServerForm.Initial.{or_default}

abbrev start_version : FormType → Option String → String
start_version type version = if is_custom type then "" else or_default version "LATEST"

-- The state of the form before anything is changed: with nothing to begin with, and with the data
-- of a server.
abbrev pub blank_form : ServerFormData
blank_form = record {
  id = "";
  description = "";
  memory_limit = "2048";
  memory_request = "1024";
  cpu_request = "500m";
  cpu_limit = "2";
  type = FormType.paper;
  version = some "LATEST";
  custom_jar_url = some "";
  eula = true;
  listen_port = "25565";
  service_type = ServiceType.cluster_ip;
  node_port = none;
  motd = none;
  difficulty = ServerDifficulty.easy;
  mode = GameMode.survival;
  max_players = "20";
  pvp = true;
  online_mode = true;
  allow_flight = false;
  enable_command_block = false;
  spawn_protection = "16";
  view_distance = "10";
  simulation_distance = "10";
  level_name = "world";
  level_seed = none;
  level_type = none;
  generator_settings = none;
  hardcore = false;
  spawn_animals = true;
  spawn_monsters = true;
  spawn_npcs = true;
  enable_whitelist = false;
  whitelist = none;
  whitelist_file = none;
  ops = none;
  ops_file = none;
  use_aikar_flags = false;
  use_meowice_flags = false;
  jvm_opts = none;
  jvm_xx_opts = none;
  jvm_dd_opts = none;
  resource_pack = none;
  resource_pack_sha1 = none;
  resource_pack_enforce = false;
  enable_rcon = true;
  rcon_password = none;
  rcon_port = "25575";
  rcon_cmds_startup = none;
  rcon_cmds_on_connect = none;
  rcon_cmds_first_connect = none;
  rcon_cmds_on_disconnect = none;
  rcon_cmds_last_disconnect = none;
  enable_query = false;
  query_port = "25565";
  enable_autopause = false;
  autopause_timeout_est = "3600";
  autopause_timeout_init = "600";
  autopause_timeout_kn = "120";
  autopause_period = "10";
  autopause_knock_interface = "eth0";
  enable_autostop = false;
  autostop_timeout_est = "3600";
  autostop_timeout_init = "1800";
  autostop_period = "10";
  plugins = none;
  registry_artifact_ids = [];
  remove_old_plugins = false;
  spiget_resources = none;
  paper_build = none;
  timezone = "UTC";
  uid = "1000";
  gid = "1000";
  enable_jmx = false;
  stop_duration = "60";
  server_icon = none;
  env_vars = [];
}

unfoldable pub server_form : Option ServerFormData → ServerFormData
server_form none = blank_form
server_form (some d) = record {
  id = d.id;
  description = d.description;
  memory_limit = or_text d.memory_limit "2048";
  memory_request = or_text d.memory_request "1024";
  cpu_request = or_text d.cpu_request "500m";
  cpu_limit = or_text d.cpu_limit "2";
  type = d.type;
  version = some (start_version d.type d.version);
  custom_jar_url = some (or_default d.custom_jar_url "");
  eula = d.eula;
  listen_port = or_text d.listen_port "25565";
  service_type = d.service_type;
  node_port = none;
  motd = none;
  difficulty = d.difficulty;
  mode = d.mode;
  max_players = or_text d.max_players "20";
  pvp = d.pvp;
  online_mode = d.online_mode;
  allow_flight = d.allow_flight;
  enable_command_block = d.enable_command_block;
  spawn_protection = or_text d.spawn_protection "16";
  view_distance = or_text d.view_distance "10";
  simulation_distance = or_text d.simulation_distance "10";
  level_name = or_text d.level_name "world";
  level_seed = none;
  level_type = none;
  generator_settings = none;
  hardcore = d.hardcore;
  spawn_animals = d.spawn_animals;
  spawn_monsters = d.spawn_monsters;
  spawn_npcs = d.spawn_npcs;
  enable_whitelist = d.enable_whitelist;
  whitelist = none;
  whitelist_file = none;
  ops = none;
  ops_file = none;
  use_aikar_flags = d.use_aikar_flags;
  use_meowice_flags = d.use_meowice_flags;
  jvm_opts = none;
  jvm_xx_opts = none;
  jvm_dd_opts = none;
  resource_pack = none;
  resource_pack_sha1 = none;
  resource_pack_enforce = d.resource_pack_enforce;
  enable_rcon = d.enable_rcon;
  rcon_password = none;
  rcon_port = or_text d.rcon_port "25575";
  rcon_cmds_startup = none;
  rcon_cmds_on_connect = none;
  rcon_cmds_first_connect = none;
  rcon_cmds_on_disconnect = none;
  rcon_cmds_last_disconnect = none;
  enable_query = d.enable_query;
  query_port = or_text d.query_port "25565";
  enable_autopause = d.enable_autopause;
  autopause_timeout_est = or_text d.autopause_timeout_est "3600";
  autopause_timeout_init = or_text d.autopause_timeout_init "600";
  autopause_timeout_kn = or_text d.autopause_timeout_kn "120";
  autopause_period = or_text d.autopause_period "10";
  autopause_knock_interface = or_text d.autopause_knock_interface "eth0";
  enable_autostop = d.enable_autostop;
  autostop_timeout_est = or_text d.autostop_timeout_est "3600";
  autostop_timeout_init = or_text d.autostop_timeout_init "1800";
  autostop_period = or_text d.autostop_period "10";
  plugins = none;
  registry_artifact_ids = d.registry_artifact_ids;
  remove_old_plugins = d.remove_old_plugins;
  spiget_resources = none;
  paper_build = none;
  timezone = or_text d.timezone "UTC";
  uid = or_text d.uid "1000";
  gid = or_text d.gid "1000";
  enable_jmx = d.enable_jmx;
  stop_duration = or_text d.stop_duration "60";
  server_icon = none;
  env_vars = d.env_vars;
}

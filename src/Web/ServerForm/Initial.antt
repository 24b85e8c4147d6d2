-- ===== src/Web/ServerForm/Initial.antt =====
-- What the form shows of a server that is edited (apps/web/lib/server-form/mappings.ts). How the
-- language writes a number is an argument.
use minikura.Common.{
  ℕ, String, Bool, false, not, ◌||◌, Option, none, some, List, [], ◌∷◌, ◌==◌, leb, if◌then◌else◌,
  filled, or_text, lookup,
}
use minikura.Servers.Entities.{EnvVariable, Server, WithEnvVars}
use minikura.Web.ServerForm.{
  ServerFormData, normalize_difficulty, normalize_mode, normalize_server_type, to_api_difficulty,
  to_api_mode, jar_text, first_filled,
}
use minikura.Web.ServerForm.Environment.{Entries, assign_all, filter_custom_environment_variables}

-- `Object.fromEntries(variables)`
abbrev pub of_entries : List EnvVariable → Entries
of_entries [] = []
of_entries ((key, value) ∷ variables) = (key, some value) ∷ of_entries variables

abbrev pub environment_of : List EnvVariable → List EnvVariable
environment_of variables = assign_all (of_entries variables) []

-- `value || fallback`
abbrev pub or_default : Option String → String → String
or_default none fallback = fallback
or_default (some s) fallback = or_text s fallback

-- `value === text`
abbrev pub says : String → Option String → Bool
says text none = false
says text (some s) = s == text

-- `value ? value === "true" : stored`
abbrev pub given_or : Option String → Bool → Bool
given_or none stored = stored
given_or (some s) stored = s == "true"

abbrev set_port : Option ℕ → Option ℕ
set_port none = none
set_port (some port) = if leb port 0 then none else some port

abbrev map_port : (ℕ → String) → Option ℕ → Option String
map_port text none = none
map_port text (some port) = some (text port)

-- The registry artifacts are no part of it: none. `normalizeServiceType` keeps each service type.
module _ (text : ℕ → String) where
  abbrev initial_data : Server → (String → Option String) → WithEnvVars Server → ServerFormData
  initial_data row variable server = record {
    id = row.id;
    description = or_default row.description "";
    memory_limit = text (if leb row.memory 0 then 2048 else row.memory);
    memory_request = text row.memory_request;
    cpu_request = or_default row.cpu_request "500m";
    cpu_limit = or_default row.cpu_limit "2";
    type = normalize_server_type (or_default (variable "TYPE") (jar_text row.jar_type));
    version = some (or_default (variable "VERSION") row.minecraft_version);
    custom_jar_url = filled (variable "CUSTOM_SERVER");
    eula = says "true" (variable "EULA");
    listen_port = text (if leb row.listen_port 0 then 25565 else row.listen_port);
    service_type = row.service_type;
    node_port = map_port text (set_port row.node_port);
    motd = first_filled (variable "MOTD") row.motd;
    difficulty =
        normalize_difficulty
          (or_default (variable "DIFFICULTY") (to_api_difficulty row.difficulty));
    mode = normalize_mode (or_default (variable "MODE") (to_api_mode row.game_mode));
    max_players =
        or_default (variable "MAX_PLAYERS")
          (text (if leb row.max_players 0 then 20 else row.max_players));
    pvp = given_or (filled (variable "PVP")) row.pvp;
    online_mode = given_or (filled (variable "ONLINE_MODE")) row.online_mode;
    allow_flight = says "true" (variable "ALLOW_FLIGHT");
    enable_command_block = says "true" (variable "ENABLE_COMMAND_BLOCK");
    spawn_protection = or_default (variable "SPAWN_PROTECTION") "16";
    view_distance = or_default (variable "VIEW_DISTANCE") "10";
    simulation_distance = or_default (variable "SIMULATION_DISTANCE") "10";
    level_name = or_default (variable "LEVEL") "world";
    level_seed = first_filled (variable "SEED") row.level_seed;
    level_type = first_filled (variable "LEVEL_TYPE") row.level_type;
    generator_settings = filled (variable "GENERATOR_SETTINGS");
    hardcore = says "true" (variable "HARDCORE");
    spawn_animals = not (says "false" (variable "SPAWN_ANIMALS"));
    spawn_monsters = not (says "false" (variable "SPAWN_MONSTERS"));
    spawn_npcs = not (says "false" (variable "SPAWN_NPCS"));
    enable_whitelist = says "true" (variable "ENABLE_WHITELIST");
    whitelist = filled (variable "WHITELIST");
    whitelist_file = filled (variable "WHITELIST_FILE");
    ops = filled (variable "OPS");
    ops_file = filled (variable "OPS_FILE");
    use_aikar_flags = says "true" (variable "USE_AIKAR_FLAGS") || row.use_aikar_flags;
    use_meowice_flags = says "true" (variable "USE_MEOWICE_FLAGS") || row.use_meowice_flags;
    jvm_opts = first_filled (variable "JVM_OPTS") row.jvm_opts;
    jvm_xx_opts = filled (variable "JVM_XX_OPTS");
    jvm_dd_opts = filled (variable "JVM_DD_OPTS");
    resource_pack = filled (variable "RESOURCE_PACK");
    resource_pack_sha1 = filled (variable "RESOURCE_PACK_SHA1");
    resource_pack_enforce = says "true" (variable "RESOURCE_PACK_ENFORCE");
    enable_rcon = not (says "false" (variable "ENABLE_RCON"));
    rcon_password = filled (variable "RCON_PASSWORD");
    rcon_port = or_default (variable "RCON_PORT") "25575";
    rcon_cmds_startup = filled (variable "RCON_CMDS_STARTUP");
    rcon_cmds_on_connect = filled (variable "RCON_CMDS_ON_CONNECT");
    rcon_cmds_first_connect = filled (variable "RCON_CMDS_FIRST_CONNECT");
    rcon_cmds_on_disconnect = filled (variable "RCON_CMDS_ON_DISCONNECT");
    rcon_cmds_last_disconnect = filled (variable "RCON_CMDS_LAST_DISCONNECT");
    enable_query = says "true" (variable "ENABLE_QUERY");
    query_port = or_default (variable "QUERY_PORT") "25565";
    enable_autopause = says "true" (variable "ENABLE_AUTOPAUSE");
    autopause_timeout_est = or_default (variable "AUTOPAUSE_TIMEOUT_EST") "3600";
    autopause_timeout_init = or_default (variable "AUTOPAUSE_TIMEOUT_INIT") "600";
    autopause_timeout_kn = or_default (variable "AUTOPAUSE_TIMEOUT_KN") "120";
    autopause_period = or_default (variable "AUTOPAUSE_PERIOD") "10";
    autopause_knock_interface = or_default (variable "AUTOPAUSE_KNOCK_INTERFACE") "eth0";
    enable_autostop = says "true" (variable "ENABLE_AUTOSTOP");
    autostop_timeout_est = or_default (variable "AUTOSTOP_TIMEOUT_EST") "3600";
    autostop_timeout_init = or_default (variable "AUTOSTOP_TIMEOUT_INIT") "1800";
    autostop_period = or_default (variable "AUTOSTOP_PERIOD") "10";
    plugins = filled (variable "PLUGINS");
    registry_artifact_ids = [];
    remove_old_plugins = says "true" (variable "REMOVE_OLD_PLUGINS");
    spiget_resources = filled (variable "SPIGET_RESOURCES");
    paper_build = filled (variable "PAPER_BUILD");
    timezone = or_default (variable "TZ") "UTC";
    uid = or_default (variable "UID") "1000";
    gid = or_default (variable "GID") "1000";
    enable_jmx = says "true" (variable "ENABLE_JMX");
    stop_duration = or_default (variable "STOP_DURATION") "60";
    server_icon = filled (variable "ICON");
    env_vars = filter_custom_environment_variables server.env_variables;
  }

  unfoldable pub to_initial_server_form_data : WithEnvVars Server → ServerFormData
  unfolding normalize_difficulty normalize_mode normalize_server_type
      filter_custom_environment_variables
  to_initial_server_form_data server =
      initial_data server.row (λ key. lookup key (environment_of server.env_variables)) server

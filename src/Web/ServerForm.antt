-- ===== src/Web/ServerForm.antt =====
-- The form of a server in the web application and its texts
-- (apps/web/lib/server-form/mappings.ts, apps/web/components/server-form/types.ts).
pub mod Environment
pub mod Request
pub mod Initial
pub mod State
pub mod Lookups
pub mod Sent
pub mod Forgotten
pub mod Reloaded
pub mod Kept
mod Tests
use minikura.Common.{
  ℕ, String, Bool, true, false, Option, none, some, List, [], ◌∷◌, ◌==◌, if◌then◌else◌, lower,
  filled,
}
use minikura.Servers.Entities.{
  EnvVariable, ServiceType, GameMode, ServerDifficulty, MinecraftJarType,
}

pub data FormType : Type 0 where
  vanilla paper spigot purpur fabric custom : FormType

-- The form writes a difficulty and a mode in small letters, the API in capitals. The ids by which
-- the form tells its custom variables apart are left out.
pub record ServerFormData : Type 0 where
  pub id : String
  pub description : String
  pub memory_limit : String
  pub memory_request : String
  pub cpu_request : String
  pub cpu_limit : String
  pub type : FormType
  pub version : Option String
  pub custom_jar_url : Option String
  pub eula : Bool
  pub listen_port : String
  pub service_type : ServiceType
  pub node_port : Option String
  pub motd : Option String
  pub difficulty : ServerDifficulty
  pub mode : GameMode
  pub max_players : String
  pub pvp : Bool
  pub online_mode : Bool
  pub allow_flight : Bool
  pub enable_command_block : Bool
  pub spawn_protection : String
  pub view_distance : String
  pub simulation_distance : String
  pub level_name : String
  pub level_seed : Option String
  pub level_type : Option String
  pub generator_settings : Option String
  pub hardcore : Bool
  pub spawn_animals : Bool
  pub spawn_monsters : Bool
  pub spawn_npcs : Bool
  pub enable_whitelist : Bool
  pub whitelist : Option String
  pub whitelist_file : Option String
  pub ops : Option String
  pub ops_file : Option String
  pub use_aikar_flags : Bool
  pub use_meowice_flags : Bool
  pub jvm_opts : Option String
  pub jvm_xx_opts : Option String
  pub jvm_dd_opts : Option String
  pub resource_pack : Option String
  pub resource_pack_sha1 : Option String
  pub resource_pack_enforce : Bool
  pub enable_rcon : Bool
  pub rcon_password : Option String
  pub rcon_port : String
  pub rcon_cmds_startup : Option String
  pub rcon_cmds_on_connect : Option String
  pub rcon_cmds_first_connect : Option String
  pub rcon_cmds_on_disconnect : Option String
  pub rcon_cmds_last_disconnect : Option String
  pub enable_query : Bool
  pub query_port : String
  pub enable_autopause : Bool
  pub autopause_timeout_est : String
  pub autopause_timeout_init : String
  pub autopause_timeout_kn : String
  pub autopause_period : String
  pub autopause_knock_interface : String
  pub enable_autostop : Bool
  pub autostop_timeout_est : String
  pub autostop_timeout_init : String
  pub autostop_period : String
  pub plugins : Option String
  pub registry_artifact_ids : List String
  pub remove_old_plugins : Bool
  pub spiget_resources : Option String
  pub paper_build : Option String
  pub timezone : String
  pub uid : String
  pub gid : String
  pub enable_jmx : Bool
  pub stop_duration : String
  pub server_icon : Option String
  pub env_vars : List EnvVariable

abbrev pub managed_environment_keys : List String
managed_environment_keys =
    "EULA" ∷ "TYPE" ∷ "VERSION" ∷ "CUSTOM_SERVER" ∷ "MOTD" ∷ "DIFFICULTY" ∷ "MODE" ∷ "MAX_PLAYERS"
    ∷ "PVP" ∷ "ONLINE_MODE" ∷ "ALLOW_FLIGHT" ∷ "ENABLE_COMMAND_BLOCK" ∷ "SPAWN_PROTECTION"
    ∷ "VIEW_DISTANCE" ∷ "SIMULATION_DISTANCE" ∷ "LEVEL" ∷ "SEED" ∷ "LEVEL_TYPE"
    ∷ "GENERATOR_SETTINGS" ∷ "HARDCORE" ∷ "SPAWN_ANIMALS" ∷ "SPAWN_MONSTERS" ∷ "SPAWN_NPCS"
    ∷ "ENABLE_WHITELIST" ∷ "WHITELIST" ∷ "WHITELIST_FILE" ∷ "OPS" ∷ "OPS_FILE" ∷ "USE_AIKAR_FLAGS"
    ∷ "USE_MEOWICE_FLAGS" ∷ "JVM_OPTS" ∷ "JVM_XX_OPTS" ∷ "JVM_DD_OPTS" ∷ "ENABLE_JMX"
    ∷ "RESOURCE_PACK" ∷ "RESOURCE_PACK_SHA1" ∷ "RESOURCE_PACK_ENFORCE" ∷ "ENABLE_RCON"
    ∷ "RCON_PASSWORD" ∷ "RCON_PORT" ∷ "RCON_CMDS_STARTUP" ∷ "RCON_CMDS_ON_CONNECT"
    ∷ "RCON_CMDS_FIRST_CONNECT" ∷ "RCON_CMDS_ON_DISCONNECT" ∷ "RCON_CMDS_LAST_DISCONNECT"
    ∷ "ENABLE_QUERY" ∷ "QUERY_PORT" ∷ "ENABLE_AUTOPAUSE" ∷ "AUTOPAUSE_TIMEOUT_EST"
    ∷ "AUTOPAUSE_TIMEOUT_INIT" ∷ "AUTOPAUSE_TIMEOUT_KN" ∷ "AUTOPAUSE_PERIOD"
    ∷ "AUTOPAUSE_KNOCK_INTERFACE" ∷ "ENABLE_AUTOSTOP" ∷ "AUTOSTOP_TIMEOUT_EST"
    ∷ "AUTOSTOP_TIMEOUT_INIT" ∷ "AUTOSTOP_PERIOD" ∷ "PLUGINS" ∷ "REMOVE_OLD_PLUGINS"
    ∷ "SPIGET_RESOURCES" ∷ "PAPER_BUILD" ∷ "TZ" ∷ "UID" ∷ "GID" ∷ "STOP_DURATION" ∷ "ICON" ∷ []

abbrev pub text_of_type : FormType → String
text_of_type FormType.vanilla = "VANILLA"
text_of_type FormType.paper = "PAPER"
text_of_type FormType.spigot = "SPIGOT"
text_of_type FormType.purpur = "PURPUR"
text_of_type FormType.fabric = "FABRIC"
text_of_type FormType.custom = "CUSTOM"

abbrev pub difficulty_of : String → ServerDifficulty
difficulty_of normalized =
    if normalized == "peaceful"
    then ServerDifficulty.peaceful
    else if normalized == "easy"
    then ServerDifficulty.easy
    else if normalized == "normal"
    then ServerDifficulty.normal
    else if normalized == "hard"
    then ServerDifficulty.hard
    else ServerDifficulty.easy

unfoldable pub normalize_difficulty : String → ServerDifficulty
unfolding lower
normalize_difficulty value = difficulty_of (lower value)

abbrev pub mode_of : String → GameMode
mode_of normalized =
    if normalized == "survival"
    then GameMode.survival
    else if normalized == "creative"
    then GameMode.creative
    else if normalized == "adventure"
    then GameMode.adventure
    else if normalized == "spectator"
    then GameMode.spectator
    else GameMode.survival

unfoldable pub normalize_mode : String → GameMode
unfolding lower
normalize_mode value = mode_of (lower value)

unfoldable pub normalize_server_type : String → FormType
normalize_server_type value =
    if value == "VANILLA"
    then FormType.vanilla
    else if value == "PAPER"
    then FormType.paper
    else if value == "SPIGOT"
    then FormType.spigot
    else if value == "PURPUR"
    then FormType.purpur
    else if value == "FABRIC"
    then FormType.fabric
    else if value == "CUSTOM"
    then FormType.custom
    else FormType.paper

abbrev pub to_api_difficulty : ServerDifficulty → String
to_api_difficulty ServerDifficulty.peaceful = "PEACEFUL"
to_api_difficulty ServerDifficulty.easy = "EASY"
to_api_difficulty ServerDifficulty.normal = "NORMAL"
to_api_difficulty ServerDifficulty.hard = "HARD"

abbrev pub to_api_mode : GameMode → String
to_api_mode GameMode.survival = "SURVIVAL"
to_api_mode GameMode.creative = "CREATIVE"
to_api_mode GameMode.adventure = "ADVENTURE"
to_api_mode GameMode.spectator = "SPECTATOR"

abbrev pub jar_text : MinecraftJarType → String
jar_text MinecraftJarType.vanilla = "VANILLA"
jar_text MinecraftJarType.paper = "PAPER"
jar_text MinecraftJarType.spigot = "SPIGOT"
jar_text MinecraftJarType.purpur = "PURPUR"
jar_text MinecraftJarType.fabric = "FABRIC"
jar_text MinecraftJarType.forge = "FORGE"
jar_text MinecraftJarType.folia = "FOLIA"

abbrev pub is_custom : FormType → Bool
is_custom FormType.custom = true
is_custom _ = false

-- `a || b || undefined`
abbrev pub first_filled : Option String → Option String → Option String
first_filled a b = or_filled (filled a) (filled b)
  where
    or_filled : Option String → Option String → Option String
    or_filled none b = b
    or_filled (some s) b = some s

-- A text that is not empty.
abbrev pub nonempty : String → Option String
nonempty s = filled (some s)

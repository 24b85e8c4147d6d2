-- ===== src/Servers/Inputs.antt =====
-- What the validated requests hold (apps/backend/src/schemas/server.schema.ts).
use minikura.Common.{ℕ, String, Bool, Option, none, some, List}
use minikura.Servers.Entities.{
  EnvVariable, ServerType, ReverseProxyType, ServiceType, GameMode, ServerDifficulty,
  MinecraftJarType,
}

-- An optional field whose value may also be `null`.
pub data Nullable (A : Type 0) : Type 0 where
  undefined null : Nullable A
  given : A → Nullable A

module _ {A : Type 0} where
  -- `value ?? null`
  abbrev pub to_option : Nullable A → Option A
  to_option undefined = none
  to_option null = none
  to_option (given a) = some a

  -- A field of an update's data: what is undefined is left as it is.
  abbrev pub set_nullable : Nullable A → Option A → Option A
  set_nullable undefined old = old
  set_nullable null old = none
  set_nullable (given a) old = some a

  abbrev pub set_field : Option A → A → A
  set_field none old = old
  set_field (some a) old = a

  abbrev pub set_option : Option A → Option A → Option A
  set_option none old = old
  set_option (some a) old = some a

pub record ServerCreateInput : Type 0 where
  pub id : String
  pub description : Nullable String
  pub listen_port : ℕ
  pub type : ServerType
  pub service_type : Option ServiceType
  pub node_port : Nullable ℕ
  pub env_variables : Option (List EnvVariable)
  pub memory : Option ℕ
  pub memory_request : Option ℕ
  pub cpu_request : Option String
  pub cpu_limit : Option String
  pub jar_type : Option MinecraftJarType
  pub minecraft_version : Option String
  pub jvm_opts : Option String
  pub use_aikar_flags : Option Bool
  pub use_meowice_flags : Option Bool
  pub difficulty : Option ServerDifficulty
  pub game_mode : Option GameMode
  pub max_players : Option ℕ
  pub pvp : Option Bool
  pub online_mode : Option Bool
  pub motd : Option String
  pub level_seed : Option String
  pub level_type : Option String
  pub running : Option Bool

pub record ServerUpdateInput : Type 0 where
  pub description : Nullable String
  pub listen_port : Option ℕ
  pub service_type : Option ServiceType
  pub node_port : Nullable ℕ
  pub env_variables : Option (List EnvVariable)
  pub memory : Option ℕ
  pub memory_request : Option ℕ
  pub cpu_request : Option String
  pub cpu_limit : Option String
  pub jar_type : Option MinecraftJarType
  pub minecraft_version : Option String
  pub jvm_opts : Option String
  pub use_aikar_flags : Option Bool
  pub use_meowice_flags : Option Bool
  pub difficulty : Option ServerDifficulty
  pub game_mode : Option GameMode
  pub max_players : Option ℕ
  pub pvp : Option Bool
  pub online_mode : Option Bool
  pub motd : Option String
  pub level_seed : Option String
  pub level_type : Option String
  pub running : Option Bool

-- `{}`
abbrev pub no_server_changes : ServerUpdateInput
no_server_changes = record {
  description = undefined;
  listen_port = none;
  service_type = none;
  node_port = undefined;
  env_variables = none;
  memory = none;
  memory_request = none;
  cpu_request = none;
  cpu_limit = none;
  jar_type = none;
  minecraft_version = none;
  jvm_opts = none;
  use_aikar_flags = none;
  use_meowice_flags = none;
  difficulty = none;
  game_mode = none;
  max_players = none;
  pvp = none;
  online_mode = none;
  motd = none;
  level_seed = none;
  level_type = none;
  running = none;
}

pub record ReverseProxyCreateInput : Type 0 where
  pub id : String
  pub description : Nullable String
  pub external_address : String
  pub external_port : ℕ
  pub listen_port : Option ℕ
  pub type : Option ReverseProxyType
  pub service_type : Option ServiceType
  pub node_port : Nullable ℕ
  pub env_variables : Option (List EnvVariable)
  pub memory : Option ℕ
  pub cpu_request : Option String
  pub cpu_limit : Option String

pub record ReverseProxyUpdateInput : Type 0 where
  pub description : Nullable String
  pub external_address : Option String
  pub external_port : Option ℕ
  pub listen_port : Option ℕ
  pub type : Option ReverseProxyType
  pub service_type : Option ServiceType
  pub node_port : Nullable ℕ
  pub memory : Option ℕ
  pub cpu_request : Option String
  pub cpu_limit : Option String

-- `{}`
abbrev pub no_proxy_changes : ReverseProxyUpdateInput
no_proxy_changes = record {
  description = undefined;
  external_address = none;
  external_port = none;
  listen_port = none;
  type = none;
  service_type = none;
  node_port = undefined;
  memory = none;
  cpu_request = none;
  cpu_limit = none;
}

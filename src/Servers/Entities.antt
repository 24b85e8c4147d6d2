-- ===== src/Servers/Entities.antt =====
-- The stored entities (packages/db/prisma/schema.prisma and
-- apps/backend/src/domain/entities/enums.ts). The time stamps of a row, which the code only
-- stores, are left out.
use minikura.Common.{ℕ, String, Bool, Option, List}

pub data ServerType : Type 0 where
  stateful stateless : ServerType

pub data ReverseProxyType : Type 0 where
  velocity bungeecord : ReverseProxyType

pub data ServiceType : Type 0 where
  cluster_ip node_port load_balancer : ServiceType

pub data GameMode : Type 0 where
  survival creative adventure spectator : GameMode

pub data ServerDifficulty : Type 0 where
  peaceful easy normal hard : ServerDifficulty

pub data MinecraftJarType : Type 0 where
  vanilla paper spigot purpur fabric forge folia : MinecraftJarType

-- A key and its value.
abbrev pub EnvVariable : Type 0
EnvVariable = String × String

pub record Server : Type 0 where
  pub id : String
  pub type : ServerType
  pub description : Option String
  pub listen_port : ℕ
  pub memory : ℕ
  pub memory_request : ℕ
  pub cpu_request : Option String
  pub cpu_limit : Option String
  pub service_type : ServiceType
  pub node_port : Option ℕ
  pub api_key : String
  pub running : Bool
  pub jar_type : MinecraftJarType
  pub minecraft_version : String
  pub jvm_opts : Option String
  pub use_aikar_flags : Bool
  pub use_meowice_flags : Bool
  pub difficulty : ServerDifficulty
  pub game_mode : GameMode
  pub max_players : ℕ
  pub pvp : Bool
  pub online_mode : Bool
  pub motd : Option String
  pub level_seed : Option String
  pub level_type : Option String

pub record ReverseProxyServer : Type 0 where
  pub id : String
  pub type : ReverseProxyType
  pub description : Option String
  pub external_address : String
  pub external_port : ℕ
  pub listen_port : ℕ
  pub memory : ℕ
  pub cpu_request : Option String
  pub cpu_limit : Option String
  pub service_type : ServiceType
  pub node_port : Option ℕ
  pub api_key : String

-- `include: { env_variables: true }`
pub record WithEnvVars (Row : Type 0) : Type 0 where
  pub row : Row
  pub env_variables : List EnvVariable

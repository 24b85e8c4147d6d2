-- ===== src/Operator/Specs.antt =====
-- The specifications that the synchronization writes into the custom resources
-- (apps/backend/src/services/operator-resource-sync.ts), and the address of a plugin
-- (`artifactUrl` of apps/backend/src/services/plugin-registry.ts).
pub mod Environment
pub mod Described
use Prim.Native.Char.{code}
use Prim.Native.String.{String}
use minikura.Common.{
  ℕ, Bool, not, Option, none, some, List, [], ◌∷◌, ◌==◌, ◌+++◌, leb, ◌&&◌, filter, map, lookup,
  insert, if◌then◌else◌,
}
use minikura.Servers.Entities.{
  Server, ReverseProxyServer, WithEnvVars, EnvVariable, ServerType, ReverseProxyType, ServiceType,
  cluster_ip, node_port, load_balancer, velocity, bungeecord, GameMode, ServerDifficulty,
  MinecraftJarType,
}

pub record Resources : Type 0 where
  pub memory_limit : ℕ
  pub memory_request : ℕ
  pub cpu_request : Option String
  pub cpu_limit : Option String

pub record ServerSpec : Type 0 where
  pub type : ServerType
  pub running : Bool
  pub description : Option String
  pub listen_port : ℕ
  pub service_type : String
  pub node_port : Option ℕ
  pub jar_type : MinecraftJarType
  pub minecraft_version : String
  pub resources : Resources
  pub opts : Option String
  pub use_aikar_flags : Bool
  pub use_meow_ice_flags : Bool
  pub heap_percent : ℕ
  pub difficulty : ServerDifficulty
  pub game_mode : GameMode
  pub max_players : ℕ
  pub pvp : Bool
  pub online_mode : Bool
  pub motd : Option String
  pub level_seed : Option String
  pub level_type : Option String
  pub env : List EnvVariable
  pub api_key_secret_ref : String

pub record ProxySpec : Type 0 where
  pub type : ReverseProxyType
  pub description : Option String
  pub external_address : String
  pub external_port : ℕ
  pub listen_port : ℕ
  pub service_type : String
  pub node_port : Option ℕ
  pub resources : Resources
  pub heap_percent : ℕ
  pub env : List EnvVariable
  pub api_key_secret_ref : String
  pub backend_url : String
  pub plugin_url : Option String

pub data Spec : Type 0 where
  server_spec : ServerSpec → Spec
  proxy_spec : ProxySpec → Spec

-- What the process environment configures.
pub record Settings : Type 0 where
  pub backend_url : String
  pub velocity_plugin_url : Option String
  pub download_base_url : String

-- A server with its plugins: whether each is enabled, and its download token.
pub record SyncedServer : Type 0 where
  pub server : WithEnvVars Server
  pub plugins : List (Bool × String)

abbrev pub service_type : ServiceType → String
service_type cluster_ip = "ClusterIP"
service_type node_port = "NodePort"
service_type load_balancer = "LoadBalancer"

-- `.replace(/\/$/, "")`
unfoldable pub without_slash : String → String
without_slash String.[] = ""
without_slash (String.◌∷◌ c s) =
    if s == "" && leb (code c) b'/' && leb b'/' (code c) then "" else String.◌∷◌ c (without_slash s)

unfoldable pub artifact_url : String → String → String
unfolding without_slash
artifact_url base token = without_slash base +++ "/registry/artifacts/" +++ token +++ "/download"

-- `new Map(entries)`: an entry whose key is there replaces the value.
unfoldable pub insert_all : List EnvVariable → List EnvVariable → List EnvVariable
insert_all [] m = m
insert_all ((k, v) ∷ vs) m = insert_all vs (insert k v m)

abbrev pub enabled_urls : String → List (Bool × String) → List String
enabled_urls base plugins = map (λ p. artifact_url base p.1) (filter (λ p. p.0) plugins)

-- `[existing, ...urls].filter(Boolean)`
abbrev pub filled : Option String → List String → List String
filled none urls = filter (λ u. not (u == "")) urls
filled (some v) urls = filter (λ u. not (u == "")) (v ∷ urls)

-- `.join(",")`
abbrev pub join : List String → String
join [] = ""
join (u ∷ []) = u
join (u ∷ v ∷ us) = u +++ "," +++ join (v ∷ us)

abbrev pub with_plugins : List String → List EnvVariable → List EnvVariable
with_plugins [] m = m
with_plugins (u ∷ us) m = insert "PLUGINS" (join (filled (lookup "PLUGINS" m) (u ∷ us))) m

unfoldable pub server_environment : Settings → SyncedServer → List EnvVariable
unfolding insert_all
server_environment settings s =
    with_plugins (enabled_urls settings.download_base_url s.plugins)
      (insert_all s.server.env_variables [])

unfoldable pub server_spec_of : Settings → String → SyncedServer → ServerSpec
unfolding server_environment
server_spec_of settings secret_name s =
    let r : Server = s.server.row in
    record {
      type = r.type;
      running = r.running;
      description = r.description;
      listen_port = r.listen_port;
      service_type = service_type r.service_type;
      node_port = r.node_port;
      jar_type = r.jar_type;
      minecraft_version = r.minecraft_version;
      resources = record {
        memory_limit = r.memory;
        memory_request = r.memory_request;
        cpu_request = r.cpu_request;
        cpu_limit = r.cpu_limit;
      };
      opts = r.jvm_opts;
      use_aikar_flags = r.use_aikar_flags;
      use_meow_ice_flags = r.use_meowice_flags;
      heap_percent = 60;
      difficulty = r.difficulty;
      game_mode = r.game_mode;
      max_players = r.max_players;
      pvp = r.pvp;
      online_mode = r.online_mode;
      motd = r.motd;
      level_seed = r.level_seed;
      level_type = r.level_type;
      env = server_environment settings s;
      api_key_secret_ref = secret_name;
    }

abbrev pub plugin_url : Settings → ReverseProxyType → Option String
plugin_url settings velocity = settings.velocity_plugin_url
plugin_url settings bungeecord = none

unfoldable pub proxy_spec_of : Settings → String → WithEnvVars ReverseProxyServer → ProxySpec
proxy_spec_of settings secret_name p =
    let r : ReverseProxyServer = p.row in
    record {
      type = r.type;
      description = r.description;
      external_address = r.external_address;
      external_port = r.external_port;
      listen_port = r.listen_port;
      service_type = service_type r.service_type;
      node_port = r.node_port;
      resources = record {
        memory_limit = r.memory;
        memory_request = r.memory;
        cpu_request = r.cpu_request;
        cpu_limit = r.cpu_limit;
      };
      heap_percent = 80;
      env = p.env_variables;
      api_key_secret_ref = secret_name;
      backend_url = settings.backend_url;
      plugin_url = plugin_url settings r.type;
    }

-- ===== src/Servers/Service/Given.antt =====
-- What an update owes the fields of a row, said of the row before, the input and the row after
-- (the `data` of the updates in apps/backend/src/infrastructure/repositories/prisma).
use minikura.Common.{Option, none, some, ◌≡◌, refl}
use minikura.Servers.Entities.{Server, ReverseProxyServer}
use minikura.Servers.Inputs.{
  Nullable, undefined, null, given, ServerUpdateInput, ReverseProxyUpdateInput, set_nullable,
  set_field, set_option,
}
use minikura.Servers.Repository.ServerRows.{set_server}
use minikura.Servers.Repository.ProxyRows.{set_proxy}

module _ {A : Type 0} where
  -- A field that always holds a value: the given one, or else the old one.
  abbrev pub Gets : Option A → A → A → Type 0
  Gets none old new = new ≡ old
  Gets (some a) old new = new ≡ a

  -- A field that may be empty and that an input cannot empty.
  abbrev pub GetsSome : Option A → Option A → Option A → Type 0
  GetsSome none old new = new ≡ old
  GetsSome (some a) old new = new ≡ some a

  -- A field that an input empties with `null`.
  abbrev pub GetsNullable : Nullable A → Option A → Option A → Type 0
  GetsNullable undefined old new = new ≡ old
  GetsNullable null old new = new ≡ none
  GetsNullable (given a) old new = new ≡ some a

  gets : (o : Option A) (old : A) → Gets o old (set_field o old)
  gets none old = refl
  gets (some a) old = refl

  gets_some : (o old : Option A) → GetsSome o old (set_option o old)
  gets_some none old = refl
  gets_some (some a) old = refl

  gets_nullable : (o : Nullable A) (old : Option A) → GetsNullable o old (set_nullable o old)
  gets_nullable undefined old = refl
  gets_nullable null old = refl
  gets_nullable (given a) old = refl

-- The row `new` of a server after an update of `old`.
abbrev pub IsUpdated : ServerUpdateInput → Server → Server → Type 0
IsUpdated input old new =
    ((new.id ≡ old.id) × (new.type ≡ old.type) × (new.api_key ≡ old.api_key))
    × GetsNullable input.description old.description new.description
    × Gets input.listen_port old.listen_port new.listen_port
    × Gets input.service_type old.service_type new.service_type
    × GetsNullable input.node_port old.node_port new.node_port
    × Gets input.memory old.memory new.memory
    × Gets input.memory_request old.memory_request new.memory_request
    × GetsSome input.cpu_request old.cpu_request new.cpu_request
    × GetsSome input.cpu_limit old.cpu_limit new.cpu_limit
    × Gets input.jar_type old.jar_type new.jar_type
    × Gets input.minecraft_version old.minecraft_version new.minecraft_version
    × GetsSome input.jvm_opts old.jvm_opts new.jvm_opts
    × Gets input.use_aikar_flags old.use_aikar_flags new.use_aikar_flags
    × Gets input.use_meowice_flags old.use_meowice_flags new.use_meowice_flags
    × Gets input.difficulty old.difficulty new.difficulty
    × Gets input.game_mode old.game_mode new.game_mode
    × Gets input.max_players old.max_players new.max_players
    × Gets input.pvp old.pvp new.pvp
    × Gets input.online_mode old.online_mode new.online_mode
    × GetsSome input.motd old.motd new.motd
    × GetsSome input.level_seed old.level_seed new.level_seed
    × GetsSome input.level_type old.level_type new.level_type
    × Gets input.running old.running new.running

pub set_server-IsUpdated :
    (input : ServerUpdateInput) (r : Server) → IsUpdated input r (set_server input r)
set_server-IsUpdated input r = (
  (refl, refl, refl),
  gets_nullable input.description r.description,
  gets input.listen_port r.listen_port,
  gets input.service_type r.service_type,
  gets_nullable input.node_port r.node_port,
  gets input.memory r.memory,
  gets input.memory_request r.memory_request,
  gets_some input.cpu_request r.cpu_request,
  gets_some input.cpu_limit r.cpu_limit,
  gets input.jar_type r.jar_type,
  gets input.minecraft_version r.minecraft_version,
  gets_some input.jvm_opts r.jvm_opts,
  gets input.use_aikar_flags r.use_aikar_flags,
  gets input.use_meowice_flags r.use_meowice_flags,
  gets input.difficulty r.difficulty,
  gets input.game_mode r.game_mode,
  gets input.max_players r.max_players,
  gets input.pvp r.pvp,
  gets input.online_mode r.online_mode,
  gets_some input.motd r.motd,
  gets_some input.level_seed r.level_seed,
  gets_some input.level_type r.level_type,
  gets input.running r.running,
)

-- The row `new` of a reverse proxy after an update of `old`.
abbrev pub IsUpdatedProxy :
    ReverseProxyUpdateInput → ReverseProxyServer → ReverseProxyServer → Type 0
IsUpdatedProxy input old new =
    ((new.id ≡ old.id) × (new.api_key ≡ old.api_key))
    × Gets input.type old.type new.type
    × GetsNullable input.description old.description new.description
    × Gets input.external_address old.external_address new.external_address
    × Gets input.external_port old.external_port new.external_port
    × Gets input.listen_port old.listen_port new.listen_port
    × Gets input.service_type old.service_type new.service_type
    × GetsNullable input.node_port old.node_port new.node_port
    × Gets input.memory old.memory new.memory
    × GetsSome input.cpu_request old.cpu_request new.cpu_request
    × GetsSome input.cpu_limit old.cpu_limit new.cpu_limit

pub set_proxy-IsUpdatedProxy :
    (input : ReverseProxyUpdateInput) (r : ReverseProxyServer)
    → IsUpdatedProxy input r (set_proxy input r)
set_proxy-IsUpdatedProxy input r = (
  (refl, refl),
  gets input.type r.type,
  gets_nullable input.description r.description,
  gets input.external_address r.external_address,
  gets input.external_port r.external_port,
  gets input.listen_port r.listen_port,
  gets input.service_type r.service_type,
  gets_nullable input.node_port r.node_port,
  gets input.memory r.memory,
  gets_some input.cpu_request r.cpu_request,
  gets_some input.cpu_limit r.cpu_limit,
)

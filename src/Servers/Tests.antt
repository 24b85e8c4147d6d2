-- ===== src/Servers/Tests.antt =====
-- The servers' theorems at a concrete table, and runs of the service.
use minikura.Common.{
  String, true, false, none, some, [], ◌∷◌, ◌≡◌, ◌==◌, refl, thrown, arith, Bool-cases, inl, inr,
}
use minikura.Domain.Errors.{Thrown}
use minikura.Servers.Entities.{Server, stateful, cluster_ip, vanilla, easy, survival}
use minikura.Servers.Inputs.{undefined, ServerCreateInput, ServerUpdateInput, no_server_changes}
use minikura.Servers.Memory.{memory, memory-IsStore}
use minikura.Servers.Store.{Store, IsStore, env}
use minikura.Servers.Crud.{World}
use minikura.Servers.Repository.ApiKeys.{generate_server_api_key}
use minikura.Servers.Service.ServerCalls.{
  ServerEvent, server_updated, update_server, set_env_variable, delete_env_variable,
}
use minikura.Servers.Service.Creation.{Creates, create_server_lem}
use minikura.Servers.Service.Variables.{var_set, env_calls_lem, update_server_twice}
use minikura.Servers.Crud.Laws.{Does}
use minikura.Servers.Service.Changes.{Updates, update_server_lem, Deletes, delete_server_lem}

abbrev pub table : Store Server
table = memory (λ (r : Server). r.id)

laws : IsStore (λ (r : Server). r.id) (λ r. r.api_key) table
laws = memory-IsStore (λ r. r.id) (λ r. r.api_key)

abbrev pub lobby : Server
lobby = record {
  id = "lobby";
  type = stateful;
  description = none;
  listen_port = 25565;
  memory = 2048;
  memory_request = 1024;
  cpu_request = none;
  cpu_limit = none;
  service_type = cluster_ip;
  node_port = none;
  api_key = "minikura_srv_lobby";
  running = true;
  jar_type = vanilla;
  minecraft_version = "LATEST";
  jvm_opts = none;
  use_aikar_flags = false;
  use_meowice_flags = false;
  difficulty = easy;
  game_mode = survival;
  max_players = 20;
  pvp = true;
  online_mode = true;
  motd = none;
  level_seed = none;
  level_type = none;
}

abbrev pub world : World table.State ServerEvent
world = record { db = (lobby, ("MODE", "a") ∷ []) ∷ []; published = [] }

abbrev pub input : ServerCreateInput
input = record {
  id = "arena";
  description = undefined;
  listen_port = 25566;
  type = stateful;
  service_type = none;
  node_port = undefined;
  env_variables = some (("MODE", "b") ∷ []);
  memory = none;
  memory_request = none;
  cpu_request = none;
  cpu_limit = none;
  jar_type = none;
  minecraft_version = none;
  jvm_opts = none;
  use_aikar_flags = none;
  use_meowice_flags = none;
  difficulty = none;
  game_mode = none;
  max_players = some 8;
  pvp = none;
  online_mode = none;
  motd = none;
  level_seed = none;
  level_type = none;
  running = none;
}

only_lobby : (j : String) (q : Server) → table.find_unique j world.db ≡ some q → q ≡ lobby
only_lobby j q found = elim (Bool-cases ("lobby" == j)) [
  | inl h ↦ ground arith
  | inr h ↦ ground arith
]

create_server_lem_example : Creates table laws "ab+c" input world none
unfolding generate_server_api_key
create_server_lem_example =
    create_server_lem table laws "ab+c" input world (λ j q found. rw (only_lobby j q found) refl)
      refl

abbrev twice : ServerUpdateInput
twice = record no_server_changes { env_variables = some (("A", "1") ∷ ("A", "2") ∷ []) }

abbrev rename : ServerUpdateInput
rename = record no_server_changes { env_variables = some (("A", "1") ∷ []); motd = some "Hello" }

update_server_lem_example : Updates table laws "lobby" rename world (some lobby)
update_server_lem_example = update_server_lem table laws "lobby" rename world refl

delete_server_lem_example : Deletes table laws "nowhere" world none
delete_server_lem_example = delete_server_lem table laws "nowhere" world

env_calls_lem_example :
    Does table world
      (set_env_variable table "lobby" "MODE" "b" world)
      (λ _. tt)
      (λ j. table.find_unique j world.db)
      (var_set table laws "lobby" "MODE" (some "b") world.db)
      (server_updated "lobby" no_server_changes ∷ [])
    × Does table world
        (delete_env_variable table "lobby" "MODE" world)
        (λ _. tt)
        (λ j. table.find_unique j world.db)
        (var_set table laws "lobby" "MODE" none world.db)
        (server_updated "lobby" no_server_changes ∷ [])
env_calls_lem_example = env_calls_lem table laws "lobby" "MODE" "b" world

update_server_twice_example :
    let (a, w') = update_server table "lobby" twice world in
    ((e : Thrown) × (a ≡ thrown e))
    × ((k : String) → env table "lobby" k w'.db ≡ none)
    × (w'.published ≡ [])
update_server_twice_example =
    update_server_twice table laws "lobby" twice (("A", "1") ∷ ("A", "2") ∷ []) world lobby refl
      refl refl

-- ===== src/Operator/Handlers/Tests.antt =====
-- The handlers at a concrete cluster and with concrete sockets.
use minikura.Common.{String, true, Option, none, some, [], ◌∷◌, ◌≡◌, ◌==◌, refl, ok, if◌then◌else◌}
use minikura.Operator.Names.{operator_resource_name, is_alphanumeric, is_label_char}
use minikura.Operator.Cluster.{minecraft_servers, IsCluster}
use minikura.Operator.Specs.{Spec, ServerSpec, server_spec, SyncedServer}
use minikura.Operator.Memory.{shelf, shelf-IsCluster}
use minikura.Operator.Specs.Described.{Describes}
use minikura.Operator.Sync.Tests.{settings, nothing, synced}
use minikura.Operator.Handlers.{World, on_server_event}
use minikura.Operator.Handlers.Reactions.{Told, on_server_event_lem}
use minikura.Servers.Inputs.{no_server_changes}
use minikura.Servers.Service.ServerCalls.{server_updated, server_deleted}

laws : IsCluster (shelf Spec)
laws = shelf-IsCluster Spec

abbrev servers : String → Option SyncedServer
servers id = if "lobby" == id then some synced else none

abbrev world : World (shelf Spec)
world = record { sockets = record { clients = "a" ∷ "b" ∷ []; sent = [] }; cluster = nothing }

on_server_event_lem_example :
    let (r, w') =
      on_server_event
        (shelf Spec)
        settings
        true
        (λ x. x == "b")
        7
        servers
        (λ _. none)
        (server_updated "lobby" no_server_changes)
        world in
    let (r', w'') =
      on_server_event
        (shelf Spec)
        settings
        true
        (λ x. x == "b")
        7
        servers
        (λ _. none)
        (server_deleted "lobby")
        world in
    ((r ≡ ok tt)
      × Told (λ x. x == "b") 7 "UPDATE" "lobby" world.sockets w'.sockets
      × ((spec : ServerSpec) × Describes settings synced spec
          × ((shelf Spec).object minecraft_servers "lobby" w'.cluster
              ≡ some (record { name = "lobby"; database_id = "lobby"; spec = server_spec spec }))
          × ((shelf Spec).secret spec.api_key_secret_ref w'.cluster
              ≡ some (record { database_id = "lobby"; api_key = "minikura_srv_lobby" }))))
    × ((r' ≡ ok tt)
        × Told (λ x. x == "b") 7 "DELETE" "lobby" world.sockets w''.sockets
        × ((shelf Spec).object minecraft_servers "lobby" w''.cluster ≡ none)
        × ((shelf Spec).secret "mc-lobby-api-key" w''.cluster ≡ none))
unfolding operator_resource_name is_alphanumeric is_label_char
on_server_event_lem_example =
    on_server_event_lem (shelf Spec) laws settings (λ x. x == "b") 7 servers (λ _. none) world
      synced no_server_changes refl refl refl refl

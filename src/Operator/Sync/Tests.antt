-- ===== src/Operator/Sync/Tests.antt =====
-- The synchronization's theorems at concrete servers.
use minikura.Common.{
  All, Bool, Option, ◌∙◌, ◌||◌, ◌&&◌, false, ok, String, List, is_some, arith, true, none, some, [],
  ◌∷◌, ◌≡◌, refl, lookup, ◌==◌, if◌then◌else◌,
}
use minikura.Operator.Names.{is_alphanumeric, is_label_char, operator_resource_name}
use minikura.Operator.Cluster.{
  Plural, Secret, CustomResource, minecraft_servers, reverse_proxy_servers, IsCluster, Comes,
  secret_set, object_set, secrets_of, objects_of,
}
use minikura.Operator.Specs.{
  Spec, ServerSpec, server_spec, Settings, SyncedServer, artifact_url, server_environment,
}
use minikura.Operator.Specs.Described.{Describes, IsServerResource, IsProxyResource}
use minikura.Operator.Specs.Environment.{lookup-server_environment}
use minikura.Operator.Memory.{Shelf, shelf, shelf-IsCluster, names, find}
use minikura.Operator.Sync.Runs.{Lists, Unmarked, described_server, described_proxy}
use minikura.Operator.Sync.Convergence.{sync_all_converges}
use minikura.Operator.Sync.{sync_all, sync_server}
use minikura.Operator.Sync.Outcomes.{proxy_resource, secret_name, server_resource, sync_server_lem}
use minikura.Operator.Sync.Stale.{listed}
use minikura.Operator.Sync.Removal.{sync_server_takes_secret}
use minikura.Servers.Service.Tests.{gate}
use minikura.Servers.Entities.{ReverseProxyServer, WithEnvVars}
use minikura.Servers.Tests.{lobby}

laws : IsCluster (shelf Spec)
laws = shelf-IsCluster Spec

abbrev pub settings : Settings
settings = record {
  backend_url = "http://minikura-backend:3000/api";
  velocity_plugin_url = none;
  download_base_url = "http://files.example.org/";
}

abbrev pub nothing : Shelf Spec
nothing = record { secrets = λ n. none; objects = λ p. []; marked = λ p n. false }

abbrev pub synced : SyncedServer
synced = record {
  server = record { row = lobby; env_variables = ("PLUGINS", "a") ∷ [] };
  plugins = (true, "t1") ∷ [];
}

environment :
    server_environment settings synced
    ≡ ("PLUGINS", "a,http://files.example.org/registry/artifacts/t1/download") ∷ []
unfolding server_environment artifact_url
environment = refl

lookup-server_environment_example :
    lookup "PLUGINS" (server_environment settings synced)
    ≡ some "a,http://files.example.org/registry/artifacts/t1/download"
unfolding artifact_url
lookup-server_environment_example = lookup-server_environment settings synced "PLUGINS" refl

sync_server_lem_example :
    let kept : Secret = record { database_id = "lobby"; api_key = "minikura_srv_lobby" } in
    (spec : ServerSpec) × Describes settings synced spec
    × Comes
        (shelf Spec)
        (sync_server (shelf Spec) settings synced nothing)
        (secret_set (shelf Spec) "lobby-api-key" none (
          secret_set
            (shelf Spec)
            spec.api_key_secret_ref
            (some kept)
            (secrets_of (shelf Spec) nothing)))
        (object_set
          (shelf Spec)
          minecraft_servers
          "lobby"
          (some (record { name = "lobby"; database_id = "lobby"; spec = server_spec spec }))
          (objects_of (shelf Spec) nothing))
    × ((shelf Spec).secret spec.api_key_secret_ref
          (sync_server (shelf Spec) settings synced nothing).1
        ≡ some kept)
unfolding operator_resource_name is_alphanumeric is_label_char
sync_server_lem_example = sync_server_lem (shelf Spec) laws settings nothing synced refl refl refl

abbrev dashed : SyncedServer
dashed = record {
  server = record { row = record lobby { id = "mc-lobby" }; env_variables = [] };
  plugins = [];
}

-- The server `lobby` is in place before.
abbrev in_place : Shelf Spec
in_place = (sync_server (shelf Spec) settings synced nothing).1

sync_server_takes_secret_example :
    (shelf Spec).secret
      (secret_name minecraft_servers "lobby")
      (sync_server (shelf Spec) settings dashed in_place).1
    ≡ none
unfolding operator_resource_name is_alphanumeric is_label_char
sync_server_takes_secret_example =
    sync_server_takes_secret (shelf Spec) laws settings in_place dashed "lobby" refl refl

abbrev gate_row : WithEnvVars ReverseProxyServer
gate_row = record { row = gate; env_variables = [] }

-- The cluster still has a server that the database has no longer.
abbrev crowded : Shelf Spec
crowded = record nothing { objects = old_objects }
  where
    old_objects : Plural → List (CustomResource Spec)
    old_objects minecraft_servers = record (server_resource settings synced) { name = "old" } ∷ []
    old_objects reverse_proxy_servers = []

listed-names :
    (xs : List (CustomResource Spec)) (n : String)
    → listed n (names Spec xs) ≡ is_some (find Spec n xs)
listed-names [] n = refl
listed-names (x ∷ xs) n = ground (arith, listed-names xs n)

shelf-Lists : Lists (shelf Spec)
shelf-Lists p t = (
  names Spec (t.objects p),
  refl,
  λ n. listed-names (t.objects p) n ∙ with_mark (find Spec n (t.objects p)) (t.marked p n),
)
  where
    with_mark :
        (o : Option (CustomResource Spec)) (b : Bool)
        → is_some o ≡ (is_some (if b then none else o) || (is_some o && b))
    with_mark none true = refl
    with_mark none false = refl
    with_mark (some x) true = refl
    with_mark (some x) false = refl

none_marked : Unmarked (shelf Spec) crowded
none_marked p n = ground arith

sync_all_converges_example :
    (u : Shelf Spec) × (sync_all
        (shelf Spec)
        settings
        false
        true
        (ok (synced ∷ [], gate_row ∷ []))
        crowded
      ≡ ([], u))
    × ((n : String)
        → (n == "") ≡ false
        → ((shelf Spec).object minecraft_servers n u ≡ described_server settings (synced ∷ []) n)
          × ((shelf Spec).object reverse_proxy_servers n u
              ≡ described_proxy settings (gate_row ∷ []) n))
    × All (λ s. IsServerResource settings s (server_resource settings s)) (synced ∷ [])
    × All (λ p. IsProxyResource settings p (proxy_resource settings p)) (gate_row ∷ [])
unfolding operator_resource_name is_alphanumeric is_label_char
sync_all_converges_example =
    sync_all_converges (shelf Spec) (shelf-IsCluster Spec) shelf-Lists settings (synced ∷ [])
      (gate_row ∷ []) (refl, tt) (refl, tt) crowded none_marked (refl, tt)

-- ===== src/Plugins/Tests.antt =====
-- The registry's theorems at concrete tables, and runs of the service.
use minikura.Common.{
  two_parts, split, ◌==◌, if◌then◌else◌, ℕ, String, Bool, true, Option, none, some, List, [], ◌∷◌,
  All, ◌≡◌, ◌≢◌, refl, ok, thrown, Settled,
}
use minikura.Domain.Errors.{Thrown, Action}
use minikura.Servers.Routes.Tests.{context, refusal}
use minikura.Users.Guards.{require_admin}
use minikura.Plugins.Entities.{modrinth, hangar, remote, PluginArtifact, RegistryVersion}
use minikura.Plugins.Providers.{ModrinthHit, HangarProject, of_hit, of_hangar, search}
use minikura.Plugins.Versions.{HangarVersion, versions}
use minikura.Plugins.Versions.Offers.{IsHangarOffer, versions-IsHangarOffer}
use minikura.Plugins.Memory.{Tables, memory, file_memory}
use minikura.Plugins.Memory.Laws.{memory-IsPluginStore}
use minikura.Plugins.Registry.{deploy, reconcile}
use minikura.Plugins.Registry.Installing.{Leaves, plugins}
use minikura.Plugins.Registry.Deployment.{deployed, reconciled, deploy_lem, reconcile_lem}
use minikura.Plugins.Artifacts.{Url, Fetched, File, new_artifact, register}
use minikura.Plugins.Artifacts.Registration.{IsFrom, IsHashFor, Keeps, register-inv}
use minikura.Plugins.Files.{
  World, stored_file, bucket_name, object_key_of, uploaded_artifact, upload, delete_artifact,
  download,
}
use minikura.Plugins.Service.{Sources, plugin_registry}
use minikura.Plugins.Routes.{
  PluginRegistry, get_search, get_versions, get_artifacts, post_artifact, post_upload,
  delete_from_library, get_plugins, put_plugins, post_plugin, post_deployment, delete_installation,
}
use minikura.Plugins.Routes.Access.{registry_needs_admin}
use minikura.Plugins.Files.Removal.{RemovesRows, delete_artifact_lem}

abbrev vault : PluginArtifact
vault = record {
  id = "vault-1";
  provider = modrinth;
  provider_project_id = "vault";
  provider_version_id = "v1";
  name = "Vault";
  version = "1.0";
  platform = "PAPER";
  minecraft_versions = "1.21" ∷ [];
  filename = "vault.jar";
  size = 3;
  sha256 = "aa";
  source_url = some "https://cdn.modrinth.com/vault.jar";
  storage_mode = remote;
  object_key = none;
  download_token = "t1";
  license = none;
  description = none;
  author = none;
  icon_url = none;
  project_url = none;
  categories = [];
  provider_updated_at = none;
}

abbrev newer_vault : PluginArtifact
newer_vault = record vault {
  id = "vault-2";
  provider_version_id = "v2";
  version = "2.0";
  download_token = "t2";
}

abbrev maps : PluginArtifact
maps = record vault { id = "maps-1"; provider_project_id = "maps"; download_token = "t3" }

-- The older version is installed on both servers, disabled on one.
abbrev installations : String → String → Option Bool
installations i j = if j == "vault-1" then some (i == "lobby") else none

abbrev tables : Tables
tables = record {
  servers = "lobby" ∷ "arena" ∷ [];
  artifacts = vault ∷ newer_vault ∷ maps ∷ [];
  enabled = installations;
}

deploy_example :
    Leaves memory tables newer_vault
      (deployed memory "lobby" tables newer_vault)
      (deploy memory "lobby" "vault-2" tables)
deploy_example = deploy_lem memory memory-IsPluginStore "lobby" tables "vault-2"

reconcile_example :
    Leaves memory tables tt
      (reconciled memory "lobby" tables ("maps-1" ∷ "vault-2" ∷ "maps-1" ∷ []))
      (reconcile memory "lobby" ("maps-1" ∷ "vault-2" ∷ "maps-1" ∷ []) tables)
reconcile_example =
    reconcile_lem memory memory-IsPluginStore "lobby" tables ("maps-1" ∷ "vault-2" ∷ "maps-1" ∷ [])

-- Unlike a deployment, a reconciliation may leave two versions of one plugin on a server.
two_versions :
    (plugins memory
        (reconcile memory "lobby" ("vault-1" ∷ "vault-2" ∷ []) tables).1
        "lobby"
        "vault-1"
      ≡ some true)
    × (plugins memory
          (reconcile memory "lobby" ("vault-1" ∷ "vault-2" ∷ []) tables).1
          "lobby"
          "vault-2"
        ≡ some true)
unfolding reconcile
two_versions = (refl, refl)

abbrev hit : ModrinthHit
hit = record {
  project_id = "p1";
  title = "Vault";
  description = "Economy";
  icon_url = none;
  downloads = 5;
  license = none;
  author = "mc";
  categories = [];
  versions = "1.21" ∷ [];
  date_modified = "2026-01-01";
  slug = some "vault";
}

abbrev pl3x : HangarProject
pl3x = record {
  owner = "granny";
  slug = "Pl3xMap";
  name = "Pl3xMap";
  description = "Maps";
  avatar_url = none;
  downloads = 9;
  license = none;
  category = some "";
  last_updated = none;
  member_names = none;
  supported_platforms = some (("PAPER", "1.21" ∷ []) ∷ []);
}

search_order :
    search (λ _. ok (hit ∷ [])) (λ _. ok (pl3x ∷ [])) true "" "PAPER" none
    ≡ of_hangar pl3x ∷ of_hit hit ∷ []
unfolding search
search_order = refl

abbrev hangar_version : HangarVersion
hangar_version = record {
  id = "7";
  name = "3.0";
  channel = "Release";
  downloads =
      (
        "PAPER",
        record {
          name = "Pl3xMap.jar";
          size_bytes = 4;
          sha256_hash = "bb";
          download_url = none;
          external_url = some "https://hangarcdn.papermc.io/p.jar";
        },
      )
      ∷ [];
  platform_dependencies = ("PAPER", "1.20" ∷ "1.21" ∷ []) ∷ [];
}

abbrev offer : RegistryVersion
offer = record {
  provider = hangar;
  project_id = "granny/Pl3xMap";
  project_name = none;
  version_id = "7";
  version = "3.0";
  platform = "FOLIA";
  minecraft_versions = "1.20" ∷ "1.21" ∷ [];
  filename = "Pl3xMap.jar";
  size = 4;
  sha256 = some "bb";
  download_url = "https://hangarcdn.papermc.io/p.jar";
  license = none;
  description = none;
  author = none;
  icon_url = none;
  project_url = none;
  categories = none;
  updated_at = none;
}

versions_example :
    (owner slug : String) × (found : List HangarVersion) × (two_parts (split b'/' "granny/Pl3xMap")
      ≡ some (owner, slug))
    × (◌≡◌ {A = Settled Thrown (List HangarVersion)} (ok (hangar_version ∷ [])) (ok found))
    × All (IsHangarOffer "granny/Pl3xMap" "FOLIA" (some "1.21") found) (offer ∷ [])
unfolding versions
versions_example =
    versions-IsHangarOffer (λ _ _. ok []) (λ _ _. ok (hangar_version ∷ [])) "granny/Pl3xMap" "FOLIA"
      (some "1.21") (offer ∷ []) refl

-- Every address is one of Hangar's.
abbrev parse : String → Settled Thrown Url
parse value = ok (record { protocol = "https:"; hostname = "hangarcdn.papermc.io" })

abbrev hash : List ℕ → String
hash bytes = "cc"

abbrev fetch : String → Settled Thrown Fetched
fetch url = ok (record { is_ok = true; bytes = 80 ∷ 75 ∷ 1 ∷ 2 ∷ [] })

abbrev unhashed : RegistryVersion
unhashed = record offer { sha256 = none }

abbrev new_row : PluginArtifact
new_row = new_artifact unhashed "cc" "7/Pl3xMap.jar" "token of 7/Pl3xMap.jar"

register_example :
    ((url : Url) × (parse "https://hangarcdn.papermc.io/p.jar" ≡ ok url) × IsFrom hangar url)
    × ((h : String) × IsHashFor hash fetch unhashed h
        × Keeps memory parse hash fetch unhashed h tables
            (ok new_row, record tables { artifacts = new_row ∷ tables.artifacts }))
unfolding register new_artifact
register_example =
    register-inv memory parse hash fetch unhashed tables
      (record tables { artifacts = new_row ∷ tables.artifacts }) new_row refl

abbrev jar : File
jar = record { name = "Maps.JAR"; bytes = 80 ∷ 75 ∷ 3 ∷ [] }

abbrev world : World Tables file_memory.State
world = record { db = tables; files = [] }

abbrev kept_jar : PluginArtifact
kept_jar = uploaded_artifact jar "cc" "cc/Maps.JAR" "token of cc/Maps.JAR"

abbrev uploaded_world : World Tables file_memory.State
uploaded_world = record {
  db = record tables { artifacts = kept_jar ∷ tables.artifacts };
  files = ("minikura-plugins/artifacts/sha256/cc/cc.jar", stored_file jar "cc") ∷ [];
}

-- The upload is removed with its file.
delete_artifact_example :
    RemovesRows memory file_memory none "cc/Maps.JAR" uploaded_world
      (ok tt, [])
      (delete_artifact memory file_memory none "cc/Maps.JAR" uploaded_world)
unfolding object_key_of uploaded_artifact
delete_artifact_example =
    delete_artifact_lem memory memory-IsPluginStore file_memory none "cc/Maps.JAR" uploaded_world

-- Two uploads of the same bytes under two names share one stored file, and the removal of one of
-- the two artifacts takes the file of the other.
abbrev other_jar : File
other_jar = record jar { name = "copy.jar" }

both_uploaded : World Tables file_memory.State
unfolding upload
both_uploaded = (upload memory file_memory none hash other_jar uploaded_world).1

file_is_lost :
    ((download memory file_memory none "token of cc/Maps.JAR" both_uploaded).0
      ≢ thrown (Thrown.error "NoSuchKey" "The key does not exist"))
    × ((delete_artifact memory file_memory none "cc/copy.jar" both_uploaded).0 ≡ ok [])
    × ((download memory file_memory none "token of cc/Maps.JAR"
          (delete_artifact memory file_memory none "cc/copy.jar" both_uploaded).1).0
        ≡ thrown (Thrown.error "NoSuchKey" "The key does not exist"))
unfolding both_uploaded upload object_key_of download delete_artifact bucket_name
file_is_lost = ((λ e. cc e), refl, refl)

abbrev sources : Sources
sources = record {
  modrinth_search = λ _. ok (hit ∷ []);
  hangar_search = λ _. ok (pl3x ∷ []);
  modrinth_versions = λ _ _. ok [];
  hangar_versions = λ _ _. ok (hangar_version ∷ []);
  modrinth_project = λ _. thrown (Thrown.error "Error" "no answer");
  hangar_project = λ _ _. ok pl3x;
}

abbrev service : PluginRegistry (World Tables file_memory.State)
service = plugin_registry memory file_memory none sources (λ text. text == "") parse hash fetch

abbrev no_sync : String → Action (World Tables file_memory.State) (Unit {0})
no_sync id w = (ok tt, w)

registry_needs_admin_example :
    (get_search service no_sync context none "PAPER" none world ≡ (thrown refusal, world))
    × (get_versions service no_sync context hangar "lobby" "PAPER" none world
        ≡ (thrown refusal, world))
    × (get_artifacts service no_sync context world ≡ (thrown refusal, world))
    × (post_artifact service no_sync context offer world ≡ (thrown refusal, world))
    × (post_upload service no_sync context jar world ≡ (thrown refusal, world))
    × (delete_from_library service no_sync context "lobby" world ≡ (thrown refusal, world))
    × (get_plugins service no_sync context "lobby" world ≡ (thrown refusal, world))
    × (put_plugins service no_sync context "lobby" ("maps-1" ∷ []) world ≡ (thrown refusal, world))
    × (post_plugin service no_sync context "lobby" offer world ≡ (thrown refusal, world))
    × (post_deployment service no_sync context "lobby" "maps-1" world ≡ (thrown refusal, world))
    × (delete_installation service no_sync context "lobby" "maps-1" world ≡ (thrown refusal, world))
unfolding require_admin
registry_needs_admin_example =
    registry_needs_admin service no_sync context world refusal "lobby" "maps-1" "PAPER" none none
      hangar offer jar ("maps-1" ∷ []) refl

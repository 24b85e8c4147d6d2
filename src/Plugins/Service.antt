-- ===== src/Plugins/Service.antt =====
-- The service of plugins that the routes call, from its parts
-- (apps/backend/src/services/plugin-registry.ts).
use minikura.Common.{ℕ, String, Bool, Option, List, Settled, settle, pure}
use minikura.Domain.Errors.{Thrown}
use minikura.Plugins.Providers.{
  ModrinthQuery, ModrinthHit, ModrinthProject, HangarQuery, HangarProject, search, project,
}
use minikura.Plugins.Versions.{VersionQuery, ModrinthVersion, HangarVersion, versions}
use minikura.Plugins.Store.{PluginStore, FileStore}
use minikura.Plugins.Registry
use minikura.Plugins.Artifacts.{Url, Fetched, register}
use minikura.Plugins.Files.{World, in_db, upload, delete_artifact, download, list_artifacts}
use minikura.Plugins.Routes.{PluginRegistry}

-- What the two providers answer.
pub record Sources : Type 0 where
  pub modrinth_search : ModrinthQuery → Settled Thrown (List ModrinthHit)
  pub hangar_search : HangarQuery → Settled Thrown (List HangarProject)
  pub modrinth_versions : String → VersionQuery → Settled Thrown (List ModrinthVersion)
  pub hangar_versions : String → String → Settled Thrown (List HangarVersion)
  pub modrinth_project : String → Settled Thrown ModrinthProject
  pub hangar_project : String → String → Settled Thrown HangarProject

unfoldable pub plugin_registry :
    (s : PluginStore) (f : FileStore)
    → Option String
    → Sources
    → (String → Bool)
    → (String → Settled Thrown Url)
    → (List ℕ → String)
    → (String → Settled Thrown Fetched)
    → PluginRegistry (World s.State f.State)
unfolding search versions project Registry.reconcile Registry.deploy Registry.remove Registry.list
    register upload delete_artifact download list_artifacts
plugin_registry s f s3_bucket sources is_blank parse sha256 fetch = record {
  search = λ query platform version. pure (
      search sources.modrinth_search sources.hangar_search (is_blank query) query platform version);
  versions = λ provider project_id platform version. settle (
      versions sources.modrinth_versions sources.hangar_versions provider project_id platform
        version);
  list_artifacts = in_db (
      list_artifacts s (λ artifact.
        project sources.modrinth_project sources.hangar_project artifact.provider
          artifact.provider_project_id));
  register = λ input. in_db (register s parse sha256 fetch input);
  upload = upload s f s3_bucket sha256;
  delete_artifact = delete_artifact s f s3_bucket;
  list = λ server_id. in_db (Registry.list s server_id);
  reconcile = λ server_id ids. in_db (Registry.reconcile s server_id ids);
  deploy = λ server_id artifact_id. in_db (Registry.deploy s server_id artifact_id);
  remove = λ server_id installation_id. in_db (Registry.remove s server_id installation_id);
  download = download s f s3_bucket;
}

-- ===== src/Plugins/Routes.antt =====
-- The routes of the registry (apps/backend/src/routes/registry.ts). A body as its schema leaves it
-- is an argument; `sync` is the synchronization of a server with the cluster, by its id.
pub mod Access
use minikura.Common.{
  ℕ, String, Option, none, some, List, [], ◌∷◌, Settled, ok, ◌>>=◌, ◌>>◌, pure, throw, or_else,
}
use minikura.Domain.Errors.{Thrown, Action}
use minikura.Users.Guards.{AuthContext}
use minikura.Servers.Routes.Admission.{admit}
use minikura.Plugins.Entities.{
  Provider, PluginArtifact, ServerPlugin, RegistryProject, RegistryVersion,
}
use minikura.Plugins.Artifacts.{File}
use minikura.Plugins.Files.{Download}

-- What the routes ask of the service of plugins.
pub record PluginRegistry (W : Type 0) : Type 0 where
  pub search : String → String → Option String → Action W (List RegistryProject)
  pub versions : Provider → String → String → Option String → Action W (List RegistryVersion)
  pub list_artifacts : Action W (List (PluginArtifact × List String))
  pub register : RegistryVersion → Action W PluginArtifact
  pub upload : File → Action W PluginArtifact
  pub delete_artifact : String → Action W (List String)
  pub list : String → Action W (List (ServerPlugin × PluginArtifact))
  pub reconcile : String → List String → Action W (Unit {0})
  pub deploy : String → String → Action W PluginArtifact
  pub remove : String → String → Action W (Unit {0})
  pub download : String → Action W Download

-- `Promise.all(ids.map(sync))`: every call runs, and the first failure is thrown.
abbrev first_of : Settled Thrown (Unit {0}) → Settled Thrown (Unit {0}) → Settled Thrown (Unit {0})
first_of (ok _) later = later
first_of failure later = failure

module _ {W : Type 0} where
  pub sync_all : (String → Action W (Unit {0})) → List String → Action W (Unit {0})
  sync_all sync [] w = (ok tt, w)
  sync_all sync (id ∷ ids) w =
      let (r, u) = sync id w in let (later, v) = sync_all sync ids u in (first_of r later, v)

module _ {W : Type 0} (registry : PluginRegistry W) (sync : String → Action W (Unit {0})) where
  unfoldable pub get_search :
      AuthContext → Option String → String → Option String → Action W (List RegistryProject)
  unfolding admit
  get_search ctx query platform version = do
    admit ctx
    registry.search (or_else query "") platform version

  unfoldable pub get_versions :
      AuthContext → Provider → String → String → Option String → Action W (List RegistryVersion)
  unfolding admit
  get_versions ctx provider project_id platform version = do
    admit ctx
    registry.versions provider project_id platform version

  unfoldable pub get_artifacts : AuthContext → Action W (List (PluginArtifact × List String))
  unfolding admit
  get_artifacts ctx = do admit ctx; registry.list_artifacts

  unfoldable pub post_artifact : AuthContext → RegistryVersion → Action W PluginArtifact
  unfolding admit
  post_artifact ctx body = do admit ctx; registry.register body

  unfoldable pub post_upload : AuthContext → File → Action W PluginArtifact
  unfolding admit
  post_upload ctx file = do admit ctx; registry.upload file

  unfoldable pub delete_from_library : AuthContext → String → Action W (Unit {0})
  unfolding admit sync_all
  delete_from_library ctx artifact_id = do
    admit ctx
    server_ids ← registry.delete_artifact artifact_id
    sync_all sync server_ids

  unfoldable pub get_plugins :
      AuthContext → String → Action W (List (ServerPlugin × PluginArtifact))
  unfolding admit
  get_plugins ctx server_id = do admit ctx; registry.list server_id

  unfoldable pub put_plugins : AuthContext → String → List String → Action W (Unit {0})
  unfolding admit
  put_plugins ctx server_id artifact_ids = do
    admit ctx
    registry.reconcile server_id artifact_ids
    sync server_id

  unfoldable pub post_plugin : AuthContext → String → RegistryVersion → Action W PluginArtifact
  unfolding admit
  post_plugin ctx server_id body = do
    admit ctx
    registered ← registry.register body
    artifact ← registry.deploy server_id registered.id
    sync server_id
    pure artifact

  unfoldable pub post_deployment : AuthContext → String → String → Action W PluginArtifact
  unfolding admit
  post_deployment ctx server_id artifact_id = do
    admit ctx
    artifact ← registry.deploy server_id artifact_id
    sync server_id
    pure artifact

  unfoldable pub delete_installation : AuthContext → String → String → Action W (Unit {0})
  unfolding admit
  delete_installation ctx server_id installation_id = do
    admit ctx
    registry.remove server_id installation_id
    sync server_id

-- What a download is answered with: the file, or a redirect with status 302.
pub data Served : Type 0 where
  file : Download → Served
  redirect : String → ℕ → Served

abbrev served : Download → Served
served (Download.response r) = Served.file (Download.response r)
served (Download.redirect url) = Served.redirect url 302

module _ {W : Type 0} (registry : PluginRegistry W) where
  -- No guard: the token is the permission.
  unfoldable pub get_download : String → Action W Served
  get_download token = do download ← registry.download token; pure (served download)

-- ===== src/Plugins/Store.antt =====
-- The tables of artifacts and of installed plugins as the database client offers them, and the
-- store of the uploaded files. The clients are no part of the program: their calls are parameters,
-- and the laws state what the database client documents of its calls, for artifacts with a unique
-- id and installations that are unique for a server and an artifact and refer to both
-- (packages/db/prisma/schema.prisma).
use minikura.Common.{
  ℕ, String, Bool, true, ◌&&◌, Option, none, some, List, ◌==◌, ◌≡◌, is_some, contains, length,
  distinct_texts, filter, if◌then◌else◌, ok, Settled,
}
use minikura.Domain.Errors.{Thrown, Action}
use minikura.Plugins.Entities.{Provider, PluginArtifact, ServerPlugin}

-- The unique key of an artifact beside its id.
pub record ArtifactKey : Type 0 where
  pub provider : Provider
  pub provider_version_id : String
  pub platform : String
  pub filename : String

-- A condition on an installation and its artifact.
abbrev pub Where : Type 0
Where = ServerPlugin → PluginArtifact → Bool

-- A new installation, which is enabled by default.
pub record NewPlugin : Type 0 where
  pub server_id : String
  pub artifact_id : String

pub record PluginStore : Type 1 where
  pub State : Type 0
  pub server_exists : String → State → Bool
  pub artifact : String → State → Option PluginArtifact
  pub artifact_by_token : String → State → Option PluginArtifact
  pub artifacts_in : List String → State → List PluginArtifact
  pub artifacts : (PluginArtifact → Bool) → State → List PluginArtifact
  pub installed : String → String → State → Option ServerPlugin
  pub plugins_of : String → State → List (ServerPlugin × PluginArtifact)
  pub servers_of : String → State → List String
  pub delete_plugins : Where → Action State ℕ
  -- `upsert`: the server and the artifact that are looked for, whether the installation is enabled
  -- from then on where it is there, and the one that is made where it is not.
  pub upsert_plugin : String → String → Bool → NewPlugin → Action State (Unit {0})
  pub upsert_artifact :
      ArtifactKey
      → (PluginArtifact → PluginArtifact)
      → (String → String → PluginArtifact)
      → Action State PluginArtifact
  pub update_artifact : String → (PluginArtifact → PluginArtifact) → Action State (Unit {0})
  pub delete_artifact : String → Action State (Unit {0})

-- The installation that a deletion leaves.
abbrev pub keep : Where → Option ServerPlugin → Option PluginArtifact → Option ServerPlugin
keep p none r = none
keep p (some x) none = some x
keep p (some x) (some r) = if p x r then none else some x

module _ (s : PluginStore) where
  -- A call on installations that comes through: it leaves the servers and artifacts and these
  -- installations.
  abbrev pub Installs :
      {A : Type 0}
      → Settled Thrown A × s.State
      → s.State
      → A
      → (String → String → Option ServerPlugin)
      → Type 0
  Installs (r, u) t a plugins =
      (r ≡ ok a)
      × ((i : String) → s.server_exists i u ≡ s.server_exists i t)
      × ((i : String) → s.artifact i u ≡ s.artifact i t)
      × ((i j : String) → s.installed i j u ≡ plugins i j)

  abbrev pub plugin_set :
      String → String → ServerPlugin → s.State → String → String → Option ServerPlugin
  plugin_set server artifact x t i j =
      if server == i && artifact == j then some x else s.installed i j t

pub record IsPluginStore (s : PluginStore) : Type 0 where
  pub found_artifact :
      (i : String) (t : s.State) (r : PluginArtifact) → s.artifact i t ≡ some r → r.id ≡ i
  pub found_plugin :
      (i j : String) (t : s.State) (x : ServerPlugin)
      → s.installed i j t ≡ some x
      → (x.server_id ≡ i) × (x.artifact_id ≡ j) × (is_some (s.artifact j t) ≡ true)
  pub artifacts_in_count :
      (ids : List String) (t : s.State)
      → distinct_texts ids ≡ true
      → length (s.artifacts_in ids t) ≡ length (filter (λ i. is_some (s.artifact i t)) ids)
  pub servers_of_iff :
      (i j : String) (t : s.State) → contains i (s.servers_of j t) ≡ is_some (s.installed i j t)
  pub delete_plugins_lem :
      (p : Where) (t : s.State)
      → (n : ℕ) × Installs s
          (s.delete_plugins p t)
          t
          n
          (λ i j. keep p (s.installed i j t) (s.artifact j t))
  pub upsert_plugin_found :
      (i j : String) (on : Bool) (new : NewPlugin) (t : s.State) (x : ServerPlugin)
      → s.installed i j t ≡ some x
      → Installs s
          (s.upsert_plugin i j on new t)
          t
          tt
          (plugin_set s i j (record x { enabled = on }) t)
  pub upsert_plugin_new :
      (i j : String) (on : Bool) (new : NewPlugin) (t : s.State)
      → s.installed i j t ≡ none
      → s.server_exists new.server_id t ≡ true
      → is_some (s.artifact new.artifact_id t) ≡ true
      → s.installed new.server_id new.artifact_id t ≡ none
      → (x : ServerPlugin) × (x.enabled ≡ true)
        × Installs s
            (s.upsert_plugin i j on new t)
            t
            tt
            (plugin_set s new.server_id new.artifact_id x t)
  pub delete_artifact_lem :
      (j : String) (t : s.State) (r : PluginArtifact)
      → s.artifact j t ≡ some r
      → ((i : String) → s.installed i j t ≡ none)
      → ((s.delete_artifact j t).0 ≡ ok tt)
        × ((i : String) → s.server_exists i (s.delete_artifact j t).1 ≡ s.server_exists i t)
        × ((k : String)
            → s.artifact k (s.delete_artifact j t).1 ≡ (if j == k then none else s.artifact k t))
        × ((i k : String) → s.installed i k (s.delete_artifact j t).1 ≡ s.installed i k t)

-- The store of the uploaded files; `bucket` comes first.
pub record StoredFile : Type 0 where
  pub key : String
  pub body : List ℕ
  pub content_type : String
  pub sha256 : String
  pub filename : String

pub record FoundFile : Type 0 where
  pub body : Option (List ℕ)
  pub content_type : Option String
  pub content_length : Option ℕ

pub record FileStore : Type 1 where
  pub State : Type 0
  pub head_bucket : String → Action State (Unit {0})
  pub create_bucket : String → Action State (Unit {0})
  pub put_object : String → StoredFile → Action State (Unit {0})
  pub get_object : String → String → Action State FoundFile
  pub delete_object : String → String → Action State (Unit {0})

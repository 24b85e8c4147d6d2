-- ===== src/Plugins/Artifacts.antt =====
-- The artifacts of the registry: registering what a provider offers, uploads, their files, and
-- removing them (apps/backend/src/services/plugin-registry.ts). The hash, the parser of addresses
-- and what is fetched are arguments.
pub mod Registration
use minikura.Common.{
  ℕ, String, Bool, false, not, ◌&&◌, Option, none, some, List, [], ltb, ◌==◌, Settled, ◌>>=◌, ◌>>◌,
  pure, settle, throw_if, or_else, or_option, filled, length,
}
use minikura.Domain.Errors.{Thrown, Action}
use minikura.Plugins.Entities.{
  Provider, modrinth, hangar, upload as uploaded, remote, PluginArtifact, RegistryVersion,
}
use minikura.Plugins.Store.{PluginStore, ArtifactKey}
use minikura.Plugins.Registry.{invalid, differ}

abbrev pub max_upload_bytes : ℕ
max_upload_bytes = 104857600

pub record Url : Type 0 where
  pub protocol : String
  pub hostname : String

-- What a download answers with.
pub record Fetched : Type 0 where
  pub is_ok : Bool
  pub bytes : List ℕ

-- A file of a request; its size is the number of its bytes.
pub record File : Type 0 where
  pub name : String
  pub bytes : List ℕ

unfoldable pub is_allowed : Provider → Url → Bool
is_allowed modrinth url = url.protocol == "https:" && url.hostname == "cdn.modrinth.com"
is_allowed hangar url = url.protocol == "https:" && url.hostname == "hangarcdn.papermc.io"
is_allowed uploaded url = false

module _ {S : Type 0} (parse : String → Settled Thrown Url) where
  unfoldable pub validate_provider_url : Provider → String → Action S (Unit {0})
  unfolding is_allowed
  validate_provider_url provider value = do
    url ← settle (parse value)
    throw_if (not (is_allowed provider url))
        (invalid "Plugin artifact URL is not from the selected provider")

module _ {S : Type 0} (sha256 : List ℕ → String) (fetch : String → Settled Thrown Fetched) where
  unfoldable pub hash_remote_file : String → ℕ → Action S String
  hash_remote_file url expected_size = do
    throw_if (ltb max_upload_bytes expected_size) (invalid "Plugin artifact is too large")
    response ← settle (fetch url)
    throw_if (not response.is_ok) (invalid "Unable to download plugin artifact")
    throw_if (differ (length response.bytes) expected_size) (invalid "Plugin artifact size changed")
    pure (sha256 response.bytes)

  -- `input.sha256 ?? (await this.hashRemoteFile(…))`
  abbrev pub hash_of : Option String → String → ℕ → Action S String
  hash_of (some hash) url size = pure hash
  hash_of none url size = hash_remote_file url size

-- A field that is left out of an update keeps its value.
abbrev keep_unless_given : Option (Option String) → Option String → Option String
keep_unless_given none before = before
keep_unless_given (some given) before = given

abbrev given : Option (Option String) → Option String
given none = none
given (some value) = value

unfoldable pub registered : RegistryVersion → String → PluginArtifact → PluginArtifact
registered input hash artifact = record artifact {
  source_url = some input.download_url;
  sha256 = hash;
  size = input.size;
  name = or_else input.project_name input.project_id;
  license = input.license;
  description = or_option input.description artifact.description;
  author = or_option input.author artifact.author;
  icon_url = keep_unless_given input.icon_url artifact.icon_url;
  project_url = or_option input.project_url artifact.project_url;
  categories = or_else input.categories [];
  provider_updated_at = filled input.updated_at;
}

-- The id and the token are those that the database makes.
unfoldable pub new_artifact : RegistryVersion → String → String → String → PluginArtifact
new_artifact input hash id token = record {
  id = id;
  provider = input.provider;
  provider_project_id = input.project_id;
  provider_version_id = input.version_id;
  name = or_else input.project_name input.project_id;
  version = input.version;
  platform = input.platform;
  minecraft_versions = input.minecraft_versions;
  filename = input.filename;
  size = input.size;
  sha256 = hash;
  source_url = some input.download_url;
  storage_mode = remote;
  object_key = none;
  download_token = token;
  license = input.license;
  description = input.description;
  author = input.author;
  icon_url = given input.icon_url;
  project_url = input.project_url;
  categories = or_else input.categories [];
  provider_updated_at = filled input.updated_at;
}

abbrev pub key_of : RegistryVersion → ArtifactKey
key_of input = record {
  provider = input.provider;
  provider_version_id = input.version_id;
  platform = input.platform;
  filename = input.filename;
}

module _ (s : PluginStore) (parse : String → Settled Thrown Url) (sha256 : List ℕ → String)
    (fetch : String → Settled Thrown Fetched) where
  unfoldable pub register : RegistryVersion → Action s.State PluginArtifact
  unfolding validate_provider_url hash_remote_file registered new_artifact
  register input = do
    validate_provider_url parse input.provider input.download_url
    hash ← hash_of sha256 fetch input.sha256 input.download_url input.size
    s.upsert_artifact (key_of input) (registered input hash) (new_artifact input hash)

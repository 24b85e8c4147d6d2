-- ===== src/Plugins/Files.antt =====
-- The files of artifacts: uploads, downloads, the list with what the providers say, and removal
-- (apps/backend/src/services/plugin-registry.ts).
pub mod Uploads
pub mod Removal
use Prim.Native.Char.{code}
use Prim.Native.String.{slice, len}
use minikura.Common.{
  ℕ, String, Bool, true, false, not, ◌&&◌, ◌||◌, Option, none, some, List, [], ◌∷◌, leb, ltb, ◌+++◌,
  ◌-◌, Settled, ok, thrown, ◌>>=◌, ◌>>◌, pure, gets, settle, throw_if, or_throw, if◌then◌else◌,
  or_else, or_option, lower, ends_with, filled, is_some, unique, length,
}
use minikura.Domain.Errors.{Thrown, Action}
use minikura.Plugins.Entities.{
  modrinth, hangar, upload as uploaded, same_provider, StorageMode, remote, s3, PluginArtifact,
  RegistryProject,
}
use minikura.Plugins.Store.{PluginStore, FileStore, StoredFile, FoundFile}
use minikura.Plugins.Registry.{not_found, invalid, transaction, silently, of_artifact}
use minikura.Plugins.Artifacts.{File, max_upload_bytes}

-- `bytes[0] !== 0x50 || bytes[1] !== 0x4b` does not hold.
abbrev pub is_archive : List ℕ → Bool
is_archive (first ∷ second ∷ _) = leb first 80 && leb 80 first && (leb second 75 && leb 75 second)
is_archive _ = false

-- `name.replace(/\.jar$/i, "")`
abbrev without_jar : String → String
without_jar name = if ends_with ".jar" (lower name) then slice name 0 (len name - 4) else name

unfoldable pub object_key_of : String → String
object_key_of hash = "artifacts/sha256/" +++ slice hash 0 2 +++ "/" +++ hash +++ ".jar"

abbrev pub stored_file : File → String → StoredFile
stored_file file hash = record {
  key = object_key_of hash;
  body = file.bytes;
  content_type = "application/java-archive";
  sha256 = hash;
  filename = file.name;
}

unfoldable pub uploaded_artifact : File → String → String → String → PluginArtifact
unfolding object_key_of
uploaded_artifact file hash id token = record {
  id = id;
  provider = uploaded;
  provider_project_id = hash;
  provider_version_id = hash;
  name = without_jar file.name;
  version = "uploaded";
  platform = "SERVER";
  minecraft_versions = [];
  filename = file.name;
  size = length file.bytes;
  sha256 = hash;
  source_url = none;
  storage_mode = s3;
  object_key = some (object_key_of hash);
  download_token = token;
  license = none;
  description = none;
  author = none;
  icon_url = none;
  project_url = none;
  categories = [];
  provider_updated_at = none;
}

-- What a download comes to.
pub record FileResponse : Type 0 where
  pub body : List ℕ
  pub content_type : String
  pub content_length : ℕ
  pub content_disposition : String
  pub etag : String
  pub cache_control : String

pub data Download : Type 0 where
  redirect : String → Download
  response : FileResponse → Download

-- `value.replaceAll('"', "")`
without_quotes : String → String
without_quotes String.[] = ""
without_quotes (String.◌∷◌ c s) =
    let rest = without_quotes s in
    if leb (code c) b'"' && leb b'"' (code c) then rest else String.◌∷◌ c rest

unfoldable pub response_of : PluginArtifact → FoundFile → List ℕ → FileResponse
unfolding without_quotes
response_of artifact file body = record {
  body = body;
  content_type = or_else (filled file.content_type) "application/java-archive";
  content_length = or_else file.content_length artifact.size;
  content_disposition = "attachment; filename=\"" +++ without_quotes artifact.filename +++ "\"";
  etag = "\"" +++ artifact.sha256 +++ "\"";
  cache_control = "private, max-age=300, immutable";
}

-- The tables beside the stored files.
pub record World (Tables Objects : Type 0) : Type 0 where
  pub db : Tables
  pub files : Objects

module _ {Tables Objects : Type 0} where
  abbrev pub in_db : {A : Type 0} → Action Tables A → Action (World Tables Objects) A
  in_db m w = let (r, db') = m w.db in (r, record w { db = db' })

  abbrev pub in_files : {A : Type 0} → Action Objects A → Action (World Tables Objects) A
  in_files m w = let (r, files') = m w.files in (r, record w { files = files' })

module _ {Objects : Type 0} where
  -- `try { await m } catch { await other }`
  abbrev or_else_call :
      Action Objects (Unit {0})
      → Settled Thrown (Unit {0}) × Objects
      → Settled Thrown (Unit {0}) × Objects
  or_else_call other (ok a, files) = (ok a, files)
  or_else_call other (thrown e, files) = other files

-- `process.env.S3_BUCKET || "minikura-plugins"`
unfoldable pub bucket_name : Option String → String
bucket_name configured = or_else (filled configured) "minikura-plugins"

module _ (f : FileStore) where
  unfoldable pub ensure_bucket : String → Action f.State (Unit {0})
  ensure_bucket bucket files = or_else_call (f.create_bucket bucket) (f.head_bucket bucket files)

module _ (s : PluginStore) (f : FileStore) (s3_bucket : Option String) where
  abbrev pub Registry : Type 0 → Type 0
  Registry A = Action (World s.State f.State) A

  -- What an accepted upload writes.
  abbrev pub keep_object : File → String → Registry (Unit {0})
  keep_object file hash = in_files (f.put_object (bucket_name s3_bucket) (stored_file file hash))

  abbrev pub keep_artifact : File → String → Registry PluginArtifact
  keep_artifact file hash = in_db (
      s.upsert_artifact
        (record {
          provider = uploaded;
          provider_version_id = hash;
          platform = "SERVER";
          filename = file.name;
        })
        (λ artifact. record artifact { object_key = some (object_key_of hash) })
        (uploaded_artifact file hash))

  unfoldable pub upload : (List ℕ → String) → File → Registry PluginArtifact
  unfolding lower ends_with ensure_bucket bucket_name object_key_of uploaded_artifact
  upload sha256 file = do
    throw_if (not (ends_with ".jar" (lower file.name))) (invalid "Plugin upload must be a JAR file")
    throw_if (leb (length file.bytes) 0 || ltb max_upload_bytes (length file.bytes))
        (invalid "Plugin upload must be between 1 byte and 100 MiB")
    throw_if (not (is_archive file.bytes)) (invalid "Plugin upload is not a valid JAR archive")
    in_files (ensure_bucket f (bucket_name s3_bucket))
    keep_object file (sha256 file.bytes)
    keep_artifact file (sha256 file.bytes)

  -- `if (artifact.storage_mode === "S3" && artifact.object_key)`, the file is deleted.
  abbrev pub delete_file : StorageMode → Option String → Registry (Unit {0})
  delete_file s3 (some key) = in_files (f.delete_object (bucket_name s3_bucket) key)
  delete_file _ _ = pure tt

  -- The servers that had the artifact installed, once each.
  unfoldable pub delete_artifact : String → Registry (List String)
  unfolding transaction bucket_name
  delete_artifact artifact_id = do
    found ← gets (λ w. s.artifact artifact_id w.db)
    servers ← gets (λ w. s.servers_of artifact_id w.db)
    artifact ← or_throw found (not_found "Plugin artifact" (some artifact_id))
    delete_file artifact.storage_mode (filled artifact.object_key)
    in_db (
        transaction (
          silently (s.delete_plugins (of_artifact artifact_id))
          ∷ s.delete_artifact artifact_id
          ∷ []))
    pure (unique servers)

  abbrev read_file : PluginArtifact → String → Registry Download
  read_file artifact key = do
    object ← in_files (f.get_object (bucket_name s3_bucket) key)
    body ← or_throw object.body (not_found "Plugin artifact object" none)
    pure (Download.response (response_of artifact object body))

  -- Where the file of an artifact is read from.
  abbrev serve : PluginArtifact → StorageMode → Option String → Registry Download
  serve artifact remote (some url) = pure (Download.redirect url)
  serve artifact mode url = do
    key ← or_throw (filled artifact.object_key) (not_found "Plugin artifact object" none)
    read_file artifact key

  unfoldable pub download : String → Registry Download
  unfolding response_of bucket_name
  download token = do
    found ← gets (λ w. s.artifact_by_token token w.db)
    artifact ← or_throw found (not_found "Plugin artifact" none)
    serve artifact artifact.storage_mode (filled artifact.source_url)

-- An artifact with what its provider says of its project; `read` is the artifact as it was read.
unfoldable pub described : RegistryProject → PluginArtifact → PluginArtifact → PluginArtifact
described project read artifact = record artifact {
  name = project.name;
  description = some project.description;
  author = or_option (filled (some project.author)) read.author;
  icon_url = project.icon_url;
  project_url = some project.project_url;
  license = project.license;
  categories = project.categories;
  provider_updated_at = filled project.updated_at;
}

abbrev pub lacks_metadata : PluginArtifact → Bool
lacks_metadata artifact =
    (same_provider artifact.provider modrinth || same_provider artifact.provider hangar)
    && not (is_some artifact.icon_url)

module _ (s : PluginStore) (ask : PluginArtifact → Settled Thrown RegistryProject) where
  unfoldable pub describe : PluginArtifact → Action s.State (Unit {0})
  unfolding described
  describe artifact = do
    project ← settle (ask artifact)
    s.update_artifact artifact.id (described project artifact)

  -- `Promise.allSettled`: a failure, of the provider or of the update, is not looked at.
  describe_all : List PluginArtifact → s.State → s.State
  unfolding describe
  describe_all [] t = t
  describe_all (artifact ∷ artifacts) t = describe_all artifacts (describe artifact t).1

  abbrev with_servers : s.State → List PluginArtifact → List (PluginArtifact × List String)
  with_servers t [] = []
  with_servers t (artifact ∷ artifacts) =
      (artifact, s.servers_of artifact.id t) ∷ with_servers t artifacts

  unfoldable pub list_artifacts : Action s.State (List (PluginArtifact × List String))
  unfolding describe_all
  list_artifacts t =
      let u = describe_all (s.artifacts lacks_metadata t) t in
      (ok (with_servers u (s.artifacts (λ _. true) u)), u)

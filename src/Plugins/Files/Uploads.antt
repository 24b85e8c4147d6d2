-- ===== src/Plugins/Files/Uploads.antt =====
-- Which uploads are kept, and what is kept of them.
use Prim.Native.String.{slice}
use minikura.Common.{◌+++◌, or_else, filled, ℕ, String, Option, some, List, ◌≡◌, length}
use minikura.Domain.Errors.{Action}
use minikura.Plugins.Entities.{PluginArtifact, StorageMode, upload as uploaded}
use minikura.Plugins.Store.{PluginStore, FileStore}
use minikura.Plugins.Artifacts.{File}
use minikura.Plugins.Files.{upload}

module _ (s : PluginStore) (f : FileStore) (s3_bucket : Option String)
    (sha256 : List ℕ → String) where
  abbrev bucket : String
  bucket = or_else (filled s3_bucket) "minikura-plugins"

  abbrev pub key_for : String → String
  key_for hash = "artifacts/sha256/" +++ slice hash 0 2 +++ "/" +++ hash +++ ".jar"

  -- The row of a new upload: of the file, under a token of its own.
  abbrev pub IsUpload : File → String → String → String → PluginArtifact → Type 0
  IsUpload file hash id token row =
      (row.id ≡ id)
      × (row.download_token ≡ token)
      × (row.provider ≡ uploaded)
      × (row.provider_version_id ≡ hash)
      × (row.sha256 ≡ hash)
      × (row.storage_mode ≡ StorageMode.s3)
      × (row.object_key ≡ some (key_for hash))
      × (row.filename ≡ file.name)
      × (row.size ≡ length file.bytes)

  -- The call on the tables that keeps the upload.
  abbrev pub keeps :
      File → String → (String → String → PluginArtifact) → Action s.State PluginArtifact
  keeps file hash row =
      s.upsert_artifact
        (record {
          provider = uploaded;
          provider_version_id = hash;
          platform = "SERVER";
          filename = file.name;
        })
        (λ artifact. record artifact { object_key = some (key_for hash) }) row

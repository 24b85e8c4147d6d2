-- ===== src/Plugins/Entities.antt =====
-- The data of the registry (packages/db/prisma/schema.prisma, and the types at the head of
-- apps/backend/src/services/plugin-registry.ts). A point in time is the text that the provider
-- sends; the time of a row's creation is left out.
use minikura.Common.{ℕ, String, Bool, true, false, Option, List}

pub data Provider : Type 0 where
  modrinth hangar upload : Provider

abbrev pub same_provider : Provider → Provider → Bool
same_provider modrinth modrinth = true
same_provider hangar hangar = true
same_provider upload upload = true
same_provider _ _ = false

pub data StorageMode : Type 0 where
  remote s3 : StorageMode

pub record PluginArtifact : Type 0 where
  pub id : String
  pub provider : Provider
  pub provider_project_id : String
  pub provider_version_id : String
  pub name : String
  pub version : String
  pub platform : String
  pub minecraft_versions : List String
  pub filename : String
  pub size : ℕ
  pub sha256 : String
  pub source_url : Option String
  pub storage_mode : StorageMode
  pub object_key : Option String
  pub download_token : String
  pub license : Option String
  pub description : Option String
  pub author : Option String
  pub icon_url : Option String
  pub project_url : Option String
  pub categories : List String
  pub provider_updated_at : Option String

pub record ServerPlugin : Type 0 where
  pub id : String
  pub server_id : String
  pub artifact_id : String
  pub enabled : Bool

pub record RegistryProject : Type 0 where
  pub provider : Provider
  pub project_id : String
  pub name : String
  pub description : String
  pub icon_url : Option String
  pub downloads : ℕ
  pub license : Option String
  pub author : String
  pub categories : List String
  pub minecraft_versions : List String
  pub updated_at : Option String
  pub project_url : String

-- A field of a version that may be missing or null has both forms of absence.
pub record RegistryVersion : Type 0 where
  pub provider : Provider
  pub project_id : String
  pub project_name : Option String
  pub version_id : String
  pub version : String
  pub platform : String
  pub minecraft_versions : List String
  pub filename : String
  pub size : ℕ
  pub sha256 : Option String
  pub download_url : String
  pub license : Option String
  pub description : Option String
  pub author : Option String
  pub icon_url : Option (Option String)
  pub project_url : Option String
  pub categories : Option (List String)
  pub updated_at : Option String

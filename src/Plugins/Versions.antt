-- ===== src/Plugins/Versions.antt =====
-- The versions of a plugin that the two providers offer
-- (apps/backend/src/services/plugin-registry.ts). What a provider answers is an argument.
pub mod Offers
use minikura.Common.{
  ℕ, String, Bool, true, false, ◌&&◌, Option, none, some, List, [], ◌∷◌, ◌++◌, ◌==◌, Settled,
  thrown, if◌then◌else◌, or_else, or_option, split, lower, two_parts, lookup, contains,
}
use minikura.Domain.Errors.{DomainError, Thrown}
use minikura.Plugins.Entities.{Provider, modrinth, hangar, RegistryVersion}
use minikura.Plugins.Providers.{modrinth_loader, wanted_version, hangar_platform, settled_map}

pub record ModrinthFile : Type 0 where
  pub filename : String
  pub size : ℕ
  pub url : String
  pub primary : Bool

pub record ModrinthVersion : Type 0 where
  pub id : String
  pub version_number : String
  pub version_type : String
  pub game_versions : List String
  pub loaders : List String
  pub files : List ModrinthFile

pub record HangarDownload : Type 0 where
  pub name : String
  pub size_bytes : ℕ
  pub sha256_hash : String
  pub download_url : Option String
  pub external_url : Option String

-- The id is a number: its decimal digits.
pub record HangarVersion : Type 0 where
  pub id : String
  pub name : String
  pub channel : String
  pub downloads : List (String × HangarDownload)
  pub platform_dependencies : List (String × List String)

-- `files.find((candidate) => candidate.primary)`
abbrev primary_file : List ModrinthFile → Option ModrinthFile
primary_file [] = none
primary_file (file ∷ files) =
    let later = primary_file files in if file.primary then some file else later

abbrev first_file : List ModrinthFile → Option ModrinthFile
first_file [] = none
first_file (file ∷ files) = some file

-- `dependencies[platform]?.includes(version)`, where no version asks for nothing.
abbrev pub supports : Option String → Option (List String) → Bool
supports none versions = true
supports (some version) none = false
supports (some version) (some versions) = contains version versions

-- `download?.downloadUrl ?? download?.externalUrl`
abbrev pub url_of : HangarDownload → Option String
url_of download = or_option download.download_url download.external_url

module _ (project_id platform : String) where
  abbrev pub of_file : ModrinthVersion → Option ModrinthFile → List RegistryVersion
  of_file version none = []
  of_file version (some file) =
      record {
        provider = modrinth;
        project_id = project_id;
        project_name = none;
        version_id = version.id;
        version = version.version_number;
        platform = platform;
        minecraft_versions = version.game_versions;
        filename = file.filename;
        size = file.size;
        sha256 = none;
        download_url = file.url;
        license = none;
        description = none;
        author = none;
        icon_url = none;
        project_url = none;
        categories = none;
        updated_at = none;
      }
      ∷ []

  unfoldable pub modrinth_versions : List ModrinthVersion → List RegistryVersion
  modrinth_versions [] = []
  modrinth_versions (version ∷ versions) =
      let later = modrinth_versions versions in
      if version.version_type == "release"
      then of_file version (or_option (primary_file version.files) (first_file version.files))
        ++ later
      else later

  abbrev pub of_url : HangarVersion → HangarDownload → Option String → List RegistryVersion
  of_url version download none = []
  of_url version download (some url) =
      if url == ""
      then []
      else record {
        provider = hangar;
        project_id = project_id;
        project_name = none;
        version_id = version.id;
        version = version.name;
        platform = platform;
        minecraft_versions =
            or_else (lookup (hangar_platform platform) version.platform_dependencies) [];
        filename = download.name;
        size = download.size_bytes;
        sha256 = some download.sha256_hash;
        download_url = url;
        license = none;
        description = none;
        author = none;
        icon_url = none;
        project_url = none;
        categories = none;
        updated_at = none;
      }
        ∷ []

  abbrev pub of_download : HangarVersion → Option HangarDownload → List RegistryVersion
  of_download version none = []
  of_download version (some download) = of_url version download (url_of download)

  unfoldable pub hangar_versions : Option String → List HangarVersion → List RegistryVersion
  unfolding lower
  hangar_versions wanted [] = []
  hangar_versions wanted (version ∷ versions) =
      let later = hangar_versions wanted versions in
      if lower version.channel == "release"
        && supports wanted (lookup (hangar_platform platform) version.platform_dependencies)
      then of_download version (lookup (hangar_platform platform) version.downloads) ++ later
      else later

-- The parameters of the request to Modrinth.
pub record VersionQuery : Type 0 where
  pub loaders : List String
  pub game_versions : Option (List String)
  pub include_changelog : Bool

abbrev one_version : Option String → Option (List String)
one_version none = none
one_version (some version) = some (version ∷ [])

unfoldable pub version_query : String → Option String → VersionQuery
unfolding modrinth_loader
version_query platform minecraft_version = record {
  loaders = modrinth_loader platform ∷ [];
  game_versions = one_version (wanted_version minecraft_version);
  include_changelog = false;
}

module _ (ask_modrinth : String → VersionQuery → Settled Thrown (List ModrinthVersion))
    (ask_hangar : String → String → Settled Thrown (List HangarVersion)) where
  abbrev pub ask_owner :
      String
      → String
      → Option String
      → Option (String × String)
      → Settled Thrown (List RegistryVersion)
  ask_owner project_id platform wanted none =
      thrown (Thrown.domain (DomainError.validation "Invalid Hangar project ID"))
  ask_owner project_id platform wanted (some (owner, slug)) =
      settled_map (hangar_versions project_id platform wanted) (ask_hangar owner slug)

  -- All but Modrinth is taken for Hangar.
  unfoldable pub versions :
      Provider → String → String → Option String → Settled Thrown (List RegistryVersion)
  unfolding version_query modrinth_versions hangar_versions split
  versions modrinth project_id platform minecraft_version =
      settled_map (modrinth_versions project_id platform)
        (ask_modrinth project_id (version_query platform minecraft_version))
  versions _ project_id platform minecraft_version =
      ask_owner project_id platform (wanted_version minecraft_version)
        (two_parts (split b'/' project_id))

-- ===== src/Plugins/Providers.antt =====
-- The search for plugins at the two providers, and what one of them says of a project
-- (apps/backend/src/services/plugin-registry.ts). What a provider answers to a request is an
-- argument; a request that fails throws.
pub mod Ranking
use minikura.Common.{
  ℕ, String, Bool, not, ◌&&◌, Option, none, some, List, [], ◌∷◌, ◌++◌, map, leb, ◌==◌, ◌+++◌,
  Settled, ok, thrown, if◌then◌else◌, or_else, or_option, split, two_parts,
}
use minikura.Domain.Errors.{DomainError, Thrown}
use minikura.Plugins.Entities.{Provider, modrinth, hangar, upload, RegistryProject}

unfoldable pub modrinth_loader : String → String
modrinth_loader platform =
    if platform == "VELOCITY" then "velocity" else if platform == "FOLIA" then "folia" else "paper"

pub record ModrinthHit : Type 0 where
  pub project_id : String
  pub title : String
  pub description : String
  pub icon_url : Option String
  pub downloads : ℕ
  pub license : Option String
  pub author : String
  pub categories : List String
  pub versions : List String
  pub date_modified : String
  pub slug : Option String

pub record HangarLicense : Type 0 where
  pub type_name : Option String
  pub name : Option String

pub record HangarProject : Type 0 where
  pub owner : String
  pub slug : String
  pub name : String
  pub description : String
  pub avatar_url : Option String
  pub downloads : ℕ
  pub license : Option HangarLicense
  pub category : Option String
  pub last_updated : Option String
  pub member_names : Option (List String)
  pub supported_platforms : Option (List (String × List String))

-- The parameters of the two requests of a search; the facets are written as JSON.
pub record ModrinthQuery : Type 0 where
  pub query : String
  pub limit : ℕ
  pub index : String
  pub facets : List (List String)

pub record HangarQuery : Type 0 where
  pub query : Option String
  pub limit : ℕ
  pub sort : String
  pub platform : String

-- `minecraftVersion && minecraftVersion !== "LATEST"`, and the version.
abbrev pub wanted_version : Option String → Option String
wanted_version none = none
wanted_version (some version) =
    if not (version == "") && not (version == "LATEST") then some version else none

abbrev version_facet : Option String → List (List String)
version_facet none = []
version_facet (some version) = (("versions:" +++ version) ∷ []) ∷ []

unfoldable pub modrinth_query : String → String → Option String → ModrinthQuery
unfolding modrinth_loader
modrinth_query query platform minecraft_version = record {
  query = query;
  limit = 20;
  index = "downloads";
  facets =
      ("project_type:plugin" ∷ [])
      ∷ (("categories:" +++ modrinth_loader platform) ∷ [])
      ∷ version_facet (wanted_version minecraft_version);
}

-- `platform === "FOLIA" ? "PAPER" : platform`
abbrev pub hangar_platform : String → String
hangar_platform platform = if platform == "FOLIA" then "PAPER" else platform

-- `blank` says whether nothing is left of the text when it is trimmed.
unfoldable pub hangar_query : Bool → String → String → HangarQuery
hangar_query blank query platform = record {
  query = if blank then none else some query;
  limit = 20;
  sort = "-downloads";
  platform = hangar_platform platform;
}

unfoldable pub of_hit : ModrinthHit → RegistryProject
of_hit project = record {
  provider = modrinth;
  project_id = project.project_id;
  name = project.title;
  description = project.description;
  icon_url = project.icon_url;
  downloads = project.downloads;
  license = project.license;
  author = project.author;
  categories = project.categories;
  minecraft_versions = project.versions;
  updated_at = some project.date_modified;
  project_url = "https://modrinth.com/plugin/" +++ or_else project.slug project.project_id;
}

-- `license?.type ?? license?.name`
abbrev license_text : Option HangarLicense → Option String
license_text none = none
license_text (some license) = or_option license.type_name license.name

-- `memberNames?.[0] ?? owner`
abbrev first_member : Option (List String) → String → String
first_member (some (name ∷ _)) owner = name
first_member _ owner = owner

abbrev category_list : Option String → List String
category_list none = []
category_list (some category) = if category == "" then [] else category ∷ []

-- `Object.values(platforms ?? {}).flat()`
all_values : List (String × List String) → List String
all_values [] = []
all_values ((_, versions) ∷ platforms) = versions ++ all_values platforms

unfoldable pub of_project : String → String → String → HangarProject → RegistryProject
unfolding all_values
of_project project_id owner slug project = record {
  provider = hangar;
  project_id = project_id;
  name = project.name;
  description = project.description;
  icon_url = project.avatar_url;
  downloads = project.downloads;
  license = license_text project.license;
  author = first_member project.member_names owner;
  categories = category_list project.category;
  minecraft_versions = all_values (or_else project.supported_platforms []);
  updated_at = project.last_updated;
  project_url = "https://hangar.papermc.io/" +++ owner +++ "/" +++ slug;
}

unfoldable pub of_hangar : HangarProject → RegistryProject
unfolding of_project
of_hangar project =
    of_project (project.owner +++ "/" +++ project.slug) project.owner project.slug project

-- `projects.sort((a, b) => b.downloads - a.downloads)`: a stable sort. A project goes in front of
-- those that follow it unless they have more downloads.
unfoldable pub place : RegistryProject → List RegistryProject → List RegistryProject
place project [] = project ∷ []
place project (q ∷ qs) =
    let later = place project qs in
    if leb q.downloads project.downloads then project ∷ q ∷ qs else q ∷ later

unfoldable pub by_downloads : List RegistryProject → List RegistryProject
unfolding place
by_downloads [] = []
by_downloads (project ∷ projects) = place project (by_downloads projects)

-- What a provider contributes: a failure counts as nothing.
abbrev pub fulfilled :
    {A : Type 0} → (A → RegistryProject) → Settled Thrown (List A) → List RegistryProject
fulfilled of (ok found) = map of found
fulfilled of (thrown _) = []

unfoldable pub search :
    (ModrinthQuery → Settled Thrown (List ModrinthHit))
    → (HangarQuery → Settled Thrown (List HangarProject))
    → Bool
    → String
    → String
    → Option String
    → List RegistryProject
unfolding modrinth_query hangar_query of_hit of_hangar by_downloads
search ask_modrinth ask_hangar blank query platform minecraft_version = by_downloads (
    fulfilled of_hit (ask_modrinth (modrinth_query query platform minecraft_version))
    ++ fulfilled of_hangar (ask_hangar (hangar_query blank query platform)))

pub record ModrinthLicense : Type 0 where
  pub id : Option String
  pub name : Option String

pub record ModrinthProject : Type 0 where
  pub title : String
  pub description : String
  pub icon_url : Option String
  pub license : Option ModrinthLicense
  pub categories : List String
  pub updated : Option String
  pub slug : Option String

abbrev modrinth_license : Option ModrinthLicense → Option String
modrinth_license none = none
modrinth_license (some license) = or_option license.id license.name

unfoldable pub of_modrinth : String → ModrinthProject → RegistryProject
of_modrinth project_id project = record {
  provider = modrinth;
  project_id = project_id;
  name = project.title;
  description = project.description;
  icon_url = project.icon_url;
  downloads = 0;
  license = modrinth_license project.license;
  author = "";
  categories = project.categories;
  minecraft_versions = [];
  updated_at = project.updated;
  project_url = "https://modrinth.com/plugin/" +++ or_else project.slug project_id;
}

-- A value of what a call came back with.
abbrev pub settled_map : {A B : Type 0} → (A → B) → Settled Thrown A → Settled Thrown B
settled_map f (ok a) = ok (f a)
settled_map f (thrown e) = thrown e

abbrev hangar_project :
    (String → String → Settled Thrown HangarProject)
    → String
    → Option (String × String)
    → Settled Thrown RegistryProject
hangar_project ask_hangar project_id none =
    thrown (Thrown.domain (DomainError.validation "Invalid Hangar project ID"))
hangar_project ask_hangar project_id (some (owner, slug)) =
    settled_map (of_project project_id owner slug) (ask_hangar owner slug)

unfoldable pub project :
    (String → Settled Thrown ModrinthProject)
    → (String → String → Settled Thrown HangarProject)
    → Provider
    → String
    → Settled Thrown RegistryProject
unfolding of_modrinth of_project split
project ask_modrinth ask_hangar modrinth project_id =
    settled_map (of_modrinth project_id) (ask_modrinth project_id)
project ask_modrinth ask_hangar hangar project_id =
    hangar_project ask_hangar project_id (two_parts (split b'/' project_id))
project ask_modrinth ask_hangar upload project_id =
    thrown (Thrown.domain (DomainError.validation "Uploaded plugins do not have provider metadata"))

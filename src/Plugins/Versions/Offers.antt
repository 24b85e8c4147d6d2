-- ===== src/Plugins/Versions/Offers.antt =====
-- What a version that is offered is.
use minikura.Common.{
  or_option, ◌⊎◌, if◌then◌else◌, subst, split, two_parts, String, Bool, true, ◌&&◌, Option, none,
  some, List, [], ◌∷◌, ◌++◌, All, ◌==◌, ◌≡◌, ◌≢◌, refl, Settled, ok, thrown, arith, eq_iff, lookup,
  lower, or_else, contains, Bool-cases, inl, inr,
}
use minikura.Domain.Errors.{Thrown}
use minikura.Plugins.Entities.{hangar, RegistryVersion}
use minikura.Plugins.Providers.{wanted_version, settled_map}
use minikura.Plugins.Versions.{
  ModrinthVersion, HangarVersion, HangarDownload, of_url, of_download, url_of, supports,
  hangar_versions, VersionQuery, ask_owner, versions,
}

-- The version that is asked for, if any, is among those that are supported.
abbrev pub is_for : Option String → List String → Bool
is_for none supported = true
is_for (some version) supported = contains version supported

-- Hangar keeps what runs on Folia under Paper.
abbrev pub kept_under : String → String
kept_under platform = if platform == "FOLIA" then "PAPER" else platform

-- The offer is what a released version has for the platform: its download, under an address, and
-- the versions of the game that it depends on there.
abbrev pub IsOf : String → Option String → RegistryVersion → HangarVersion → Type 0
IsOf platform wanted offer version =
    (lower version.channel ≡ "release")
    × (offer.version_id ≡ version.id)
    × (offer.version ≡ version.name)
    × (offer.minecraft_versions
        ≡ or_else (lookup (kept_under platform) version.platform_dependencies) [])
    × (is_for wanted offer.minecraft_versions ≡ true)
    × ((download : HangarDownload) × (lookup (kept_under platform) version.downloads
          ≡ some download)
        × (or_option download.download_url download.external_url ≡ some offer.download_url)
        × (offer.download_url ≢ "")
        × (offer.filename ≡ download.name)
        × (offer.size ≡ download.size_bytes)
        × (offer.sha256 ≡ some download.sha256_hash))

-- One of the versions found is the offer's.
abbrev pub IsOfOne : String → Option String → List HangarVersion → RegistryVersion → Type 0
IsOfOne platform wanted [] offer = ⊥
IsOfOne platform wanted (version ∷ found) offer =
    IsOf platform wanted offer version ⊎ IsOfOne platform wanted found offer

-- Of a Hangar project: under this project's id and the platform that was named.
abbrev pub IsHangarOffer :
    String → String → Option String → List HangarVersion → RegistryVersion → Type 0
IsHangarOffer project_id platform wanted found offer =
    (offer.provider ≡ hangar)
    × (offer.project_id ≡ project_id)
    × (offer.platform ≡ platform)
    × IsOfOne platform wanted found offer

module _ (project_id platform : String) (wanted : Option String) where
  abbrev Good : List HangarVersion → List RegistryVersion → Type 0
  Good found = All (IsHangarOffer project_id platform wanted found)

  append-Good :
      (found : List HangarVersion) (xs ys : List RegistryVersion)
      → Good found xs
      → Good found ys
      → Good found (xs ++ ys)
  append-Good found [] ys h k = k
  append-Good found (x ∷ xs) ys (h, hs) k = (h, append-Good found xs ys hs k)

  more-Good :
      (version : HangarVersion) (found : List HangarVersion) (xs : List RegistryVersion)
      → Good found xs
      → Good (version ∷ found) xs
  more-Good version found [] h = tt
  more-Good version found (x ∷ xs) ((a, b, c, h), hs) =
      ((a, b, c, inr h), more-Good version found xs hs)

  for_supported :
      (asked : Option String) (deps : Option (List String))
      → supports asked deps ≡ true
      → is_for asked (or_else deps []) ≡ true
  for_supported none deps h = refl
  for_supported (some version) none h = cc h
  for_supported (some version) (some versions) h = h

  module _ (version : HangarVersion) (found : List HangarVersion)
      (released : lower version.channel ≡ "release")
      (h : is_for wanted (or_else (lookup (kept_under platform) version.platform_dependencies) [])
        ≡ true) where
    of_url-Good :
        (download : HangarDownload) (url : Option String)
        → lookup (kept_under platform) version.downloads ≡ some download
        → or_option download.download_url download.external_url ≡ url
        → Good (version ∷ found) (of_url project_id platform version download url)
    of_url-Good download none there same = tt
    of_url-Good download (some url) there same = elim (Bool-cases (url == "")) [
      | inl e ↦ rw e tt
      | inr e ↦
          let filled : url ≢ "" = λ empty. ground (arith, eq_iff url "") in
          rw e (
            (
              (
                refl,
                refl,
                refl,
                inl (
                  released,
                  refl,
                  refl,
                  refl,
                  h,
                  (download, there, same, filled, refl, refl, refl),
                ),
              ),
              tt,
            ))
    ]

    of_download-Good :
        (d : Option HangarDownload)
        → lookup (kept_under platform) version.downloads ≡ d
        → Good (version ∷ found) (of_download project_id platform version d)
    of_download-Good none there = tt
    of_download-Good (some download) there = of_url-Good download (url_of download) there refl

  hangar_versions-Good :
      (found : List HangarVersion) → Good found (hangar_versions project_id platform wanted found)
  unfolding hangar_versions
  hangar_versions-Good [] = tt
  hangar_versions-Good (version ∷ found) =
      let later =
        more-Good version found (hangar_versions project_id platform wanted found)
          (hangar_versions-Good found) in
      let deps = lookup (kept_under platform) version.platform_dependencies in
      elim (Bool-cases (lower version.channel == "release" && supports wanted deps)) [
        | inr e ↦ rw e later
        | inl e ↦
            let known = for_supported wanted deps (ground arith) in
            let released : lower version.channel ≡ "release" =
              ground (arith, eq_iff (lower version.channel) "release") in
            let there = lookup (kept_under platform) version.downloads in
            rw e (
              append-Good (version ∷ found) (of_download project_id platform version there)
                (hangar_versions project_id platform wanted found)
                (of_download-Good version found released known there refl) later)
      ]

-- What Hangar is asked for is offered from the answer for the owner and the name that the project's
-- id is made of. Each offer is for the project and the platform that were named, and is what one of
-- the released versions in the answer has for this platform, PAPER in place of FOLIA: its download,
-- with an address that is not empty, and its versions of the game. Where a version of the game was
-- named other than LATEST, these include it.
pub versions-IsHangarOffer :
    (ask_modrinth : String → VersionQuery → Settled Thrown (List ModrinthVersion))
    (ask_hangar : String → String → Settled Thrown (List HangarVersion))
    (project_id platform : String) (minecraft_version : Option String)
    (offers : List RegistryVersion)
    → versions ask_modrinth ask_hangar hangar project_id platform minecraft_version ≡ ok offers
    → (owner slug : String) × (found : List HangarVersion) × (two_parts (split b'/' project_id)
        ≡ some (owner, slug))
      × (ask_hangar owner slug ≡ ok found)
      × All (IsHangarOffer project_id platform (wanted_version minecraft_version) found) offers
unfolding versions
versions-IsHangarOffer ask_modrinth ask_hangar project_id platform minecraft_version offers h =
    go (two_parts (split b'/' project_id)) refl h
  where
    wanted : Option String
    wanted = wanted_version minecraft_version

    answered :
        (owner slug : String) (r : Settled Thrown (List HangarVersion))
        → two_parts (split b'/' project_id) ≡ some (owner, slug)
        → ask_hangar owner slug ≡ r
        → settled_map (hangar_versions project_id platform wanted) r ≡ ok offers
        → (owner slug : String) × (found : List HangarVersion) × (two_parts (split b'/' project_id)
            ≡ some (owner, slug))
          × (ask_hangar owner slug ≡ ok found)
          × All (IsHangarOffer project_id platform wanted found) offers
    answered owner slug (thrown e) parts same k = cc k
    answered owner slug (ok found) parts same k = (
      owner,
      slug,
      found,
      parts,
      same,
      subst (All (IsHangarOffer project_id platform wanted found)) (cc k)
          (hangar_versions-Good project_id platform wanted found),
    )

    go :
        (parts : Option (String × String))
        → two_parts (split b'/' project_id) ≡ parts
        → ask_owner ask_modrinth ask_hangar project_id platform wanted parts ≡ ok offers
        → (owner slug : String) × (found : List HangarVersion) × (two_parts (split b'/' project_id)
            ≡ some (owner, slug))
          × (ask_hangar owner slug ≡ ok found)
          × All (IsHangarOffer project_id platform wanted found) offers
    go none same k = cc k
    go (some (owner, slug)) same k = answered owner slug (ask_hangar owner slug) same refl k

-- ===== src/Plugins/Providers/Ranking.antt =====
-- The order of what a search finds.
use mathlib.Core.List.Perm
use mathlib.Core.List.{Perm}
use minikura.Common.{
  ℕ, String, Bool, Option, List, [], ◌∷◌, ◌++◌, All, leb, ◌≤◌, Settled, arith, Bool-cases, inl, inr,
}
use minikura.Domain.Errors.{Thrown}
use minikura.Plugins.Entities.{RegistryProject}
use minikura.Plugins.Providers.{
  ModrinthQuery, ModrinthHit, HangarQuery, HangarProject, modrinth_query, hangar_query, of_hit,
  of_hangar, fulfilled, place, by_downloads, search,
}

-- Each project has at least as many downloads as those after it.
abbrev pub Descending : List RegistryProject → Type 0
Descending [] = Unit
Descending (project ∷ later) = All (λ q. q.downloads ≤ project.downloads) later × Descending later

module _ (bound : ℕ) where
  abbrev Below : List RegistryProject → Type 0
  Below = All (λ q. q.downloads ≤ bound)

  place-Below :
      (project : RegistryProject) (qs : List RegistryProject)
      → project.downloads ≤ bound
      → Below qs
      → Below (place project qs)
  unfolding place
  place-Below project [] h k = (h, tt)
  place-Below project (q ∷ qs) h (k, ks) = elim (Bool-cases (leb q.downloads project.downloads)) [
    | inl e ↦ rw e (h, (k, ks))
    | inr e ↦ rw e (k, place-Below project qs h ks)
  ]

-- A bound on a list is a bound on all below it.
weaken : (a b : ℕ) (qs : List RegistryProject) → a ≤ b → Below a qs → Below b qs
weaken a b [] h k = tt
weaken a b (q ∷ qs) h (k, ks) = (omega arith, weaken a b qs h ks)

place-Descending :
    (project : RegistryProject) (qs : List RegistryProject)
    → Descending qs
    → Descending (place project qs)
unfolding place
place-Descending project [] h = (tt, tt)
place-Descending project (q ∷ qs) (below, later) =
    elim (Bool-cases (leb q.downloads project.downloads)) [
      | inl e ↦
          let h : q.downloads ≤ project.downloads = ground arith in
          rw e ((h, weaken q.downloads project.downloads qs h below), (below, later))
      | inr e ↦
          let h : project.downloads ≤ q.downloads = ground arith in
          rw e (place-Below q.downloads project qs h below, place-Descending project qs later)
    ]

by_downloads-Descending : (projects : List RegistryProject) → Descending (by_downloads projects)
unfolding by_downloads
by_downloads-Descending [] = tt
by_downloads-Descending (project ∷ projects) =
    place-Descending project (by_downloads projects) (by_downloads-Descending projects)

place-Perm :
    (project : RegistryProject) (qs : List RegistryProject) → Perm (place project qs) (project ∷ qs)
unfolding place
place-Perm project [] = Perm.refl (project ∷ [])
place-Perm project (q ∷ qs) = elim (Bool-cases (leb q.downloads project.downloads)) [
  | inl e ↦ rw e (Perm.refl (project ∷ q ∷ qs))
  | inr e ↦ rw e (Perm.trans (Perm.cons q (place-Perm project qs)) (Perm.swap project q qs))
]

by_downloads-Perm : (projects : List RegistryProject) → Perm (by_downloads projects) projects
unfolding by_downloads
by_downloads-Perm [] = Perm.refl []
by_downloads-Perm (project ∷ projects) =
    Perm.trans (place-Perm project (by_downloads projects))
      (Perm.cons project (by_downloads-Perm projects))

-- A search never throws: it answers with the projects of the providers that have answered, all of
-- them and no others, and none of them stands behind one with fewer downloads.
pub search-Descending :
    (ask_modrinth : ModrinthQuery → Settled Thrown (List ModrinthHit))
    (ask_hangar : HangarQuery → Settled Thrown (List HangarProject)) (blank : Bool)
    (query platform : String) (version : Option String)
    → Descending (search ask_modrinth ask_hangar blank query platform version)
      × Perm (search ask_modrinth ask_hangar blank query platform version) (
          fulfilled of_hit (ask_modrinth (modrinth_query query platform version))
          ++ fulfilled of_hangar (ask_hangar (hangar_query blank query platform)))
unfolding search
search-Descending ask_modrinth ask_hangar blank query platform version =
    let found =
      fulfilled of_hit (ask_modrinth (modrinth_query query platform version))
      ++ fulfilled of_hangar (ask_hangar (hangar_query blank query platform)) in
    (by_downloads-Descending found, by_downloads-Perm found)

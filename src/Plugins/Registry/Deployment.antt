-- ===== src/Plugins/Registry/Deployment.antt =====
-- What `deploy` and `reconcile` do on every branch, for tables that keep their laws.
use minikura.Common.{
  String, Bool, true, false, not, ◌&&◌, Option, none, some, List, [], ◌∷◌, ◌==◌, ◌≡◌, ◌∙◌, refl, ap,
  is_some, contains, length, all, unique, Settled, ok, thrown, ◌>>◌, if◌then◌else◌, arith, eq_iff,
  Bool-cases, Option-cases, inl, inr, contains-unique, distinct-unique, all-unique,
  length-filter-all, pure,
}
use minikura.Domain.Errors.{Thrown, Action}
use minikura.Plugins.Entities.{PluginArtifact, same_provider}
use minikura.Plugins.Store.{PluginStore, IsPluginStore}
use minikura.Plugins.Registry.{
  not_found, invalid, differ, other_versions, not_in, install, deploy, reconcile,
}
use minikura.Plugins.Registry.Installing.{Plugins, plugins, Leaves, Condition, drop, replace-Leaves}

-- Another artifact of the same plugin.
abbrev pub other_version : PluginArtifact → Option PluginArtifact → Bool
other_version a none = false
other_version a (some r) =
    same_provider r.provider a.provider
    && r.provider_project_id == a.provider_project_id
    && not (r.id == a.id)

abbrev same_plugin : String → PluginArtifact → Condition
same_plugin server a i j r = i == server && other_version a (some r)

module _ (s : PluginStore) (server : String) (t : s.State) where
  -- The plugins after a deployment: the artifact is in, its other versions are out.
  abbrev pub deployed : PluginArtifact → Plugins
  deployed a i j =
      if server == i && a.id == j
      then some true
      else if server == i && other_version a (s.artifact j t)
      then none
      else plugins s t i j

  abbrev pub Deploys :
      String → Bool → Option PluginArtifact → Settled Thrown PluginArtifact × s.State → Type 0
  Deploys id false found r = r ≡ (thrown (not_found "Server" (some server)), t)
  Deploys id true none r = r ≡ (thrown (not_found "Plugin artifact" (some id)), t)
  Deploys id true (some a) r = Leaves s t a (deployed a) r

  -- The plugins after a reconciliation: of the server exactly those that are asked for.
  abbrev pub reconciled : List String → Plugins
  reconciled ids i j =
      if server == i then (if contains j ids then some true else none) else plugins s t i j

  abbrev pub Reconciles : List String → Bool → Bool → Settled Thrown (Unit {0}) × s.State → Type 0
  Reconciles ids false known r = r ≡ (thrown (not_found "Server" (some server)), t)
  Reconciles ids true false r =
      r ≡ (thrown (invalid "One or more plugin artifacts do not exist"), t)
  Reconciles ids true true r = Leaves s t tt (reconciled ids) r

module _ (s : PluginStore) (laws : IsPluginStore s) (server : String) (t : s.State) where
  answer-Leaves :
      (a : PluginArtifact) (now : Plugins) (m : Action s.State (Unit {0}))
      → Leaves s t tt now (m t)
      → Leaves s t a now ((m >> pure a) t)
  answer-Leaves a now m h = go (m t) h
    where
      go :
          (r : Settled Thrown (Unit {0}) × s.State)
          → Leaves s t tt now r
          → Leaves s t a now ((◌>>◌ (λ _. r) (pure a)) t)
      go (ok x, u) (came, e, f, g) = (refl, e, f, g)
      go (thrown x, u) (came, _, _, _) = cc came

  install-Leaves :
      (a : PluginArtifact)
      → s.server_exists server t ≡ true
      → s.artifact a.id t ≡ some a
      → Leaves s t tt (deployed s server t a) (install s server a t)
  install-Leaves a h k =
      replace-Leaves s laws (other_versions server a) (same_plugin server a) server (a.id ∷ [])
        (deployed s server t a) t (λ y r. refl) h (rw k refl) (λ i j. after a i j (s.artifact j t))
    where
      after :
          (a : PluginArtifact) (i j : String) (r : Option PluginArtifact)
          → (if server == i && contains j (a.id ∷ [])
              then some true
              else drop (same_plugin server a i j) r (plugins s t i j))
            ≡ (if server == i && a.id == j
                then some true
                else if server == i && other_version a r
                then none
                else plugins s t i j)
      after a i j none = ground arith
      after a i j (some r) = ground (arith, eq_iff server i, eq_iff i server)

  -- Deploying an artifact on a server throws for an unknown server or artifact and changes nothing;
  -- otherwise it answers with the artifact, which then is installed on the server and enabled, while
  -- the other versions of its plugin, of the same provider and project, are installed there no more.
  -- What else is installed, the servers and the artifacts are as before.
  pub deploy_lem :
      (id : String)
      → Deploys s server t id (s.server_exists server t) (s.artifact id t) (deploy s server id t)
  unfolding deploy
  deploy_lem id = elim (Bool-cases (s.server_exists server t)) [
    | inr h ↦ rw h refl
    | inl h ↦ elim (Option-cases (s.artifact id t)) [
      | inl k ↦ rw (h, k) refl
      | inr (a, k) ↦
          rw (h, k)
            (answer-Leaves a (deployed s server t a) (install s server a)
              (install-Leaves a h (ap (λ i. s.artifact i t) (laws.found_artifact id t a k) ∙ k)))
    ]
  ]

  -- The two numbers differ exactly when some artifact is not there.
  counted :
      (ids : List String)
      → differ (length (s.artifacts_in (unique ids) t)) (length (unique ids))
        ≡ not (all (λ j. is_some (s.artifact j t)) ids)
  counted ids = rw (laws.artifacts_in_count (unique ids) t (distinct-unique ids)) (
      ap not (
        length-filter-all (λ j. is_some (s.artifact j t)) (unique ids)
        ∙ all-unique (λ j. is_some (s.artifact j t)) ids))

  abbrev unwanted : List String → Condition
  unwanted ids i j r = i == server && not (contains j (unique ids))

  installed_there : (i j : String) → s.artifact j t ≡ none → plugins s t i j ≡ none
  installed_there i j h = elim (Option-cases (s.installed i j t)) [
    | inl k ↦ rw k refl
    | inr (x, k) ↦ let (_, _, there) = laws.found_plugin i j t x k in cc (h, there)
  ]

  after :
      (ids : List String) (i j : String) (r : Option PluginArtifact)
      → (r ≡ none → plugins s t i j ≡ none)
      → (if server == i && contains j (unique ids)
          then some true
          else drop (unwanted ids i j) r (plugins s t i j))
        ≡ reconciled s server t ids i j
  after ids i j none h =
      let gone = h refl in ground (arith, gone, eq_iff server i, contains-unique j ids)
  after ids i j (some r) h = ground (arith, eq_iff server i, eq_iff i server, contains-unique j ids)

  -- Reconciling the plugins of a server with a list of artifacts throws for an unknown server, and
  -- for a list with an unknown artifact, and changes nothing; otherwise the artifacts that are
  -- installed on the server are exactly those of the list, however often and in whatever order
  -- they stand there, all of them enabled. What is installed on other servers, the servers and the
  -- artifacts are as before.
  pub reconcile_lem :
      (ids : List String)
      → Reconciles s server t ids
          (s.server_exists server t)
          (all (λ j. is_some (s.artifact j t)) ids)
          (reconcile s server ids t)
  unfolding reconcile
  reconcile_lem ids = elim (Bool-cases (s.server_exists server t)) [
    | inr h ↦ rw h refl
    | inl h ↦ elim (Bool-cases (all (λ j. is_some (s.artifact j t)) ids)) [
      | inr k ↦ rw (h, k, counted ids ∙ ap not k) refl
      | inl k ↦
          rw (h, k, counted ids ∙ ap not k)
            (replace-Leaves s laws (not_in server (unique ids)) (unwanted ids) server (unique ids)
              (reconciled s server t ids) t (λ y r. refl) h
              (all-unique (λ j. is_some (s.artifact j t)) ids ∙ k)
              (λ i j. after ids i j (s.artifact j t) (installed_there i j)))
    ]
  ]

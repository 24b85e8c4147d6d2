-- ===== src/Plugins/Registry/Installing.antt =====
-- What installing plugins on a server does, for tables that keep their laws.
use minikura.Common.{
  ℕ, String, Bool, true, ◌&&◌, Option, none, some, List, [], ◌∷◌, ◌==◌, ◌≡◌, ◌∙◌, refl, ap, map,
  is_some, contains, all, Settled, ok, thrown, ◌>>◌, atomic, if◌then◌else◌, arith, Bool-cases, inl,
  inr, Option-cases,
}
use minikura.Domain.Errors.{Thrown, Action}
use minikura.Plugins.Entities.{PluginArtifact, ServerPlugin}
use minikura.Plugins.Store.{
  NewPlugin, Where, PluginStore, IsPluginStore, keep, Installs, plugin_set,
}
use minikura.Plugins.Entities.{ServerPlugin}
use minikura.Plugins.Registry.{transaction, run_all, silently, enable}

-- What is installed: for a server and an artifact nothing, or whether it is enabled.
abbrev pub Plugins : Type 0
Plugins = String → String → Option Bool

abbrev pub enabled_of : Option ServerPlugin → Option Bool
enabled_of none = none
enabled_of (some x) = some x.enabled

-- A condition on a server, an artifact's id and the artifact.
abbrev pub Condition : Type 0
Condition = String → String → PluginArtifact → Bool

abbrev pub drop : (PluginArtifact → Bool) → Option PluginArtifact → Option Bool → Option Bool
drop q none status = status
drop q (some r) status = if q r then none else status

module _ (s : PluginStore) where
  abbrev pub plugins : s.State → Plugins
  plugins t i j = enabled_of (s.installed i j t)

  -- A call that comes through with `a` from the state `t`, keeps servers and artifacts, and leaves
  -- these plugins installed.
  abbrev pub Leaves : {A : Type 0} → s.State → A → Plugins → Settled Thrown A × s.State → Type 0
  Leaves t a now (r, u) =
      (r ≡ ok a)
      × ((i : String) → s.server_exists i u ≡ s.server_exists i t)
      × ((i : String) → s.artifact i u ≡ s.artifact i t)
      × ((i j : String) → plugins u i j ≡ now i j)

  abbrev with_plugin : String → String → Plugins → Plugins
  with_plugin server artifact now i j = if server == i && artifact == j then some true else now i j

  abbrev without : Condition → s.State → Plugins
  without q t i j = drop (q i j) (s.artifact j t) (plugins t i j)

  then-Leaves :
      (t : s.State) (m k : Action s.State (Unit {0})) (now later : Plugins)
      → Leaves t tt now (m t)
      → ((u : s.State)
          → ((i : String) → s.server_exists i u ≡ s.server_exists i t)
          → ((i : String) → s.artifact i u ≡ s.artifact i t)
          → ((i j : String) → plugins u i j ≡ now i j)
          → Leaves u tt later (k u))
      → Leaves t tt later ((m >> k) t)
  then-Leaves t m k now later h f = go (m t) h
    where
      go :
          (r : Settled Thrown (Unit {0}) × s.State)
          → Leaves t tt now r
          → Leaves t tt later ((◌>>◌ (λ _. r) k) t)
      go (ok x, u) (came, a, b, c) =
          let (came', a', b', c') = f u a b c in (came', (λ i. a' i ∙ a i), (λ i. b' i ∙ b i), c')
      go (thrown e, u) (came, _, _, _) = cc came

  atomic-Leaves :
      (t : s.State) (now : Plugins) (r : Settled Thrown (Unit {0}) × s.State)
      → Leaves t tt now r
      → Leaves t tt now (atomic r t)
  atomic-Leaves t now (ok x, u) h = h
  atomic-Leaves t now (thrown e, u) (came, _, _, _) = cc came

module _ (s : PluginStore) (laws : IsPluginStore s) where
  drop-keep :
      (p : Where) (q : Condition) (i j : String) (x : Option ServerPlugin)
      (r : Option PluginArtifact)
      → ((y : ServerPlugin) → x ≡ some y → (y.server_id ≡ i) × (y.artifact_id ≡ j))
      → ((y : ServerPlugin) (a : PluginArtifact) → p y a ≡ q y.server_id y.artifact_id a)
      → enabled_of (keep p x r) ≡ drop (q i j) r (enabled_of x)
  drop-keep p q i j none none h e = refl
  drop-keep p q i j none (some a) h e = ground arith
  drop-keep p q i j (some y) none h e = refl
  drop-keep p q i j (some y) (some a) h e =
      let (server, artifact) = h y refl in
      let same = e y a in
      rw (same, server, artifact)
        (elim (Bool-cases (q i j a)) [ inl k ↦ rw k refl | inr k ↦ rw k refl ])

  delete-Leaves :
      (p : Where) (q : Condition) (t : s.State)
      → ((y : ServerPlugin) (a : PluginArtifact) → p y a ≡ q y.server_id y.artifact_id a)
      → Leaves s t tt (without s q t) (silently (s.delete_plugins p) t)
  delete-Leaves p q t e =
      let (n, done) = laws.delete_plugins_lem p t in go n (s.delete_plugins p t) done
    where
      go :
          (n : ℕ) (r : Settled Thrown ℕ × s.State)
          → Installs s r t n (λ i j. keep p (s.installed i j t) (s.artifact j t))
          → Leaves s t tt (without s q t) (silently (λ _. r) t)
      go n (ok m, u) (came, a, b, c) = (
        refl,
        a,
        b,
        λ i j.
            ap enabled_of (c i j)
            ∙ drop-keep p q i j (s.installed i j t) (s.artifact j t)
                (λ y h.
                  let (server, artifact, _) = laws.found_plugin i j t y h in (server, artifact))
                e,
      )
      go n (thrown x, u) (came, _, _, _) = cc came

  enabled :
      (server artifact : String) (t : s.State)
      → s.server_exists server t ≡ true
      → is_some (s.artifact artifact t) ≡ true
      → (x : ServerPlugin) × (x.enabled ≡ true)
        × Installs s (enable s server artifact t) t tt (plugin_set s server artifact x t)
  enabled server artifact t h k =
      let new : NewPlugin = record { server_id = server; artifact_id = artifact } in
      elim (Option-cases (s.installed server artifact t)) [
        | inl e ↦ laws.upsert_plugin_new server artifact true new t e h k e
        | inr (x, e) ↦ (
          record x { enabled = true },
          refl,
          laws.upsert_plugin_found server artifact true new t x e,
        )
      ]

  upsert-Leaves :
      (server artifact : String) (t : s.State)
      → s.server_exists server t ≡ true
      → is_some (s.artifact artifact t) ≡ true
      → Leaves s t tt (with_plugin s server artifact (plugins s t)) (enable s server artifact t)
  upsert-Leaves server artifact t h k =
      let (x, on, (came, a, b, c)) = enabled server artifact t h k in
      (
        came,
        a,
        b,
        λ i j. ap enabled_of (c i j) ∙ elim (Bool-cases (server == i && artifact == j)) [
          | inl e ↦ rw (e, on) refl
          | inr e ↦ rw e refl
        ],
      )

  all_known :
      (u t : s.State) (ids : List String)
      → ((j : String) → s.artifact j u ≡ s.artifact j t)
      → all (λ j. is_some (s.artifact j t)) ids ≡ true
      → all (λ j. is_some (s.artifact j u)) ids ≡ true
  all_known u t [] b k = refl
  all_known u t (id ∷ ids) b k = rw (b id) (ground (arith, all_known u t ids b))

  -- Installing several artifacts that are all there.
  upserts-Leaves :
      (server : String) (ids : List String) (t : s.State)
      → s.server_exists server t ≡ true
      → all (λ j. is_some (s.artifact j t)) ids ≡ true
      → Leaves s t tt
          (λ i j. if server == i && contains j ids then some true else plugins s t i j)
          (run_all (map (enable s server) ids) t)
  upserts-Leaves server [] t h k = (refl, (λ i. refl), (λ i. refl), λ i j. ground arith)
  upserts-Leaves server (id ∷ ids) t h k =
      let here : is_some (s.artifact id t) ≡ true = ground arith in
      then-Leaves s t (enable s server id) (run_all (map (enable s server) ids))
        (with_plugin s server id (plugins s t))
        (λ i j. if server == i && contains j (id ∷ ids) then some true else plugins s t i j)
        (upsert-Leaves server id t h here)
        (λ u a b c.
          let there : all (λ j. is_some (s.artifact j u)) ids ≡ true =
            all_known u t ids b (ground arith) in
          let (came, a', b', c') = upserts-Leaves server ids u (a server ∙ h) there in
          (came, a', b', λ i j. c' i j ∙ rw (c i j) (ground arith)))

  -- Deleting what a condition picks and installing artifacts that are all there, in one transaction.
  pub replace-Leaves :
      (p : Where) (q : Condition) (server : String) (ids : List String) (now : Plugins)
      (t : s.State)
      → ((y : ServerPlugin) (a : PluginArtifact) → p y a ≡ q y.server_id y.artifact_id a)
      → s.server_exists server t ≡ true
      → all (λ j. is_some (s.artifact j t)) ids ≡ true
      → ((i j : String)
          → (if server == i && contains j ids then some true else without s q t i j) ≡ now i j)
      → Leaves s t tt now
          (transaction (silently (s.delete_plugins p) ∷ map (enable s server) ids) t)
  unfolding transaction
  replace-Leaves p q server ids now t e h k same =
      let rest = run_all (map (enable s server) ids) in
      atomic-Leaves s t now (run_all (silently (s.delete_plugins p) ∷ map (enable s server) ids) t)
        (then-Leaves s t (silently (s.delete_plugins p)) rest (without s q t) now
          (delete-Leaves p q t e)
          (λ u a b c.
            let (came, a', b', c') =
              upserts-Leaves server ids u (a server ∙ h) (all_known u t ids b k) in
            (came, a', b', λ i j. c' i j ∙ rw (c i j) (same i j))))

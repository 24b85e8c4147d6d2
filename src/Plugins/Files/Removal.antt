-- ===== src/Plugins/Files/Removal.antt =====
-- What the removal of an artifact does, for tables that keep their laws.
use minikura.Common.{
  subst, sym, ℕ, String, true, Option, none, some, List, [], ◌∷◌, ◌==◌, ◌≡◌, ◌∙◌, refl, ap, is_some,
  contains, unique, distinct_texts, Settled, ok, thrown, ◌>>◌, pure, atomic, if◌then◌else◌, arith,
  eq_iff, eq_refl, Bool-cases, Option-cases, inl, inr, contains-unique, distinct-unique, filled,
  or_else, ◌>>=◌,
}
use minikura.Domain.Errors.{Thrown, Action}
use minikura.Plugins.Entities.{PluginArtifact, StorageMode}
use minikura.Plugins.Store.{PluginStore, IsPluginStore, FileStore, Installs, keep}
use minikura.Plugins.Registry.{not_found, transaction, silently, of_artifact}
use minikura.Plugins.Registry.Installing.{plugins, enabled_of}
use minikura.Plugins.Files.{World, in_db, delete_file, delete_artifact, bucket_name}

module _ (s : PluginStore) where
  -- Both deletions of one artifact.
  abbrev deletion : String → Action s.State (Unit {0})
  deletion id =
      transaction (silently (s.delete_plugins (of_artifact id)) ∷ s.delete_artifact id ∷ [])

  -- Tables without an artifact and its installations.
  abbrev pub Without : String → s.State → s.State → Type 0
  Without id t u =
      ((i : String) → s.server_exists i u ≡ s.server_exists i t)
      × ((k : String) → s.artifact k u ≡ (if id == k then none else s.artifact k t))
      × ((i k : String) → plugins s u i k ≡ (if id == k then none else plugins s t i k))

module _ (s : PluginStore) (laws : IsPluginStore s) where
  uninstalled :
      (id : String) (t : s.State) (i k : String)
      → keep (of_artifact id) (s.installed i k t) (s.artifact k t)
        ≡ (if id == k then none else s.installed i k t)
  uninstalled id t i k = elim (Option-cases (s.installed i k t)) [
    | inl h ↦ rw h (ground arith)
    | inr (x, h) ↦
        let (_, same, there) = laws.found_plugin i k t x h in
        elim (Option-cases (s.artifact k t)) [
          | inl e ↦ cc (e, there)
          | inr (r, e) ↦ rw (h, e, same) (ground (arith, eq_iff id k, eq_iff k id))
        ]
  ]

  split_enabled :
      (id i k : String) (t : s.State)
      → enabled_of (if id == k then none else s.installed i k t)
        ≡ (if id == k then none else plugins s t i k)
  split_enabled id i k t = elim (Bool-cases (id == k)) [ inl h ↦ rw h refl | inr h ↦ rw h refl ]

  -- The second deletion after the first, which has left `u`.
  close :
      (id : String) (t u : s.State) (r : Settled Thrown (Unit {0}) × s.State)
      → ((r.0 ≡ ok tt)
          × ((i : String) → s.server_exists i r.1 ≡ s.server_exists i u)
          × ((k : String) → s.artifact k r.1 ≡ (if id == k then none else s.artifact k u))
          × ((i k : String) → s.installed i k r.1 ≡ s.installed i k u))
      → ((i : String) → s.server_exists i u ≡ s.server_exists i t)
      → ((k : String) → s.artifact k u ≡ s.artifact k t)
      → ((i k : String) → plugins s u i k ≡ (if id == k then none else plugins s t i k))
      → ((atomic ((◌>>◌ (λ _. r) (pure tt)) u) t).0 ≡ ok tt)
        × Without s id t (atomic ((◌>>◌ (λ _. r) (pure tt)) u) t).1
  close id t u (thrown e, v) (came, _, _, _) servers artifacts installed = cc came
  close id t u (ok x, v) (came, a, b, c) servers artifacts installed = (
    refl,
    (
      (λ i. a i ∙ servers i),
      (λ k. b k ∙ ap (λ r. if id == k then none else r) (artifacts k)),
      λ i k. ap enabled_of (c i k) ∙ installed i k,
    ),
  )

  deletion-Without :
      (id : String) (t : s.State) (a : PluginArtifact)
      → s.artifact id t ≡ some a
      → ((deletion s id t).0 ≡ ok tt) × Without s id t (deletion s id t).1
  unfolding transaction
  deletion-Without id t a h =
      let (n, done) = laws.delete_plugins_lem (of_artifact id) t in
      go n (s.delete_plugins (of_artifact id) t) done
    where
      go :
          (n : ℕ) (r : Settled Thrown ℕ × s.State)
          → Installs s r t n (λ i k. keep (of_artifact id) (s.installed i k t) (s.artifact k t))
          → ((atomic ((silently (λ _. r) >> (s.delete_artifact id >> pure tt)) t) t).0 ≡ ok tt)
            × Without s id t
                (atomic ((silently (λ _. r) >> (s.delete_artifact id >> pure tt)) t) t).1
      go n (thrown e, u) (came, _, _, _) = cc came
      go n (ok m, u) (came, servers, artifacts, installed) =
          let none_left : (i : String) → s.installed i id u ≡ none =
            λ i. installed i id ∙ uninstalled id t i id ∙ rw (eq_refl id) refl in
          close id t u (s.delete_artifact id u)
            (laws.delete_artifact_lem id u a (artifacts id ∙ h) none_left) servers artifacts
            (λ i k. ap enabled_of (installed i k ∙ uninstalled id t i k) ∙ split_enabled id i k t)

module _ (s : PluginStore) (f : FileStore) (s3_bucket : Option String) (id : String)
    (w : World s.State f.State) where
  abbrev Outcome : Type 0 → Type 0
  Outcome A = Settled Thrown A × World s.State f.State

  -- The servers that had the artifact installed, once each.
  abbrev pub HadInstalled : List String → Type 0
  HadInstalled servers =
      (distinct_texts servers ≡ true)
      × ((i : String) → contains i servers ≡ is_some (s.installed i id w.db))

  -- What the removal of the file comes to: one that has been uploaded is deleted from the bucket
  -- under its key, and where there is none no file is touched.
  abbrev pub file_removed : StorageMode → Option String → Settled Thrown (Unit {0}) × f.State
  file_removed StorageMode.s3 (some key) =
      if key == ""
      then (ok tt, w.files)
      else f.delete_object (or_else (filled s3_bucket) "minikura-plugins") key w.files
  file_removed StorageMode.s3 none = (ok tt, w.files)
  file_removed StorageMode.remote key = (ok tt, w.files)

  -- After the removal of the file.
  abbrev pub RemovesRows : Settled Thrown (Unit {0}) × f.State → Outcome (List String) → Type 0
  RemovesRows (thrown e, files) (r, u) = (r ≡ thrown e) × (u.db ≡ w.db) × (u.files ≡ files)
  RemovesRows (ok x, files) (r, u) =
      ((servers : List String) × (r ≡ ok servers) × HadInstalled servers)
      × Without s id w.db u.db
      × (u.files ≡ files)

  abbrev pub Removes : Option PluginArtifact → Outcome (List String) → Type 0
  Removes none r = r ≡ (thrown (not_found "Plugin artifact" (some id)), w)
  Removes (some a) r = RemovesRows (file_removed a.storage_mode a.object_key) r

module _ (s : PluginStore) (laws : IsPluginStore s) (f : FileStore) (s3_bucket : Option String)
    (id : String) (w : World s.State f.State) where
  abbrev removed : Settled Thrown (Unit {0}) × f.State → Outcome s f s3_bucket id w (Unit {0})
  removed (r, files) = (r, record w { files = files })

  delete_file-eq :
      (mode : StorageMode) (key : Option String)
      → delete_file s f s3_bucket mode (filled key) w
        ≡ removed (file_removed s f s3_bucket id w mode key)
  unfolding bucket_name
  delete_file-eq StorageMode.remote key = refl
  delete_file-eq StorageMode.s3 none = refl
  delete_file-eq StorageMode.s3 (some key) = elim (Bool-cases (key == "")) [
    | inl e ↦ rw e refl
    | inr e ↦ rw e refl
  ]

  removes_rows :
      (a : PluginArtifact) (r : Settled Thrown (Unit {0}) × f.State)
      → s.artifact id w.db ≡ some a
      → RemovesRows s f s3_bucket id w r (
          (◌>>=◌
              (λ _. removed r)
              (λ _. in_db (deletion s id) >> pure (unique (s.servers_of id w.db))))
            w)
  removes_rows a (thrown e, files) h = (refl, refl, refl)
  removes_rows a (ok x, files) h =
      let (came, left) = deletion-Without s laws id w.db a h in go (deletion s id w.db) came left
    where
      go :
          (q : Settled Thrown (Unit {0}) × s.State)
          → q.0 ≡ ok tt
          → Without s id w.db q.1
          → RemovesRows s f s3_bucket id w
              (ok tt, files)
              ((in_db (λ _. q) >> pure (unique (s.servers_of id w.db)))
                (record w { files = files }))
      go (ok y, d) came left = (
        (
          unique (s.servers_of id w.db),
          refl,
          (
            distinct-unique (s.servers_of id w.db),
            λ i. contains-unique i (s.servers_of id w.db) ∙ laws.servers_of_iff i id w.db,
          ),
        ),
        left,
        refl,
      )
      go (thrown e, d) came left = cc came

  -- Removing an unknown artifact throws and changes nothing. Otherwise the file comes first: that of
  -- an upload is deleted from the bucket under the artifact's key, and nothing else is done to the
  -- files. If that fails the failure is thrown, and the tables are as they were; else the artifact
  -- is gone from the tables, and so are its installations on all servers, everything else in them
  -- is as before, and the answer lists each server that had it installed, once, and no other.
  pub delete_artifact_lem :
      Removes s f s3_bucket id w (s.artifact id w.db) (delete_artifact s f s3_bucket id w)
  unfolding delete_artifact
  delete_artifact_lem = elim (Option-cases (s.artifact id w.db)) [
    | inl h ↦ rw h refl
    | inr (a, h) ↦ rw h (
        subst
          (λ r.
            RemovesRows s f s3_bucket id w
              (file_removed s f s3_bucket id w a.storage_mode a.object_key)
              ((◌>>=◌ (λ _. r) (λ _. in_db (deletion s id) >> pure (unique (s.servers_of id w.db))))
                w))
          (sym (delete_file-eq a.storage_mode a.object_key))
          (removes_rows a (file_removed s f s3_bucket id w a.storage_mode a.object_key) h))
  ]

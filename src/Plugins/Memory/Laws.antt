-- ===== src/Plugins/Memory/Laws.antt =====
-- The laws of the database hold on the tables in memory.
use minikura.Common.{
  String, Bool, true, false, ◌&&◌, Option, none, some, ◌==◌, ◌≡◌, ◌∙◌, refl, ap, subst, sym,
  is_some, ◌+++◌, contains, if◌then◌else◌, arith, eq_iff, Bool-cases, inl, inr,
}
use minikura.Plugins.Entities.{PluginArtifact, ServerPlugin}
use minikura.Plugins.Store.{Where, IsPluginStore, keep}
use minikura.Plugins.Memory.{
  Tables, memory, find_id, plugin, installed, hits, total, find_id-id, found-length,
  contains-filter, find-without,
}

-- An installation from its parts: whether the server and the artifact are there.
abbrev there : Bool → String → String → Option Bool → Option ServerPlugin
there b i j on = if b then plugin i j on else none

there-id :
    (b : Bool) (i j : String) (on : Option Bool) (x : ServerPlugin)
    → there b i j on ≡ some x
    → (b ≡ true) × (x.server_id ≡ i) × (x.artifact_id ≡ j)
there-id false i j on x h = cc h
there-id true i j none x h = cc h
there-id true i j (some on) x h =
    let y : ServerPlugin = record {
      id = i +++ "/" +++ j;
      server_id = i;
      artifact_id = j;
      enabled = on;
    } in
    let same : some y ≡ some x = h in (refl, ap server_of (sym same), ap artifact_of (sym same))
  where
    server_of : Option ServerPlugin → String
    server_of none = i
    server_of (some y) = y.server_id

    artifact_of : Option ServerPlugin → String
    artifact_of none = j
    artifact_of (some y) = y.artifact_id

-- The deletion, with what is there.
deleted :
    (p : Where) (s : Bool) (i j : String) (r : Option PluginArtifact) (on : Option Bool)
    → there (s && is_some r) i j (if hits p (there (s && is_some r) i j on) r then none else on)
      ≡ keep p (there (s && is_some r) i j on) r
deleted p false i j r on = refl
deleted p true i j none on = refl
deleted p true i j (some r) none = refl
deleted p true i j (some r) (some b) = elim (Bool-cases (hits p (plugin i j (some b)) (some r))) [
  | inl h ↦ rw h refl
  | inr h ↦ rw h refl
]

-- An upsert, with what is there.
upserted :
    (b v : Bool) (i j k l : String) (on : Option Bool)
    → (i == k && j == l ≡ true → b ≡ true)
    → there b k l (if i == k && j == l then some v else on)
      ≡ (if i == k && j == l then plugin i j (some v) else there b k l on)
upserted b v i j k l on h = elim (Bool-cases (i == k && j == l)) [
  | inr e ↦ rw e refl
  | inl e ↦
      let same : i ≡ k = ground (arith, eq_iff i k) in
      let same_artifact : j ≡ l = ground (arith, eq_iff j l) in
      rw (e, h e, same, same_artifact) refl
]

there-set :
    (b v : Bool) (i j : String) (on : Option Bool) (x : ServerPlugin)
    → there b i j on ≡ some x
    → plugin i j (some v) ≡ some (record x { enabled = v })
there-set false v i j on x h = cc h
there-set true v i j none x h = cc h
there-set true v i j (some on) x h = ap set h
  where
    set : Option ServerPlugin → Option ServerPlugin
    set none = none
    set (some y) = some (record y { enabled = v })

known :
    (t : Tables) (i j l m : String)
    → contains i t.servers ≡ true
    → is_some (find_id j t.artifacts) ≡ true
    → (i == l && j == m) ≡ true
    → (contains l t.servers && is_some (find_id m t.artifacts)) ≡ true
known t i j l m h k e =
    let same : i ≡ l = ground (arith, eq_iff i l) in
    let same_artifact : j ≡ m = ground (arith, eq_iff j m) in
    rw⁻¹ (same, same_artifact) (rw (h, k) refl)

counted :
    (b c : Bool) (i j : String) (on : Option Bool)
    → (b && is_some (there (b && c) i j on)) ≡ is_some (there (b && c) i j on)
counted false c i j on = refl
counted true c i j on = refl

and_false : (b : Bool) → (b && false) ≡ false
and_false b = ground arith

-- The removal of an artifact that is not installed.
removed :
    (s : Bool) (i j k : String) (r : Option PluginArtifact) (on : Option Bool)
    → ((j == k) ≡ true → there (s && is_some r) i k on ≡ none)
    → there (s && is_some (if j == k then none else r)) i k on ≡ there (s && is_some r) i k on
removed s i j k r on h = elim (Bool-cases (j == k)) [
  | inr e ↦ rw e refl
  | inl e ↦ rw (e, and_false s) (sym (h e))
]

pub memory-IsPluginStore : IsPluginStore memory
memory-IsPluginStore = record {
  found_artifact = λ i t r h. find_id-id i t.artifacts r h;
  found_plugin = λ i j t x h.
      let (both, server, artifact) =
        there-id (contains i t.servers && is_some (find_id j t.artifacts)) i j (t.enabled i j) x
          h in
      (server, artifact, ground arith);
  artifacts_in_count = λ ids t h. found-length ids t.artifacts;
  servers_of_iff = λ i j t.
      contains-filter (λ k. is_some (installed k j t)) i t.servers
      ∙ counted (contains i t.servers) (is_some (find_id j t.artifacts)) i j (t.enabled i j);
  delete_plugins_lem = λ p t. (
    total p t.servers t,
    (
      refl,
      (λ i. refl),
      (λ i. refl),
      λ i j. deleted p (contains i t.servers) i j (find_id j t.artifacts) (t.enabled i j),
    ),
  );
  upsert_plugin_found = λ i j on new t x h.
      let known_both = contains i t.servers && is_some (find_id j t.artifacts) in
      let (both, server, artifact) = there-id known_both i j (t.enabled i j) x h in
      rw h (
        refl,
        (λ l. refl),
        (λ l. refl),
        λ l m.
            upserted (contains l t.servers && is_some (find_id m t.artifacts)) on i j l m
              (t.enabled l m) (λ e. known t i j l m (ground arith) (ground arith) e)
            ∙ ap (λ o. if i == l && j == m then o else installed l m t)
                (there-set known_both on i j (t.enabled i j) x h),
      );
  upsert_plugin_new = λ i j on new t free h k not_yet.
      let n = new.server_id in
      let a = new.artifact_id in
      (
        record { id = n +++ "/" +++ a; server_id = n; artifact_id = a; enabled = true },
        refl,
        rw (free, h, k)
            (
              refl,
              (λ l. refl),
              (λ l. refl),
              λ l m.
                  upserted (contains l t.servers && is_some (find_id m t.artifacts)) true n a l m
                    (t.enabled l m) (λ e. known t n a l m h k e),
            ),
      );
  delete_artifact_lem = λ j t r h none_left. rw h (
    refl,
    (λ i. refl),
    (λ k. find-without j k t.artifacts),
    λ i k. rw (find-without j k t.artifacts) (
        removed (contains i t.servers) i j k (find_id k t.artifacts) (t.enabled i k)
          (λ e. subst (λ l. installed i l t ≡ none) ((eq_iff j k).0 e) (none_left i))),
  );
}

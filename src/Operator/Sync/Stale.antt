-- ===== src/Operator/Sync/Stale.antt =====
-- What the deletion of stale resources does.
use minikura.Common.{
  String, Bool, false, not, ◌&&◌, ◌||◌, Option, none, some, List, [], ◌∷◌, ◌==◌, ◌≡◌, ◌∙◌, refl,
  sym, ap, map, contains, ok, >>=-eq_of_ok, subst, arith, eq_iff, if◌then◌else◌,
}
use minikura.Operator.Cluster.{
  Plural, same_plural, Cluster, IsCluster, Comes, Secrets, Objects, secret_set, object_set,
  secrets_of, objects_of,
}
use minikura.Operator.Specs.{Spec, Settings}
use minikura.Operator.Sync.{delete_resource, delete_stale_resources, all_of, stale}
use minikura.Operator.Sync.Outcomes.{secret_name}
use minikura.Operator.Sync.Steps.{Comes-resp}
use minikura.Operator.Sync.Removal.{delete_resource-Comes}

-- The secrets of a kind's names.
abbrev pub contains_secret : Plural → String → List String → Bool
contains_secret p m [] = false
contains_secret p m (n ∷ ns) = secret_name p n == m || contains_secret p m ns

-- The listing has the name.
abbrev pub listed : String → List (Option String) → Bool
listed n [] = false
listed n (none ∷ items) = listed n items
listed n (some m ∷ items) = m == n || listed n items

-- What is stale: what is listed and not expected.
abbrev pub is_stale : List String → List (Option String) → String → Bool
is_stale expected items n = not (n == "") && not (contains n expected) && listed n items

stale-eq :
    (expected : List String) (items : List (Option String)) (n : String)
    → contains n (stale expected items) ≡ is_stale expected items n
stale-eq expected [] n = ground arith
stale-eq expected (none ∷ items) n = stale-eq expected items n
stale-eq expected (some m ∷ items) n = ground (arith, stale-eq expected items n, eq_iff m n)

module _ (c : Cluster Spec) where
  abbrev secrets_without : Plural → List String → Secrets c → Secrets c
  secrets_without p [] secrets = secrets
  secrets_without p (n ∷ ns) secrets =
      secrets_without p ns (secret_set c (secret_name p n) none secrets)

  abbrev objects_without : Plural → List String → Objects c → Objects c
  objects_without p [] objects = objects
  objects_without p (n ∷ ns) objects = objects_without p ns (object_set c p n none objects)

  objects_without-eq :
      (p : Plural) (ns : List String) (objects : Objects c) (q : Plural) (m : String)
      → objects_without p ns objects q m
        ≡ (if same_plural p q && contains m ns then none else objects q m)
  objects_without-eq p [] objects q m = ground arith
  objects_without-eq p (n ∷ ns) objects q m =
      ground (arith, objects_without-eq p ns (object_set c p n none objects) q m)

  secrets_without-eq :
      (p : Plural) (ns : List String) (secrets : Secrets c) (m : String)
      → secrets_without p ns secrets m ≡ (if contains_secret p m ns then none else secrets m)
  secrets_without-eq p [] secrets m = refl
  secrets_without-eq p (n ∷ ns) secrets m =
      ground (arith, secrets_without-eq p ns (secret_set c (secret_name p n) none secrets) m)

module _ (c : Cluster Spec) (laws : IsCluster c) (p : Plural) where
  all_of-Comes :
      (ns : List String) (t : c.State)
      → Comes c
          (all_of (map (delete_resource c p) ns) t)
          (secrets_without c p ns (secrets_of c t))
          (objects_without c p ns (objects_of c t))
  unfolding all_of
  all_of-Comes [] t = (refl, (λ n. refl), λ q n. refl)
  all_of-Comes (n ∷ ns) t =
      let (came, s, o) = delete_resource-Comes c laws p n t in
      let u = (delete_resource c p n t).1 in
      let (later, s', o') = all_of-Comes ns u in
      (
        rw came later,
        λ m.
            s' m
            ∙ secrets_without-eq c p ns (secrets_of c u) m
            ∙ ap (λ x. if contains_secret p m ns then none else x) (s m)
            ∙ sym (
                secrets_without-eq c p ns (secret_set c (secret_name p n) none (secrets_of c t)) m),
        λ q m.
            o' q m
            ∙ objects_without-eq c p ns (objects_of c u) q m
            ∙ ap (λ x. if same_plural p q && contains m ns then none else x) (o q m)
            ∙ sym (objects_without-eq c p ns (object_set c p n none (objects_of c t)) q m),
      )

module _ (c : Cluster Spec) (laws : IsCluster c) (settings : Settings) where
  -- Where the cluster lists the resources of a kind, the deletion of the stale ones comes through:
  -- of this kind the resources whose name is listed and not expected are gone or marked for
  -- deletion, and their secrets are gone;
  -- all other resources, so all that are expected, and all other secrets are as before.
  pub delete_stale_resources_lem :
      (p : Plural) (expected : List String) (items : List (Option String)) (t : c.State)
      → c.list_objects p t ≡ (ok items, t)
      → Comes c
          (delete_stale_resources c settings p expected t)
          (λ n. if contains_secret p n (stale expected items) then none else c.secret n t)
          (λ q n. if same_plural p q && is_stale expected items n then none else c.object q n t)
  unfolding delete_stale_resources
  delete_stale_resources_lem p expected items t lists =
      let names : List String = stale expected items in
      let secrets : Secrets c = λ n. if contains_secret p n names then none else c.secret n t in
      let objects : Objects c =
        λ q n. if same_plural p q && is_stale expected items n then none else c.object q n t in
      subst (λ r. Comes c r secrets objects)
        (sym (
          >>=-eq_of_ok (c.list_objects p)
            (λ xs. all_of (map (delete_resource c p) (stale expected xs))) lists))
        (Comes-resp c (all_of (map (delete_resource c p) names) t)
          (secrets_without c p names (secrets_of c t)) secrets
          (objects_without c p names (objects_of c t)) objects
          (secrets_without-eq c p names (secrets_of c t))
          (λ q n.
            objects_without-eq c p names (objects_of c t) q n
            ∙ ap (λ b. if same_plural p q && b then none else c.object q n t)
                (stale-eq expected items n))
          (all_of-Comes c laws p names t))

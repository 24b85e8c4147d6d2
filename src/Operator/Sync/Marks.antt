-- ===== src/Operator/Sync/Marks.antt =====
-- Which objects are marked for deletion after the writes of the synchronization: those that were.
use minikura.Common.{
  String, Option, none, ◌⊎◌, ◌≡◌, ◌∙◌, Settled, ok, thrown, Call, ◌>>◌, Option-cases, Bool-cases,
  inl, inr,
}
use minikura.Operator.Cluster.{
  Raised, is_not_found, Plural, Secret, CustomResource, Cluster, IsCluster, Keeps,
}
use minikura.Operator.Specs.{Spec}
use minikura.Operator.Sync.{
  upsert_secret, upsert_resource, delete_secret, ignore_missing, or_create,
}

module _ (c : Cluster Spec) where
  pub then-Keeps :
      (t : c.State) (m k : Call Raised c.State (Unit {0}))
      → Keeps c t (m t)
      → ((u : c.State) → Keeps c u (k u))
      → Keeps c t ((m >> k) t)
  then-Keeps t m k h f = go (m t) h
    where
      go : (r : Settled Raised (Unit {0}) × c.State) → Keeps c t r → Keeps c t ((◌>>◌ (λ _. r) k) t)
      go (ok x, u) kept p n = f u p n ∙ kept p n
      go (thrown e, u) kept p n = kept p n

module _ (c : Cluster Spec) (laws : IsCluster c) where
  or_create-Keeps :
      (create : Option String → Call Raised c.State (Unit {0})) (version : Option String)
      (t : c.State) (r : Settled Raised (Unit {0}) × c.State)
      → ((v : Option String) (u : c.State) → Keeps c u (create v u))
      → Keeps c t r
      → Keeps c t (or_create create version r)
  or_create-Keeps create version t (ok x, u) f h = h
  or_create-Keeps create version t (thrown e, u) f h = elim (Bool-cases (is_not_found e)) [
    | inl y ↦ rw y (λ q m. f version u q m ∙ h q m)
    | inr y ↦ rw y h
  ]

  ignore-Keeps :
      (t : c.State) (r : Settled Raised (Unit {0}) × c.State)
      → Keeps c t r
      → Keeps c t (ignore_missing r)
  ignore-Keeps t (ok x, u) h = h
  ignore-Keeps t (thrown e, u) h = elim (Bool-cases (is_not_found e)) [
    | inl y ↦ rw y h
    | inr y ↦ rw y h
  ]

  pub upsert_secret-Keeps :
      (n : String) (x : Secret) (t : c.State) → Keeps c t (upsert_secret c n x t)
  unfolding upsert_secret
  upsert_secret-Keeps n x t = elim (Option-cases (c.secret n t)) [
    | inl h ↦
        let (e, missing, read) = laws.read_missing n t h in
        rw (read, missing) (laws.create_secret_keeps n x none t)
    | inr (y, h) ↦ rw (laws.read_found n t y h) (
        or_create-Keeps (c.create_secret n x) (c.secret_version n t) t
          (c.replace_secret n x (c.secret_version n t) t) (laws.create_secret_keeps n x)
          (laws.replace_secret_keeps n x (c.secret_version n t) t))
  ]

  read_resource :
      (p : Plural) (x : CustomResource Spec) (t : c.State)
      → (c.object p x.name t ≡ none)
        ⊎ (c.get_object p x.name t ≡ (ok (c.object_version p x.name t), t))
  read_resource p x t = elim (Option-cases (c.object p x.name t)) [
    | inl h ↦ inl h
    | inr (y, h) ↦ inr (laws.get_object_found p x.name t y h)
  ]

  replaced-Keeps :
      (p : Plural) (x : CustomResource Spec) (t : c.State)
      → c.get_object p x.name t ≡ (ok (c.object_version p x.name t), t)
      → Keeps c t (upsert_resource c p x t)
  unfolding upsert_resource
  replaced-Keeps p x t h = rw h (
      or_create-Keeps (c.create_object p x) (c.object_version p x.name t) t
        (c.replace_object p x (c.object_version p x.name t) t) (laws.create_object_keeps p x)
        (laws.replace_object_keeps p x (c.object_version p x.name t) t))

  pub upsert_resource-Keeps :
      (p : Plural) (x : CustomResource Spec) (t : c.State) → Keeps c t (upsert_resource c p x t)
  unfolding upsert_resource
  upsert_resource-Keeps p x t = elim (Bool-cases (c.deleting p x.name t)) [
    | inl d ↦ replaced-Keeps p x t (laws.get_object_deleting p x.name t d)
    | inr d ↦ elim (read_resource p x t) [
      | inr h ↦ replaced-Keeps p x t h
      | inl h ↦
          let (e, missing, read) = laws.get_object_missing p x.name t h d in
          rw (read, missing) (laws.create_object_keeps p x none t)
    ]
  ]

  pub delete_secret-Keeps : (n : String) (t : c.State) → Keeps c t (delete_secret c n t)
  unfolding delete_secret
  delete_secret-Keeps n t = ignore-Keeps t (c.delete_secret n t) (laws.delete_secret_keeps n t)

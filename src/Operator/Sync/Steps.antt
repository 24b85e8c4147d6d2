-- ===== src/Operator/Sync/Steps.antt =====
-- What each write of the synchronization does on a cluster that keeps the laws.
use minikura.Common.{
  ap, Bool-cases, if◌then◌else◌, String, true, Option, none, some, ◌≡◌, ◌∙◌, refl, Settled, ok,
  thrown, Call, ◌>>◌, arith, eq_iff, Option-cases, inl, inr,
}
use minikura.Operator.Cluster.{
  Raised, Plural, same_plural, minecraft_servers, reverse_proxy_servers, Secret, CustomResource,
  Cluster, IsCluster, Comes, Secrets, Objects, secret_set, object_set, secrets_of, objects_of,
}
use minikura.Operator.Specs.{Spec}
use minikura.Operator.Sync.{
  upsert_secret, upsert_resource, delete_secret, ignore_missing, or_create,
}

module _ (c : Cluster Spec) where
  -- A step after a write that came through.
  pub then-Comes :
      (t : c.State) (m k : Call Raised c.State (Unit {0})) (secrets secrets' : Secrets c)
      (objects objects' : Objects c)
      → Comes c (m t) secrets objects
      → ((u : c.State)
          → u ≡ (m t).1
          → ((n : String) → c.secret n u ≡ secrets n)
          → ((p : Plural) (n : String) → c.object p n u ≡ objects p n)
          → Comes c (k u) secrets' objects')
      → Comes c ((m >> k) t) secrets' objects'
  then-Comes t m k secrets secrets' objects objects' h f = go (m t) refl h
    where
      go :
          (r : Settled Raised (Unit {0}) × c.State)
          → r ≡ m t
          → Comes c r secrets objects
          → Comes c ((◌>>◌ (λ _. r) k) t) secrets' objects'
      go (ok x, u) same (came, s, o) = f u (ap (λ r. r.1) same) s o
      go (thrown e, u) same (came, _, _) = cc came

  pub Comes-resp :
      (r : Settled Raised (Unit {0}) × c.State) (secrets secrets' : Secrets c)
      (objects objects' : Objects c)
      → ((n : String) → secrets n ≡ secrets' n)
      → ((p : Plural) (n : String) → objects p n ≡ objects' p n)
      → Comes c r secrets objects
      → Comes c r secrets' objects'
  Comes-resp r secrets secrets' objects objects' f g (came, s, o) =
      (came, (λ n. s n ∙ f n), λ p n. o p n ∙ g p n)

  or_create-Comes :
      (create : Option String → Call Raised c.State (Unit {0})) (version : Option String)
      (r : Settled Raised (Unit {0}) × c.State) (secrets : Secrets c) (objects : Objects c)
      → Comes c r secrets objects
      → Comes c (or_create create version r) secrets objects
  or_create-Comes create version (ok x, u) secrets objects h = h
  or_create-Comes create version (thrown e, u) secrets objects (came, _, _) = cc came

  ignore-Comes :
      (r : Settled Raised (Unit {0}) × c.State) (secrets : Secrets c) (objects : Objects c)
      → Comes c r secrets objects
      → Comes c (ignore_missing r) secrets objects
  ignore-Comes (ok x, u) secrets objects h = h
  ignore-Comes (thrown e, u) secrets objects (came, _, _) = cc came

  secret_absent :
      (n : String) (t : c.State)
      → c.secret n t ≡ none
      → (m : String) → c.secret m t ≡ secret_set c n none (secrets_of c t) m
  secret_absent n t h m = ground (arith, eq_iff n m)

  pub same_plural-eq : (p q : Plural) → same_plural p q ≡ true → p ≡ q
  same_plural-eq minecraft_servers minecraft_servers h = refl
  same_plural-eq reverse_proxy_servers reverse_proxy_servers h = refl
  same_plural-eq minecraft_servers reverse_proxy_servers h = cc
  same_plural-eq reverse_proxy_servers minecraft_servers h = cc

  object_absent :
      (p : Plural) (n : String) (t : c.State)
      → c.object p n t ≡ none
      → (q : Plural) (m : String) → c.object q m t ≡ object_set c p n none (objects_of c t) q m
  object_absent p n t h q m = ground (arith, eq_iff n m, same_plural-eq p q)

  -- What a write of a resource leaves under its name: one that is marked for deletion stays so.
  abbrev pub written : c.State → Plural → CustomResource Spec → Option (CustomResource Spec)
  written t p x = if c.deleting p x.name t then none else some x

module _ (c : Cluster Spec) (laws : IsCluster c) where
  pub upsert_secret-Comes :
      (n : String) (x : Secret) (t : c.State)
      → Comes c (upsert_secret c n x t) (secret_set c n (some x) (secrets_of c t)) (objects_of c t)
  unfolding upsert_secret
  upsert_secret-Comes n x t = elim (Option-cases (c.secret n t)) [
    | inl h ↦
        let (e, missing, read) = laws.read_missing n t h in
        rw (read, missing) (laws.create_new n t x h)
    | inr (y, h) ↦ rw (laws.read_found n t y h) (
        or_create-Comes c (c.create_secret n x) (c.secret_version n t)
          (c.replace_secret n x (c.secret_version n t) t) (secret_set c n (some x) (secrets_of c t))
          (objects_of c t) (laws.replace_found n t y x h))
  ]

  pub upsert_resource-Comes :
      (p : Plural) (x : CustomResource Spec) (t : c.State)
      → Comes c
          (upsert_resource c p x t)
          (secrets_of c t)
          (object_set c p x.name (written c t p x) (objects_of c t))
  unfolding upsert_resource
  upsert_resource-Comes p x t = elim (Bool-cases (c.deleting p x.name t)) [
    | inl d ↦
        rw (laws.get_object_deleting p x.name t d, d)
          (Comes-resp c
            (or_create (c.create_object p x) (c.object_version p x.name t)
              (c.replace_object p x (c.object_version p x.name t) t))
            (secrets_of c t) (secrets_of c t) (objects_of c t)
            (object_set c p x.name none (objects_of c t)) (λ n. refl)
            (object_absent c p x.name t (laws.deleting_hidden p x.name t d))
            (or_create-Comes c (c.create_object p x) (c.object_version p x.name t)
              (c.replace_object p x (c.object_version p x.name t) t) (secrets_of c t)
              (objects_of c t) (laws.replace_object_deleting p t x d)))
    | inr d ↦ elim (Option-cases (c.object p x.name t)) [
      | inl h ↦
          let (e, missing, read) = laws.get_object_missing p x.name t h d in
          rw (read, missing, d) (laws.create_object_new p t x h d)
      | inr (y, h) ↦
          rw (laws.get_object_found p x.name t y h, d)
            (or_create-Comes c (c.create_object p x) (c.object_version p x.name t)
              (c.replace_object p x (c.object_version p x.name t) t) (secrets_of c t)
              (object_set c p x.name (some x) (objects_of c t))
              (laws.replace_object_found p t y x h))
    ]
  ]

  pub delete_secret-Comes :
      (n : String) (t : c.State)
      → Comes c (delete_secret c n t) (secret_set c n none (secrets_of c t)) (objects_of c t)
  unfolding delete_secret
  delete_secret-Comes n t = elim (Option-cases (c.secret n t)) [
    | inl h ↦
        let (e, missing, gone) = laws.delete_missing n t h in
        rw (gone, missing) (refl, secret_absent c n t h, λ p m. refl)
    | inr (y, h) ↦
        ignore-Comes c (c.delete_secret n t) (secret_set c n none (secrets_of c t)) (objects_of c t)
          (laws.delete_found n t y h)
  ]

  pub delete_object-Comes :
      (p : Plural) (n : String) (t : c.State)
      → Comes c
          (ignore_missing (c.delete_object p n t))
          (secrets_of c t)
          (object_set c p n none (objects_of c t))
  delete_object-Comes p n t = elim (Option-cases (c.object p n t)) [
    | inr (y, h) ↦
        ignore-Comes c (c.delete_object p n t) (secrets_of c t)
          (object_set c p n none (objects_of c t)) (laws.delete_object_found p n t y h)
    | inl h ↦ elim (Bool-cases (c.deleting p n t)) [
      | inl d ↦
          ignore-Comes c (c.delete_object p n t) (secrets_of c t)
            (object_set c p n none (objects_of c t))
            (Comes-resp c (c.delete_object p n t) (secrets_of c t) (secrets_of c t) (objects_of c t)
              (object_set c p n none (objects_of c t)) (λ m. refl) (object_absent c p n t h)
              (laws.delete_object_deleting p n t d))
      | inr d ↦
          let (e, missing, gone) = laws.delete_object_missing p n t h d in
          rw (gone, missing) (refl, (λ m. refl), object_absent c p n t h)
    ]
  ]

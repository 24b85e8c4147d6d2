-- ===== src/Operator/Memory.antt =====
-- A cluster in memory, in which a deletion marks an object that then stays, which shows that the laws
-- asked of the cluster's client can hold.
use minikura.Common.{
  String, Bool, true, false, Option, none, some, List, [], ◌∷◌, ◌≡◌, refl, Settled, ok, thrown,
  ◌==◌, ◌&&◌, if◌then◌else◌, arith, eq_iff, is_some, Option-cases, inl, inr,
}
use minikura.Operator.Cluster.{
  Raised, is_not_found, Plural, same_plural, minecraft_servers, reverse_proxy_servers, Secret,
  CustomResource, Cluster, IsCluster, Keeps, objects_of, object_set,
}

abbrev missing : Raised
missing = record { code = some 404; status_code = none; text = "not found" }

abbrev taken : Raised
taken = record { code = some 409; status_code = none; text = "already exists" }

module _ (Spec : Type 0) where
  pub record Shelf : Type 0 where
    pub secrets : String → Option Secret
    pub objects : Plural → List (CustomResource Spec)
    pub marked : Plural → String → Bool

  abbrev pub find : String → List (CustomResource Spec) → Option (CustomResource Spec)
  find n [] = none
  find n (x ∷ xs) = if x.name == n then some x else find n xs

  abbrev pub names : List (CustomResource Spec) → List (Option String)
  names [] = []
  names (x ∷ xs) = some x.name ∷ names xs

  -- A call on something: it is missing, or it is there and `a` and the contents are what follows.
  abbrev answer : {A B : Type 0} → Option A → B → Shelf → Shelf → Settled Raised B × Shelf
  answer none b t t' = (thrown missing, t)
  answer (some a) b t t' = (ok b, t')

  -- A creation, of what must be missing.
  abbrev create : Option (CustomResource Spec) → Shelf → Shelf → Settled Raised (Unit {0}) × Shelf
  create none t t' = (ok tt, t')
  create (some a) t t' = (thrown taken, t)

  abbrev put_secret : String → Option Secret → Shelf → Shelf
  put_secret n x t = record t { secrets = λ m. if n == m then x else t.secrets m }

  -- A newer object comes before the one that it replaces.
  abbrev put : Plural → CustomResource Spec → Shelf → Shelf
  put p x t = record t { objects = λ q. if same_plural p q then x ∷ t.objects q else t.objects q }

  abbrev mark : Plural → String → Bool → Shelf → Shelf
  mark p n b t = record t { marked = λ q m. if same_plural p q && n == m then b else t.marked q m }

  abbrev there : Plural → String → Shelf → Option (CustomResource Spec)
  there p n t = find n (t.objects p)

  abbrev live : Option (CustomResource Spec) → Bool → Option (CustomResource Spec)
  live o marked = if marked then none else o

  abbrev pub shelf : Cluster Spec
  shelf = record {
    State = Shelf;
    secret = λ n t. t.secrets n;
    object = λ p n t. live (there p n t) (t.marked p n);
    deleting = λ p n t. is_some (there p n t) && t.marked p n;
    secret_version = λ n t. none;
    object_version = λ p n t. none;
    read_secret = λ n t. answer (t.secrets n) none t t;
    replace_secret = λ n x v t. answer (t.secrets n) tt t (put_secret n (some x) t);
    create_secret = λ n x v t. (ok tt, put_secret n (some x) t);
    delete_secret = λ n t. answer (t.secrets n) tt t (put_secret n none t);
    get_object = λ p n t. answer (there p n t) none t t;
    replace_object = λ p x v t. answer (there p x.name t) tt t (put p x t);
    create_object = λ p x v t. create (there p x.name t) t (mark p x.name false (put p x t));
    delete_object = λ p n t. answer (there p n t) tt t (mark p n true t);
    list_objects = λ p t. (ok (names (t.objects p)), t);
  }

  put-there :
      (p q : Plural) (x : CustomResource Spec) (m : String) (t : Shelf)
      → there q m (put p x t) ≡ (if same_plural p q && x.name == m then some x else there q m t)
  put-there minecraft_servers minecraft_servers x m t = refl
  put-there minecraft_servers reverse_proxy_servers x m t = refl
  put-there reverse_proxy_servers minecraft_servers x m t = refl
  put-there reverse_proxy_servers reverse_proxy_servers x m t = refl

  same-eq : (p q : Plural) → same_plural p q ≡ true → p ≡ q
  same-eq minecraft_servers minecraft_servers h = refl
  same-eq reverse_proxy_servers reverse_proxy_servers h = refl
  same-eq minecraft_servers reverse_proxy_servers h = cc
  same-eq reverse_proxy_servers minecraft_servers h = cc

  found_there :
      (o : Option (CustomResource Spec)) (b : Bool) (x : CustomResource Spec)
      → live o b ≡ some x
      → (o ≡ some x) × (b ≡ false)
  found_there o true x h = cc h
  found_there o false x h = (h, refl)

  missing_there :
      (o : Option (CustomResource Spec)) (b : Bool)
      → live o b ≡ none
      → (is_some o && b) ≡ false
      → o ≡ none
  missing_there none b h k = refl
  missing_there (some x) true h k = cc k
  missing_there (some x) false h k = cc h

  deleting_there :
      (o : Option (CustomResource Spec)) (b : Bool)
      → (is_some o && b) ≡ true
      → ((x : CustomResource Spec) × (o ≡ some x)) × (b ≡ true)
  deleting_there none b h = cc h
  deleting_there (some x) true h = ((x, refl), refl)
  deleting_there (some x) false h = cc h

  hidden : (o : Option (CustomResource Spec)) (b : Bool) → (is_some o && b) ≡ true → live o b ≡ none
  hidden none b h = cc h
  hidden (some x) true h = refl
  hidden (some x) false h = cc h

  -- The live objects after the writes.
  put-live :
      (p q : Plural) (y : CustomResource Spec) (m : String) (t : Shelf)
      → t.marked p y.name ≡ false
      → live (there q m (put p y t)) (t.marked q m)
        ≡ object_set shelf p y.name (some y) (objects_of shelf t) q m
  put-live p q y m t h = rw (put-there p q y m t) (ground (arith, eq_iff y.name m, same-eq p q))

  kept-live :
      (p q : Plural) (y : CustomResource Spec) (m : String) (t : Shelf)
      → t.marked p y.name ≡ true
      → live (there q m (put p y t)) (t.marked q m) ≡ live (there q m t) (t.marked q m)
  kept-live p q y m t h = rw (put-there p q y m t) (ground (arith, eq_iff y.name m, same-eq p q))

  new-live :
      (p q : Plural) (y : CustomResource Spec) (m : String) (t : Shelf)
      → live
          (there q m (put p y t))
          (if same_plural p q && y.name == m then false else t.marked q m)
        ≡ object_set shelf p y.name (some y) (objects_of shelf t) q m
  new-live p q y m t = rw (put-there p q y m t) (ground arith)

  marked-live :
      (p q : Plural) (n m : String) (t : Shelf)
      → live (there q m t) (if same_plural p q && n == m then true else t.marked q m)
        ≡ object_set shelf p n none (objects_of shelf t) q m
  marked-live p q n m t = ground arith

  again-live :
      (p q : Plural) (n m : String) (t : Shelf)
      → t.marked p n ≡ true
      → live (there q m t) (if same_plural p q && n == m then true else t.marked q m)
        ≡ live (there q m t) (t.marked q m)
  again-live p q n m t h = ground (arith, eq_iff n m, same-eq p q)

  put-marks :
      (p q : Plural) (y x : CustomResource Spec) (m : String) (t : Shelf)
      → there p y.name t ≡ some x
      → (is_some (there q m (put p y t)) && t.marked q m) ≡ (is_some (there q m t) && t.marked q m)
  put-marks p q y x m t h = rw (put-there p q y m t) (ground (arith, eq_iff y.name m, same-eq p q))

  new-marks :
      (p q : Plural) (y : CustomResource Spec) (m : String) (t : Shelf)
      → there p y.name t ≡ none
      → (is_some (there q m (put p y t))
          && (if same_plural p q && y.name == m then false else t.marked q m))
        ≡ (is_some (there q m t) && t.marked q m)
  new-marks p q y m t h = rw (put-there p q y m t) (ground (arith, eq_iff y.name m, same-eq p q))

  answer-Keeps :
      (o : Option Secret) (t u : Shelf) → Keeps shelf t (ok tt, u) → Keeps shelf t (answer o tt t u)
  answer-Keeps none t u h p n = refl
  answer-Keeps (some x) t u h p n = h p n

  replace-Keeps :
      (p : Plural) (y : CustomResource Spec) (t : Shelf)
      → Keeps shelf t (answer (there p y.name t) tt t (put p y t))
  replace-Keeps p y t q m = elim (Option-cases (there p y.name t)) [
    | inl h ↦ rw h refl
    | inr (x, h) ↦ rw h (put-marks p q y x m t h)
  ]

  create-Keeps :
      (p : Plural) (y : CustomResource Spec) (t : Shelf)
      → Keeps shelf t (create (there p y.name t) t (mark p y.name false (put p y t)))
  create-Keeps p y t q m = elim (Option-cases (there p y.name t)) [
    | inl h ↦ rw h (new-marks p q y m t h)
    | inr (x, h) ↦ rw h refl
  ]

  pub shelf-IsCluster : IsCluster shelf
  unfolding is_not_found
  shelf-IsCluster = record {
    read_found = λ n t x h. rw h refl;
    read_missing = λ n t h. (missing, refl, rw h refl);
    replace_found = λ n t x y h. rw h (refl, (λ m. refl), λ p m. refl);
    create_new = λ n t y h. (refl, (λ m. refl), λ p m. refl);
    delete_found = λ n t x h. rw h (refl, (λ m. refl), λ p m. refl);
    delete_missing = λ n t h. (missing, refl, rw h refl);
    get_object_found = λ p n t x h.
        let (here, unmarked) = found_there (there p n t) (t.marked p n) x h in rw here refl;
    get_object_missing =
        λ p n t h d. (missing, refl, rw (missing_there (there p n t) (t.marked p n) h d) refl);
    get_object_deleting = λ p n t d.
        let ((x, here), marked) = deleting_there (there p n t) (t.marked p n) d in rw here refl;
    replace_object_found = λ p t x y h.
        let (here, unmarked) = found_there (there p y.name t) (t.marked p y.name) x h in
        rw here (refl, (λ m. refl), λ q m. put-live p q y m t unmarked);
    replace_object_deleting = λ p t y d.
        let ((x, here), marked) = deleting_there (there p y.name t) (t.marked p y.name) d in
        rw here (refl, (λ m. refl), λ q m. kept-live p q y m t marked);
    create_object_new = λ p t y h d.
        rw (missing_there (there p y.name t) (t.marked p y.name) h d)
          (refl, (λ m. refl), λ q m. new-live p q y m t);
    delete_object_found = λ p n t x h.
        let (here, unmarked) = found_there (there p n t) (t.marked p n) x h in
        rw here (refl, (λ m. refl), λ q m. marked-live p q n m t);
    delete_object_deleting = λ p n t d.
        let ((x, here), marked) = deleting_there (there p n t) (t.marked p n) d in
        rw here (refl, (λ m. refl), λ q m. again-live p q n m t marked);
    delete_object_missing =
        λ p n t h d. (missing, refl, rw (missing_there (there p n t) (t.marked p n) h d) refl);
    deleting_hidden = λ p n t d. hidden (there p n t) (t.marked p n) d;
    replace_secret_keeps =
        λ n x v t. answer-Keeps (t.secrets n) t (put_secret n (some x) t) (λ p m. refl);
    create_secret_keeps = λ n x v t p m. refl;
    delete_secret_keeps = λ n t. answer-Keeps (t.secrets n) t (put_secret n none t) (λ p m. refl);
    replace_object_keeps = λ p y v t. replace-Keeps p y t;
    create_object_keeps = λ p y v t. create-Keeps p y t;
  }

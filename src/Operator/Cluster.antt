-- ===== src/Operator/Cluster.antt =====
-- The cluster as the synchronization uses it: secrets and the two kinds of custom resources of one
-- namespace (apps/backend/src/services/operator-resource-sync.ts). The client library is no part
-- of the program: its calls are parameters, and the laws state what the cluster documents of them
-- while it is reached and nobody else writes. A deletion of an object waits for what the object owns
-- (`propagationPolicy: "Foreground"`): the object may be there with a mark until that is gone. Such
-- an object is read, listed, replaced and deleted as before, and keeps its mark.
use minikura.Common.{
  ℕ, String, Bool, true, false, ◌&&◌, ◌||◌, Option, none, some, List, ◌==◌, ◌≡◌, leb, Settled, ok,
  thrown, Call, if◌then◌else◌,
}

-- What a call may throw, by the fields that are looked at: `code`, and `response.statusCode`.
pub record Raised : Type 0 where
  pub code : Option ℕ
  pub status_code : Option ℕ
  pub text : String

abbrev pub is_404 : Option ℕ → Bool
is_404 none = false
is_404 (some n) = leb n 404 && leb 404 n

unfoldable pub is_not_found : Raised → Bool
is_not_found e = is_404 e.code || is_404 e.status_code

-- The plural names of the two kinds.
pub data Plural : Type 0 where
  minecraft_servers reverse_proxy_servers : Plural

abbrev pub same_plural : Plural → Plural → Bool
same_plural minecraft_servers minecraft_servers = true
same_plural reverse_proxy_servers reverse_proxy_servers = true
same_plural _ _ = false

-- A secret's labels hold the id that it belongs to.
pub record Secret : Type 0 where
  pub database_id : String
  pub api_key : String

pub record CustomResource (Spec : Type 0) : Type 0 where
  pub name : String
  pub database_id : String
  pub spec : Spec

-- A read answers with the version of what is there; a write carries the version that it replaces.
pub record Cluster (Spec : Type 0) : Type 1 where
  pub State : Type 0
  pub secret : String → State → Option Secret
  -- The object that is there and is not marked for deletion.
  pub object : Plural → String → State → Option (CustomResource Spec)
  -- Whether an object is there that is marked for deletion.
  pub deleting : Plural → String → State → Bool
  pub secret_version : String → State → Option String
  pub object_version : Plural → String → State → Option String
  pub read_secret : String → Call Raised State (Option String)
  pub replace_secret : String → Secret → Option String → Call Raised State (Unit {0})
  pub create_secret : String → Secret → Option String → Call Raised State (Unit {0})
  pub delete_secret : String → Call Raised State (Unit {0})
  pub get_object : Plural → String → Call Raised State (Option String)
  pub replace_object : Plural → CustomResource Spec → Option String → Call Raised State (Unit {0})
  pub create_object : Plural → CustomResource Spec → Option String → Call Raised State (Unit {0})
  pub delete_object : Plural → String → Call Raised State (Unit {0})
  pub list_objects : Plural → Call Raised State (List (Option String))

module _ {Spec : Type 0} (c : Cluster Spec) where
  abbrev pub Secrets : Type 0
  Secrets = String → Option Secret

  abbrev pub Objects : Type 0
  Objects = Plural → String → Option (CustomResource Spec)

  -- A call that comes through and leaves these secrets and these objects.
  abbrev pub Comes : Settled Raised (Unit {0}) × c.State → Secrets → Objects → Type 0
  Comes (r, t) secrets objects =
      (r ≡ ok tt)
      × ((n : String) → c.secret n t ≡ secrets n)
      × ((p : Plural) (n : String) → c.object p n t ≡ objects p n)

  abbrev pub IsMissing : {A : Type 0} → c.State → Settled Raised A × c.State → Type 0
  IsMissing t r = (e : Raised) × (is_not_found e ≡ true) × (r ≡ (thrown e, t))

  abbrev pub secret_set : String → Option Secret → Secrets → Secrets
  secret_set n x secrets m = if n == m then x else secrets m

  abbrev pub object_set : Plural → String → Option (CustomResource Spec) → Objects → Objects
  object_set p n x objects q m = if same_plural p q && n == m then x else objects q m

  abbrev pub secrets_of : c.State → Secrets
  secrets_of t n = c.secret n t

  -- The same objects are marked for deletion.
  abbrev pub Keeps : c.State → Settled Raised (Unit {0}) × c.State → Type 0
  Keeps t r = (p : Plural) (n : String) → c.deleting p n r.1 ≡ c.deleting p n t

  abbrev pub objects_of : c.State → Objects
  objects_of t p n = c.object p n t

pub record IsCluster {Spec : Type 0} (c : Cluster Spec) : Type 0 where
  pub read_found :
      (n : String) (t : c.State) (x : Secret)
      → c.secret n t ≡ some x
      → c.read_secret n t ≡ (ok (c.secret_version n t), t)
  pub read_missing :
      (n : String) (t : c.State) → c.secret n t ≡ none → IsMissing c t (c.read_secret n t)
  pub replace_found :
      (n : String) (t : c.State) (x y : Secret)
      → c.secret n t ≡ some x
      → Comes c
          (c.replace_secret n y (c.secret_version n t) t)
          (secret_set c n (some y) (secrets_of c t))
          (objects_of c t)
  pub create_new :
      (n : String) (t : c.State) (y : Secret)
      → c.secret n t ≡ none
      → Comes c
          (c.create_secret n y none t)
          (secret_set c n (some y) (secrets_of c t))
          (objects_of c t)
  pub delete_found :
      (n : String) (t : c.State) (x : Secret)
      → c.secret n t ≡ some x
      → Comes c (c.delete_secret n t) (secret_set c n none (secrets_of c t)) (objects_of c t)
  pub delete_missing :
      (n : String) (t : c.State) → c.secret n t ≡ none → IsMissing c t (c.delete_secret n t)
  pub get_object_found :
      (p : Plural) (n : String) (t : c.State) (x : CustomResource Spec)
      → c.object p n t ≡ some x
      → c.get_object p n t ≡ (ok (c.object_version p n t), t)
  pub get_object_missing :
      (p : Plural) (n : String) (t : c.State)
      → c.object p n t ≡ none
      → c.deleting p n t ≡ false
      → IsMissing c t (c.get_object p n t)
  pub get_object_deleting :
      (p : Plural) (n : String) (t : c.State)
      → c.deleting p n t ≡ true
      → c.get_object p n t ≡ (ok (c.object_version p n t), t)
  pub replace_object_found :
      (p : Plural) (t : c.State) (x y : CustomResource Spec)
      → c.object p y.name t ≡ some x
      → Comes c
          (c.replace_object p y (c.object_version p y.name t) t)
          (secrets_of c t)
          (object_set c p y.name (some y) (objects_of c t))
  pub replace_object_deleting :
      (p : Plural) (t : c.State) (y : CustomResource Spec)
      → c.deleting p y.name t ≡ true
      → Comes c
          (c.replace_object p y (c.object_version p y.name t) t)
          (secrets_of c t)
          (objects_of c t)
  pub create_object_new :
      (p : Plural) (t : c.State) (y : CustomResource Spec)
      → c.object p y.name t ≡ none
      → c.deleting p y.name t ≡ false
      → Comes c
          (c.create_object p y none t)
          (secrets_of c t)
          (object_set c p y.name (some y) (objects_of c t))
  pub delete_object_found :
      (p : Plural) (n : String) (t : c.State) (x : CustomResource Spec)
      → c.object p n t ≡ some x
      → Comes c (c.delete_object p n t) (secrets_of c t) (object_set c p n none (objects_of c t))
  pub delete_object_deleting :
      (p : Plural) (n : String) (t : c.State)
      → c.deleting p n t ≡ true
      → Comes c (c.delete_object p n t) (secrets_of c t) (objects_of c t)
  pub delete_object_missing :
      (p : Plural) (n : String) (t : c.State)
      → c.object p n t ≡ none
      → c.deleting p n t ≡ false
      → IsMissing c t (c.delete_object p n t)
  -- Only the deletion of an object marks one.
  pub deleting_hidden :
      (p : Plural) (n : String) (t : c.State) → c.deleting p n t ≡ true → c.object p n t ≡ none
  pub replace_secret_keeps :
      (n : String) (x : Secret) (v : Option String) (t : c.State)
      → Keeps c t (c.replace_secret n x v t)
  pub create_secret_keeps :
      (n : String) (x : Secret) (v : Option String) (t : c.State)
      → Keeps c t (c.create_secret n x v t)
  pub delete_secret_keeps : (n : String) (t : c.State) → Keeps c t (c.delete_secret n t)
  pub replace_object_keeps :
      (p : Plural) (y : CustomResource Spec) (v : Option String) (t : c.State)
      → Keeps c t (c.replace_object p y v t)
  pub create_object_keeps :
      (p : Plural) (y : CustomResource Spec) (v : Option String) (t : c.State)
      → Keeps c t (c.create_object p y v t)

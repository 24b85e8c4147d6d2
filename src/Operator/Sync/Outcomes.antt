-- ===== src/Operator/Sync/Outcomes.antt =====
-- What the synchronization of one server or reverse proxy does.
use Prim.Native.String.{count}
use minikura.Common.{
  true, String, false, none, some, ◌&&◌, ◌≡◌, ◌≢◌, ◌∙◌, refl, sym, ap, ◌+++◌, ◌==◌, Settled, ok,
  ◌>>◌, >>=-eq_of_ok, subst, arith, eq_iff, eq_refl, if◌then◌else◌, Bool-cases, inl, inr,
}
use text.Mathlib.TextLemmas.{length-append}
use minikura.Operator.Names.{operator_resource_name}
use minikura.Operator.Cluster.{
  Raised, Plural, same_plural, minecraft_servers, reverse_proxy_servers, Secret, CustomResource,
  Keeps, Cluster, IsCluster, Comes, Secrets, Objects, secret_set, object_set, secrets_of,
  objects_of,
}
use minikura.Operator.Specs.{
  Spec, ServerSpec, server_spec, proxy_spec, Settings, SyncedServer, server_spec_of, proxy_spec_of,
}
use minikura.Servers.Entities.{ReverseProxyServer, WithEnvVars}
use minikura.Operator.Sync.{
  resource_name, raised, upsert_secret, upsert_resource, delete_secret, prefix, sync_server,
}
use minikura.Servers.Store.{distinct}
use minikura.Operator.Specs.Described.{Describes, server_spec_of-Describes}
use minikura.Operator.Sync.Marks.{
  then-Keeps, upsert_secret-Keeps, upsert_resource-Keeps, delete_secret-Keeps,
}
use minikura.Operator.Sync.Steps.{
  written, then-Comes, Comes-resp, upsert_secret-Comes, upsert_resource-Comes, delete_secret-Comes,
}

-- The secret of a server's or a proxy's key, and the one that earlier versions kept it in.
abbrev pub secret_name : Plural → String → String
secret_name p id = prefix p +++ id +++ "-api-key"

abbrev pub legacy_name : String → String
legacy_name id = id +++ "-api-key"

-- What a server's or a proxy's row is synchronized to.
abbrev pub server_secret : SyncedServer → Secret
server_secret s = record { database_id = s.server.row.id; api_key = s.server.row.api_key }

abbrev pub proxy_secret : WithEnvVars ReverseProxyServer → Secret
proxy_secret p = record { database_id = p.row.id; api_key = p.row.api_key }

module _ (settings : Settings) where
  abbrev pub server_resource : SyncedServer → CustomResource Spec
  server_resource s = record {
    name = s.server.row.id;
    database_id = s.server.row.id;
    spec = server_spec (server_spec_of settings (secret_name minecraft_servers s.server.row.id) s);
  }

  abbrev pub proxy_resource : WithEnvVars ReverseProxyServer → CustomResource Spec
  proxy_resource p = record {
    name = p.row.id;
    database_id = p.row.id;
    spec = proxy_spec (proxy_spec_of settings (secret_name reverse_proxy_servers p.row.id) p);
  }

prefix-length : (p : Plural) → count (prefix p) ≡ 3
prefix-length minecraft_servers = refl
prefix-length reverse_proxy_servers = refl

-- The two are never the same: their lengths differ.
legacy-ne-secret : (p : Plural) (id : String) → legacy_name id ≢ secret_name p id
legacy-ne-secret p id e =
    let all : count (legacy_name id) ≡ count (secret_name p id) = ap count e in
    let split = length-append (prefix p) (legacy_name id) in
    let some_prefix = prefix-length p in omega arith

legacy-secret : (p : Plural) (id : String) → (legacy_name id == secret_name p id) ≡ false
legacy-secret p id = elim (Bool-cases (legacy_name id == secret_name p id)) [
  | inl h ↦ absurd (legacy-ne-secret p id ((eq_iff (legacy_name id) (secret_name p id)).0 h))
  | inr h ↦ h
]

module _ (c : Cluster Spec) (laws : IsCluster c) where
  pub writes-Comes :
      (p : Plural) (id : String) (x : Secret) (r : CustomResource Spec) (t : c.State)
      → Comes c
          ((upsert_secret c (secret_name p id) x
              >> (upsert_resource c p r >> delete_secret c (legacy_name id)))
            t)
          (secret_set c
            (legacy_name id)
            none
            (secret_set c (secret_name p id) (some x) (secrets_of c t)))
          (object_set c p r.name (written c t p r) (objects_of c t))
  writes-Comes p id x r t =
      let secrets = secret_set c (secret_name p id) (some x) (secrets_of c t) in
      let objects = object_set c p r.name (written c t p r) (objects_of c t) in
      let secrets' = secret_set c (legacy_name id) none secrets in
      then-Comes c t (upsert_secret c (secret_name p id) x)
        (upsert_resource c p r >> delete_secret c (legacy_name id)) secrets secrets'
        (objects_of c t) objects (upsert_secret-Comes c laws (secret_name p id) x t)
        (λ u after s o.
          let marked : c.deleting p r.name u ≡ c.deleting p r.name t =
            ap (c.deleting p r.name) after
            ∙ upsert_secret-Keeps c laws (secret_name p id) x t p r.name in
          then-Comes c u (upsert_resource c p r) (delete_secret c (legacy_name id)) secrets secrets'
            objects objects
            (Comes-resp c (upsert_resource c p r u) (secrets_of c u) secrets
              (object_set c p r.name (written c u p r) (objects_of c u)) objects s
              (λ q m.
                ap (λ y. if same_plural p q && r.name == m then written c u p r else y) (o q m)
                ∙ ap
                    (λ b.
                      if same_plural p q && r.name == m
                      then (if b then none else some r)
                      else objects_of c t q m)
                    marked)
              (upsert_resource-Comes c laws p r u))
            (λ v now s' o'.
              Comes-resp c (delete_secret c (legacy_name id) v)
                (secret_set c (legacy_name id) none (secrets_of c v)) secrets' (objects_of c v)
                objects (λ n. ap (λ y. if legacy_name id == n then none else y) (s' n)) o'
                (delete_secret-Comes c laws (legacy_name id) v)))

  pub writes-Keeps :
      (p : Plural) (id : String) (x : Secret) (r : CustomResource Spec) (t : c.State)
      → Keeps c t (
          (upsert_secret c (secret_name p id) x
              >> (upsert_resource c p r >> delete_secret c (legacy_name id)))
            t)
  writes-Keeps p id x r t =
      then-Keeps c t (upsert_secret c (secret_name p id) x)
        (upsert_resource c p r >> delete_secret c (legacy_name id))
        (upsert_secret-Keeps c laws (secret_name p id) x t)
        (λ u.
          then-Keeps c u (upsert_resource c p r) (delete_secret c (legacy_name id))
            (upsert_resource-Keeps c laws p r u) (delete_secret-Keeps c laws (legacy_name id)))

module _ (c : Cluster Spec) where
  live_secret :
      (p : Plural) (id : String) (x : Secret) (r : Settled Raised (Unit {0}) × c.State)
      (secrets : Secrets c) (objects : Objects c)
      → Comes c r
          (secret_set c (legacy_name id) none (secret_set c (secret_name p id) (some x) secrets))
          objects
      → c.secret (secret_name p id) r.1 ≡ some x
  live_secret p id x r secrets objects (_, s, _) =
      s (secret_name p id) ∙ rw (legacy-secret p id) (rw (eq_refl (secret_name p id)) refl)

module _ (c : Cluster Spec) (laws : IsCluster c) (settings : Settings) (t : c.State) where
  sync_server-eq :
      (s : SyncedServer)
      → operator_resource_name s.server.row.id ≡ ok s.server.row.id
      → sync_server c settings s t
        ≡ (upsert_secret c (secret_name minecraft_servers s.server.row.id) (server_secret s)
              >> (upsert_resource c minecraft_servers (server_resource settings s)
                  >> delete_secret c (legacy_name s.server.row.id)))
            t
  unfolding sync_server
  sync_server-eq s valid =
      >>=-eq_of_ok (resource_name c s.server.row.id)
        (λ name.
          upsert_secret c ("mc-" +++ name +++ "-api-key") (server_secret s)
          >> (upsert_resource c minecraft_servers (record {
            name = name;
            database_id = s.server.row.id;
            spec = server_spec (server_spec_of settings ("mc-" +++ name +++ "-api-key") s);
          })
              >> delete_secret c (name +++ "-api-key")))
        (ap (λ r. (raised r, t)) valid)

  pub sync_server-Comes :
      (s : SyncedServer)
      → operator_resource_name s.server.row.id ≡ ok s.server.row.id
      → Comes c
          (sync_server c settings s t)
          (secret_set c (legacy_name s.server.row.id) none (
            secret_set c
              (secret_name minecraft_servers s.server.row.id)
              (some (server_secret s))
              (secrets_of c t)))
          (object_set c minecraft_servers s.server.row.id
            (written c t minecraft_servers (server_resource settings s))
            (objects_of c t))
  sync_server-Comes s valid =
      subst
        (λ r.
          Comes c r
            (secret_set c (legacy_name s.server.row.id) none (
              secret_set c (secret_name minecraft_servers s.server.row.id) (some (server_secret s))
                (secrets_of c t)))
            (object_set c minecraft_servers s.server.row.id
              (written c t minecraft_servers (server_resource settings s)) (objects_of c t)))
        (sym (sync_server-eq s valid))
        (writes-Comes c laws minecraft_servers s.server.row.id (server_secret s)
          (server_resource settings s) t)

  pub sync_server-Keeps :
      (s : SyncedServer)
      → operator_resource_name s.server.row.id ≡ ok s.server.row.id
      → Keeps c t (sync_server c settings s t)
  sync_server-Keeps s valid = subst (Keeps c t) (sym (sync_server-eq s valid)) (
      writes-Keeps c laws minecraft_servers s.server.row.id (server_secret s)
        (server_resource settings s) t)

  -- Synchronizing a server with a valid id and no variable twice, whose resource is not being
  -- deleted, comes through on a cluster that is reached. Then the resource of its name has the
  -- fields of its row, and for its environment the server's variables with the addresses of its
  -- enabled plugins in PLUGINS; the secret that this resource refers to holds its API key, and the
  -- secret of the earlier form is gone; all other resources and secrets are as before.
  pub sync_server_lem :
      (s : SyncedServer)
      → operator_resource_name s.server.row.id ≡ ok s.server.row.id
      → distinct s.server.env_variables ≡ true
      → c.deleting minecraft_servers s.server.row.id t ≡ false
      → let id = s.server.row.id in
        let kept : Secret = record { database_id = id; api_key = s.server.row.api_key } in
        (spec : ServerSpec) × Describes settings s spec
        × Comes c
            (sync_server c settings s t)
            (secret_set c
              (id +++ "-api-key")
              none
              (secret_set c spec.api_key_secret_ref (some kept) (secrets_of c t)))
            (object_set c minecraft_servers id
              (some (record { name = id; database_id = id; spec = server_spec spec }))
              (objects_of c t))
        × (c.secret spec.api_key_secret_ref (sync_server c settings s t).1 ≡ some kept)
  unfolding server_spec_of
  sync_server_lem s valid once here =
      let id = s.server.row.id in
      let (came, secrets, objects) = sync_server-Comes s valid in
      let ref = secret_name minecraft_servers id in
      (
        server_spec_of settings ref s,
        server_spec_of-Describes settings s once,
        (
          came,
          secrets,
          λ q m.
              objects q m
              ∙ ap
                  (λ b.
                    if same_plural minecraft_servers q && id == m
                    then (if b then none else some (server_resource settings s))
                    else objects_of c t q m)
                  here,
        ),
        live_secret c minecraft_servers id (server_secret s) (sync_server c settings s t)
            (secrets_of c t)
            (object_set c minecraft_servers id
              (written c t minecraft_servers (server_resource settings s)) (objects_of c t))
            (came, secrets, objects),
      )

-- ===== src/Operator/Sync/Proxies.antt =====
-- What the synchronization of one reverse proxy does.
use minikura.Common.{none, some, ◌≡◌, sym, ap, ◌+++◌, ok, ◌>>◌, >>=-eq_of_ok, subst}
use minikura.Operator.Names.{operator_resource_name}
use minikura.Operator.Cluster.{
  reverse_proxy_servers, Keeps, Cluster, IsCluster, Comes, secret_set, object_set, secrets_of,
  objects_of,
}
use minikura.Operator.Specs.{Spec, proxy_spec, Settings, proxy_spec_of}
use minikura.Servers.Entities.{ReverseProxyServer, WithEnvVars}
use minikura.Operator.Sync.{
  resource_name, raised, upsert_secret, upsert_resource, delete_secret, sync_reverse_proxy,
}
use minikura.Operator.Sync.Steps.{written}
use minikura.Operator.Sync.Outcomes.{
  secret_name, legacy_name, proxy_secret, proxy_resource, writes-Comes, writes-Keeps,
}

module _ (c : Cluster Spec) (laws : IsCluster c) (settings : Settings) (t : c.State) where
  sync_reverse_proxy-eq :
      (p : WithEnvVars ReverseProxyServer)
      → operator_resource_name p.row.id ≡ ok p.row.id
      → sync_reverse_proxy c settings p t
        ≡ (upsert_secret c (secret_name reverse_proxy_servers p.row.id) (proxy_secret p)
              >> (upsert_resource c reverse_proxy_servers (proxy_resource settings p)
                  >> delete_secret c (legacy_name p.row.id)))
            t
  unfolding sync_reverse_proxy
  sync_reverse_proxy-eq p valid =
      >>=-eq_of_ok (resource_name c p.row.id)
        (λ name.
          upsert_secret c ("rp-" +++ name +++ "-api-key") (proxy_secret p)
          >> (upsert_resource c reverse_proxy_servers (record {
            name = name;
            database_id = p.row.id;
            spec = proxy_spec (proxy_spec_of settings ("rp-" +++ name +++ "-api-key") p);
          })
              >> delete_secret c (name +++ "-api-key")))
        (ap (λ r. (raised r, t)) valid)

  pub sync_reverse_proxy-Comes :
      (p : WithEnvVars ReverseProxyServer)
      → operator_resource_name p.row.id ≡ ok p.row.id
      → Comes c
          (sync_reverse_proxy c settings p t)
          (secret_set c (legacy_name p.row.id) none (
            secret_set c
              (secret_name reverse_proxy_servers p.row.id)
              (some (proxy_secret p))
              (secrets_of c t)))
          (object_set c reverse_proxy_servers p.row.id
            (written c t reverse_proxy_servers (proxy_resource settings p))
            (objects_of c t))
  sync_reverse_proxy-Comes p valid =
      subst
        (λ r.
          Comes c r
            (secret_set c (legacy_name p.row.id) none (
              secret_set c (secret_name reverse_proxy_servers p.row.id) (some (proxy_secret p))
                (secrets_of c t)))
            (object_set c reverse_proxy_servers p.row.id
              (written c t reverse_proxy_servers (proxy_resource settings p)) (objects_of c t)))
        (sym (sync_reverse_proxy-eq p valid))
        (writes-Comes c laws reverse_proxy_servers p.row.id (proxy_secret p)
          (proxy_resource settings p) t)

  pub sync_reverse_proxy-Keeps :
      (p : WithEnvVars ReverseProxyServer)
      → operator_resource_name p.row.id ≡ ok p.row.id
      → Keeps c t (sync_reverse_proxy c settings p t)
  sync_reverse_proxy-Keeps p valid = subst (Keeps c t) (sym (sync_reverse_proxy-eq p valid)) (
      writes-Keeps c laws reverse_proxy_servers p.row.id (proxy_secret p)
        (proxy_resource settings p) t)

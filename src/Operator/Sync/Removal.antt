-- ===== src/Operator/Sync/Removal.antt =====
-- What the removal of a server's resource does, and what the removal of the earlier secret may do.
use minikura.Common.{
  String, true, none, ◌≡◌, ◌∙◌, refl, sym, ap, ◌+++◌, ◌==◌, ok, >>=-eq_of_ok, subst, eq_iff,
  if◌then◌else◌,
}
use text.Mathlib.TextLemmas.{append_assoc}
use minikura.Operator.Names.{operator_resource_name}
use minikura.Operator.Cluster.{
  Plural, minecraft_servers, Cluster, IsCluster, Comes, secret_set, object_set, secrets_of,
  objects_of,
}
use minikura.Operator.Specs.{Spec, Settings, SyncedServer}
use minikura.Operator.Sync.{
  resource_name, raised, delete_secret, delete_resource, ignore_missing, sync_server, delete_server,
}
use minikura.Operator.Sync.Steps.{then-Comes, Comes-resp, delete_secret-Comes, delete_object-Comes}
use minikura.Operator.Sync.Outcomes.{secret_name, legacy_name, sync_server-Comes}

module _ (c : Cluster Spec) (laws : IsCluster c) where
  pub delete_resource-Comes :
      (p : Plural) (id : String) (t : c.State)
      → Comes c
          (delete_resource c p id t)
          (secret_set c (secret_name p id) none (secrets_of c t))
          (object_set c p id none (objects_of c t))
  unfolding delete_resource
  delete_resource-Comes p id t =
      let name = secret_name p id in
      let objects = object_set c p id none (objects_of c t) in
      then-Comes c t (λ u. ignore_missing (c.delete_object p id u)) (delete_secret c name)
        (secrets_of c t) (secret_set c name none (secrets_of c t)) objects objects
        (delete_object-Comes c laws p id t)
        (λ u after s o.
          Comes-resp c (delete_secret c name u) (secret_set c name none (secrets_of c u))
            (secret_set c name none (secrets_of c t)) (objects_of c u) objects
            (λ n. ap (λ y. if name == n then none else y) (s n)) o
            (delete_secret-Comes c laws name u))

module _ (c : Cluster Spec) (laws : IsCluster c) (settings : Settings) (t : c.State) where
  -- Removing a server with a valid id comes through on a cluster that is reached, whether or not
  -- its resource and its secret are there; afterwards the secret is not, the resource is not either
  -- or is marked for deletion, and all others are as before.
  pub delete_server_resource_lem :
      (id : String)
      → operator_resource_name id ≡ ok id
      → Comes c
          (delete_server c settings true id t)
          (secret_set c (secret_name minecraft_servers id) none (secrets_of c t))
          (object_set c minecraft_servers id none (objects_of c t))
  unfolding delete_server
  delete_server_resource_lem id valid =
      subst
        (λ r.
          Comes c r (secret_set c (secret_name minecraft_servers id) none (secrets_of c t))
            (object_set c minecraft_servers id none (objects_of c t)))
        (sym (
          >>=-eq_of_ok (resource_name c id) (delete_resource c minecraft_servers)
            (ap (λ r. (raised r, t)) valid)))
        (delete_resource-Comes c laws minecraft_servers id t)

  -- Synchronizing the server `mc-x` takes away the secret that the resource of the server `x`
  -- refers to, whatever it held: it is the earlier form of the name of the secret of `mc-x`.
  pub sync_server_takes_secret :
      (s : SyncedServer) (x : String)
      → s.server.row.id ≡ "mc-" +++ x
      → operator_resource_name ("mc-" +++ x) ≡ ok ("mc-" +++ x)
      → c.secret (secret_name minecraft_servers x) (sync_server c settings s t).1 ≡ none
  sync_server_takes_secret s x same valid =
      let (_, secrets, _) = sync_server-Comes c laws settings t s (rw same valid) in
      let hit =
        (eq_iff (legacy_name s.server.row.id) (secret_name minecraft_servers x)).1
          (ap legacy_name same ∙ append_assoc "mc-" x "-api-key") in
      secrets (secret_name minecraft_servers x) ∙ rw hit refl

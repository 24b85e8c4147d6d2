-- ===== src/Operator/Sync.antt =====
-- The synchronization of the database with the cluster
-- (apps/backend/src/services/operator-resource-sync.ts). Calls that the code starts together run
-- here in the order of their start.
pub mod Steps
pub mod Marks
pub mod Outcomes
pub mod Proxies
pub mod Removal
pub mod Stale
pub mod Runs
pub mod Convergence
pub mod Tests
use minikura.Common.{
  String, Bool, true, false, not, ◌&&◌, ◌||◌, ◌==◌, Option, none, some, List, [], ◌∷◌, ◌++◌, ◌+++◌,
  map, contains, Settled, ok, thrown, Call, ◌>>=◌, ◌>>◌, pure, throw, if◌then◌else◌,
}
use minikura.Domain.Errors
use minikura.Domain.Errors.{Thrown}
use minikura.Operator.Names.{operator_resource_name}
use minikura.Operator.Cluster.{
  Raised, is_not_found, Plural, minecraft_servers, reverse_proxy_servers, Secret, CustomResource,
  Cluster,
}
use minikura.Operator.Specs.{
  Spec, server_spec, proxy_spec, Settings, SyncedServer, server_spec_of, proxy_spec_of,
}
use minikura.Servers.Entities.{ReverseProxyServer, WithEnvVars}

-- An error of the program has neither field that tells of a missing object.
abbrev pub raised : {A : Type 0} → Settled Thrown A → Settled Raised A
raised (ok a) = ok a
raised (thrown (Thrown.domain e)) =
    thrown (record { code = none; status_code = none; text = Errors.message e })
raised (thrown (Thrown.error name text)) =
    thrown (record { code = none; status_code = none; text = text })
raised (thrown (Thrown.value v)) = thrown (record { code = none; status_code = none; text = "" })

abbrev pub first_failure :
    Settled Raised (Unit {0}) → Settled Raised (Unit {0}) → Settled Raised (Unit {0})
first_failure (ok _) later = later
first_failure (thrown e) later = thrown e

abbrev pub failure_of : Settled Raised (Unit {0}) → List Raised
failure_of (ok _) = []
failure_of (thrown e) = e ∷ []

module _ {W : Type 0} where
  -- `catch (error) { if (!this.isNotFound(error)) throw error; }`
  abbrev pub ignore_missing : Settled Raised (Unit {0}) × W → Settled Raised (Unit {0}) × W
  ignore_missing (ok a, w) = (ok a, w)
  ignore_missing (thrown e, w) = if not (is_not_found e) then (thrown e, w) else (ok tt, w)

  -- `catch (error) { if (!this.isNotFound(error)) throw error; await create(…); }`
  abbrev pub or_create :
      (Option String → Call Raised W (Unit {0}))
      → Option String
      → Settled Raised (Unit {0}) × W
      → Settled Raised (Unit {0}) × W
  or_create create version (ok a, w) = (ok a, w)
  or_create create version (thrown e, w) =
      if not (is_not_found e) then (thrown e, w) else create version w

  -- The write after the read; a body that has taken over the version keeps it.
  abbrev pub replace_or_create :
      (Option String → Call Raised W (Unit {0}))
      → (Option String → Call Raised W (Unit {0}))
      → Settled Raised (Option String) × W
      → Settled Raised (Unit {0}) × W
  replace_or_create replace create (ok version, w) = or_create create version (replace version w)
  replace_or_create replace create (thrown e, w) = or_create create none (thrown e, w)

  -- `Promise.all`: every call runs, and the first failure is the outcome.
  unfoldable pub all_of : List (Call Raised W (Unit {0})) → Call Raised W (Unit {0})
  all_of [] w = (ok tt, w)
  all_of (m ∷ ms) w =
      let (r, w1) = m w in let (later, w2) = all_of ms w1 in (first_failure r later, w2)

  -- `Promise.allSettled`, and the failures of it.
  unfoldable pub failures_of : List (Call Raised W (Unit {0})) → W → List Raised × W
  failures_of [] w = ([], w)
  failures_of (m ∷ ms) w =
      let (r, w1) = m w in let (later, w2) = failures_of ms w1 in (failure_of r ++ later, w2)

-- `${plural === "minecraftservers" ? "mc" : "rp"}-`
abbrev pub prefix : Plural → String
prefix minecraft_servers = "mc-"
prefix reverse_proxy_servers = "rp-"

-- The names that are listed, are no empty text, and are not expected.
abbrev pub stale : List String → List (Option String) → List String
stale expected [] = []
stale expected (none ∷ items) = stale expected items
stale expected (some name ∷ items) =
    if not (name == "") && not (contains name expected)
    then name ∷ stale expected items
    else stale expected items

module _ (c : Cluster Spec) where
  abbrev pub Sync : Type 0 → Type 0
  Sync A = Call Raised c.State A

  abbrev pub resource_name : String → Sync String
  resource_name id t = (raised (operator_resource_name id), t)

  unfoldable pub upsert_secret : String → Secret → Sync (Unit {0})
  unfolding is_not_found
  upsert_secret name secret t =
      replace_or_create (c.replace_secret name secret) (c.create_secret name secret)
        (c.read_secret name t)

  unfoldable pub upsert_resource : Plural → CustomResource Spec → Sync (Unit {0})
  unfolding is_not_found
  upsert_resource plural resource t =
      replace_or_create (c.replace_object plural resource) (c.create_object plural resource)
        (c.get_object plural resource.name t)

  unfoldable pub delete_secret : String → Sync (Unit {0})
  unfolding is_not_found
  delete_secret name t = ignore_missing (c.delete_secret name t)

  unfoldable pub delete_resource : Plural → String → Sync (Unit {0})
  unfolding is_not_found delete_secret
  delete_resource plural name = do
    λ t. ignore_missing (c.delete_object plural name t)
    delete_secret (prefix plural +++ name +++ "-api-key")

module _ (c : Cluster Spec) (settings : Settings) where
  unfoldable pub sync_server : SyncedServer → Sync c (Unit {0})
  unfolding upsert_secret upsert_resource delete_secret server_spec_of
  sync_server s = do
    name ← resource_name c s.server.row.id
    upsert_secret c ("mc-" +++ name +++ "-api-key")
        (record { database_id = s.server.row.id; api_key = s.server.row.api_key })
    upsert_resource c minecraft_servers (record {
      name = name;
      database_id = s.server.row.id;
      spec = server_spec (server_spec_of settings ("mc-" +++ name +++ "-api-key") s);
    })
    delete_secret c (name +++ "-api-key")

  unfoldable pub sync_reverse_proxy : WithEnvVars ReverseProxyServer → Sync c (Unit {0})
  unfolding upsert_secret upsert_resource delete_secret proxy_spec_of
  sync_reverse_proxy p = do
    name ← resource_name c p.row.id
    upsert_secret c ("rp-" +++ name +++ "-api-key")
        (record { database_id = p.row.id; api_key = p.row.api_key })
    upsert_resource c reverse_proxy_servers (record {
      name = name;
      database_id = p.row.id;
      spec = proxy_spec (proxy_spec_of settings ("rp-" +++ name +++ "-api-key") p);
    })
    delete_secret c (name +++ "-api-key")

  unfoldable pub delete_stale_resources : Plural → List String → Sync c (Unit {0})
  unfolding delete_resource all_of
  delete_stale_resources plural expected = do
    items ← c.list_objects plural
    all_of (map (delete_resource c plural) (stale expected items))

  -- `names.map((…) => operatorResourceName(…))`
  pub names_of : List String → Sync c (List String)
  names_of [] = pure []
  names_of (id ∷ ids) = do name ← resource_name c id; names ← names_of ids; pure (name ∷ names)

  -- The names of the servers are made first, and those of the proxies after the first deletion has
  -- been started.
  unfoldable pub delete_all_stale :
      List SyncedServer → List (WithEnvVars ReverseProxyServer) → Sync c (Unit {0})
  unfolding delete_stale_resources names_of all_of
  delete_all_stale servers proxies = do
    names ← names_of (map (λ s. s.server.row.id) servers)
    all_of (
        delete_stale_resources minecraft_servers names
        ∷ (names_of (map (λ p. p.row.id) proxies) >>= delete_stale_resources reverse_proxy_servers)
        ∷ [])

  abbrev logged : Settled Raised (Unit {0}) × c.State → List Raised × c.State
  logged (r, t) = (failure_of r, t)

  -- After the synchronizations, whose failures keep what is stale.
  abbrev after_all :
      List SyncedServer
      → List (WithEnvVars ReverseProxyServer)
      → List Raised × c.State
      → List Raised × c.State
  after_all servers proxies ([], t) = logged (delete_all_stale servers proxies t)
  after_all servers proxies (e ∷ es, t) = (e ∷ es, t)

  abbrev sync_read :
      Settled Raised (List SyncedServer × List (WithEnvVars ReverseProxyServer))
      → c.State
      → List Raised × c.State
  sync_read (thrown e) t = (e ∷ [], t)
  sync_read (ok (servers, proxies)) t =
      after_all servers proxies
        (failures_of (map sync_server servers ++ map sync_reverse_proxy proxies) t)

  -- The errors that a run logs. `syncing` says whether an earlier run has not ended, `connected`
  -- whether there is a client, and `database` is what the database answers.
  unfoldable pub sync_all :
      Bool
      → Bool
      → Settled Raised (List SyncedServer × List (WithEnvVars ReverseProxyServer))
      → c.State
      → List Raised × c.State
  unfolding sync_server sync_reverse_proxy failures_of delete_all_stale
  sync_all syncing connected database t =
      if syncing || not connected then ([], t) else sync_read database t

  abbrev require_clients : Bool → Sync c (Unit {0})
  require_clients true = pure tt
  require_clients false = throw (record {
    code = none;
    status_code = none;
    text = "Kubernetes operator resource synchronization is unavailable";
  })

  abbrev sync_found : {A : Type 0} → (A → Sync c (Unit {0})) → Option A → Sync c (Unit {0})
  sync_found sync none = pure tt
  sync_found sync (some a) = sync a

  unfoldable pub sync_server_by_id : Bool → Option SyncedServer → Sync c (Unit {0})
  unfolding sync_server
  sync_server_by_id connected server =
      if not connected then pure tt else sync_found sync_server server

  unfoldable pub sync_reverse_proxy_by_id :
      Bool → Option (WithEnvVars ReverseProxyServer) → Sync c (Unit {0})
  unfolding sync_reverse_proxy
  sync_reverse_proxy_by_id connected proxy = do
    require_clients connected
    sync_found sync_reverse_proxy proxy

  unfoldable pub delete_server : Bool → String → Sync c (Unit {0})
  unfolding delete_resource
  delete_server connected id = do
    require_clients connected
    name ← resource_name c id
    delete_resource c minecraft_servers name

  unfoldable pub delete_reverse_proxy : Bool → String → Sync c (Unit {0})
  unfolding delete_resource
  delete_reverse_proxy connected id = do
    require_clients connected
    name ← resource_name c id
    delete_resource c reverse_proxy_servers name

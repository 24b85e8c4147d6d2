-- ===== src/Operator/Sync/Runs.antt =====
-- What the synchronization of all rows of a kind does.
use minikura.Common.{
  ◌||◌, String, Bool, true, false, Option, none, some, List, [], ◌∷◌, ◌++◌, ◌==◌, ◌≡◌, ◌∙◌, refl,
  map, contains, is_some, or_option, ok, Call, arith, if◌then◌else◌, Bool-cases, inl, inr,
}
use minikura.Servers.Entities.{ReverseProxyServer, WithEnvVars}
use minikura.Operator.Names.{operator_resource_name}
use minikura.Operator.Cluster.{
  Raised, Plural, same_plural, Keeps, Cluster, CustomResource, Comes, Secrets, objects_of,
  object_set,
}
use minikura.Operator.Specs.{Spec, Settings, SyncedServer}
use minikura.Operator.Sync.{failures_of}
use minikura.Operator.Sync.Outcomes.{server_resource, proxy_resource}
use minikura.Operator.Sync.Stale.{listed}

-- Ids that the synchronization takes as they are.
abbrev pub AreValid : List String → Type 0
AreValid [] = Unit
AreValid (id ∷ ids) = (operator_resource_name id ≡ ok id) × AreValid ids

abbrev pub server_ids : List SyncedServer → List String
server_ids servers = map (λ s. s.server.row.id) servers

abbrev pub proxy_ids : List (WithEnvVars ReverseProxyServer) → List String
proxy_ids proxies = map (λ p. p.row.id) proxies

-- What rows describe under a name; of rows with one id the last one counts.
module _ {Row : Type 0} (id_of : Row → String) (resource : Row → CustomResource Spec) where
  abbrev pub described : List Row → String → Option (CustomResource Spec)
  described [] n = none
  described (row ∷ rows) n =
      or_option (described rows n) (if id_of row == n then some (resource row) else none)

  pub described-id :
      (rows : List Row) (n : String) → is_some (described rows n) ≡ contains n (map id_of rows)
  described-id [] n = refl
  described-id (row ∷ rows) n = ground (arith, described-id rows n)

module _ (settings : Settings) where
  abbrev pub described_server : List SyncedServer → String → Option (CustomResource Spec)
  described_server = described (λ s. s.server.row.id) (server_resource settings)

  abbrev pub described_proxy :
      List (WithEnvVars ReverseProxyServer) → String → Option (CustomResource Spec)
  described_proxy = described (λ p. p.row.id) (proxy_resource settings)

-- The cluster lists what is there, with a mark for deletion or without: all resources of the two
-- kinds carry the label by which the synchronization asks for its own.
abbrev pub Lists : Cluster Spec → Type 0
Lists c =
    (p : Plural) (t : c.State)
    → (items : List (Option String)) × (c.list_objects p t ≡ (ok items, t))
      × ((n : String) → listed n items ≡ (is_some (c.object p n t) || c.deleting p n t))

-- No resource is marked for deletion.
abbrev pub Unmarked : (c : Cluster Spec) → c.State → Type 0
Unmarked c t = (p : Plural) (n : String) → c.deleting p n t ≡ false

module _ (c : Cluster Spec) where
  -- A call that comes through is no failure.
  pub comes_through :
      (m : Call Raised c.State (Unit {0})) (ms : List (Call Raised c.State (Unit {0})))
      (t : c.State)
      → (m t).0 ≡ ok tt
      → failures_of (m ∷ ms) t ≡ failures_of ms (m t).1
  unfolding failures_of
  comes_through m ms t h = rw h refl

module _ (c : Cluster Spec) {Row : Type 0} (p : Plural) (id_of : Row → String)
    (resource : Row → CustomResource Spec) (sync : Row → Call Raised c.State (Unit {0}))
    (secrets : Row → c.State → Secrets c)
    (sync_row : (row : Row) (t : c.State)
      → operator_resource_name (id_of row) ≡ ok (id_of row)
      → Comes c (sync row t) (secrets row t) (
          object_set c p
            (id_of row)
            (if c.deleting p (id_of row) t then none else some (resource row))
            (objects_of c t))
        × Keeps c t (sync row t)) where
  overlay :
      (found before after : Option (CustomResource Spec)) (b : Bool) (x : CustomResource Spec)
      → after ≡ (if b then some x else before)
      → or_option found after ≡ or_option (or_option found (if b then some x else none)) before
  overlay (some y) before after b x h = refl
  overlay none before after true x h = h
  overlay none before after false x h = h

  -- All rows of a kind synchronized, and then some other calls.
  pub rows_synced :
      (rows : List Row) (ms : List (Call Raised c.State (Unit {0}))) (t : c.State)
      → AreValid (map id_of rows)
      → Unmarked c t
      → (u : c.State) × Unmarked c u
        × (failures_of (map sync rows ++ ms) t ≡ failures_of ms u)
        × ((q : Plural) (n : String)
            → c.object q n u ≡ (
                if same_plural p q
                then or_option (described id_of resource rows n) (c.object q n t)
                else c.object q n t))
  rows_synced [] ms t valid unmarked = (t, unmarked, refl, λ q n. ground arith)
  rows_synced (row ∷ rows) ms t (here, valid) unmarked =
      let ((came, _, objects), kept) = sync_row row t here in
      let v = (sync row t).1 in
      let (u, unmarked', runs, now) =
        rows_synced rows ms v valid (λ q n. kept q n ∙ unmarked q n) in
      (
        u,
        unmarked',
        comes_through c (sync row) (map sync rows ++ ms) t came ∙ runs,
        λ q n. now q n ∙ elim (Bool-cases (same_plural p q)) [
          | inl e ↦ rw e (
              overlay (described id_of resource rows n) (c.object q n t) (c.object q n v)
                (id_of row == n) (resource row) (objects q n ∙ rw (e, unmarked p (id_of row)) refl))
          | inr e ↦ rw e (objects q n ∙ rw e refl)
        ],
      )

-- ===== src/Operator/Sync/Convergence.antt =====
-- What a whole run of the synchronization leaves in the cluster.
use minikura.Common.{
  All, ◌||◌, String, Bool, true, false, Option, none, some, List, [], ◌∷◌, ◌++◌, ◌==◌, ◌≡◌, ◌∙◌,
  refl, sym, ap, map, contains, is_some, or_option, ok, Call, ◌>>=◌, >>=-eq_of_ok, arith,
  if◌then◌else◌, Bool-cases, inl, inr, append-nil, pure,
}
use minikura.Servers.Entities.{ReverseProxyServer, WithEnvVars}
use minikura.Operator.Cluster.{
  Raised, Plural, same_plural, minecraft_servers, reverse_proxy_servers, Cluster, CustomResource,
  IsCluster, secret_set, secrets_of,
}
use minikura.Operator.Specs.{Spec, Settings, SyncedServer, server_spec_of, proxy_spec_of}
use minikura.Operator.Specs.Described.{
  IsServerResource, IsProxyResource, server_spec_of-Describes, proxy_spec_of-DescribesProxy,
}
use minikura.Servers.Store.{distinct}
use minikura.Operator.Sync.{
  resource_name, raised, failures_of, all_of, sync_server, sync_reverse_proxy, names_of,
  delete_stale_resources, delete_all_stale, logged, after_all, sync_all,
}
use minikura.Operator.Sync.Outcomes.{
  server_resource, proxy_resource, server_secret, proxy_secret, secret_name, legacy_name,
  sync_server-Comes, sync_server-Keeps,
}
use minikura.Operator.Sync.Proxies.{sync_reverse_proxy-Comes, sync_reverse_proxy-Keeps}
use minikura.Operator.Sync.Steps.{same_plural-eq}
use minikura.Operator.Sync.Stale.{listed, is_stale, delete_stale_resources_lem}
use minikura.Operator.Sync.Runs.{
  AreValid, server_ids, proxy_ids, described-id, described_server, described_proxy, Lists, Unmarked,
  rows_synced,
}

-- What is synchronized stays, and nothing else.
exactly :
    (found before after : Option (CustomResource Spec)) (b : Bool)
    → is_some found ≡ b
    → after ≡ or_option found before
    → (if b then after else none) ≡ found
exactly none before after b h k = rw⁻¹ h refl
exactly (some x) before after b h k = rw⁻¹ h k

module _ (c : Cluster Spec) where
  both_through :
      (m k : Call Raised c.State (Unit {0})) (t : c.State)
      → (m t).0 ≡ ok tt
      → (k (m t).1).0 ≡ ok tt
      → all_of (m ∷ k ∷ []) t ≡ (ok tt, (k (m t).1).1)
  unfolding all_of
  both_through m k t h h' = rw (h, h') refl

-- What a deletion of stale resources leaves under a name.
pruned :
    (ids : List String) (items : List (Option String)) (n : String)
    (o : Option (CustomResource Spec)) (marked : Bool)
    → (n == "") ≡ false
    → listed n items ≡ (is_some o || marked)
    → (if is_stale ids items n then none else o) ≡ (if contains n ids then o else none)
pruned ids items n none marked h k = ground arith
pruned ids items n (some x) marked h k = ground arith

module _ (c : Cluster Spec) (laws : IsCluster c) (lists : Lists c) (settings : Settings) where
  names_of-ok :
      (ids : List String) (t : c.State) → AreValid ids → names_of c settings ids t ≡ (ok ids, t)
  unfolding names_of
  names_of-ok [] t valid = refl
  names_of-ok (id ∷ ids) t (here, valid) =
      >>=-eq_of_ok (resource_name c id)
        (λ name. names_of c settings ids >>= λ names. pure (name ∷ names))
        (ap (λ r. (raised r, t)) here)
      ∙ >>=-eq_of_ok (names_of c settings ids) (λ names. pure (id ∷ names))
          (names_of-ok ids t valid)

  -- The deletion of the stale resources of one kind.
  stale_deleted :
      (p : Plural) (ids : List String) (t : c.State)
      → ((delete_stale_resources c settings p ids t).0 ≡ ok tt)
        × ((q : Plural) (n : String)
            → (n == "") ≡ false
            → c.object q n (delete_stale_resources c settings p ids t).1 ≡ (
                if same_plural p q
                then (if contains n ids then c.object q n t else none)
                else c.object q n t))
  stale_deleted p ids t =
      let (items, answers, all_listed) = lists p t in
      let (came, _, objects) = delete_stale_resources_lem c laws settings p ids items t answers in
      (
        came,
        λ q n named. objects q n ∙ elim (Bool-cases (same_plural p q)) [
          | inr e ↦ rw e refl
          | inl e ↦ rw e (
              pruned ids items n (c.object q n t) (c.deleting q n t) named (
                all_listed n
                ∙ ap (λ r. is_some (c.object r n t) || c.deleting r n t) (same_plural-eq c p q e)))
        ],
      )

  server_resources :
      (servers : List SyncedServer)
      → All (λ s. distinct s.server.env_variables ≡ true) servers
      → All (λ s. IsServerResource settings s (server_resource settings s)) servers
  server_resources [] once = tt
  server_resources (s ∷ servers) (here, once) = (
    (
      refl,
      refl,
      (
        server_spec_of settings (secret_name minecraft_servers s.server.row.id) s,
        refl,
        server_spec_of-Describes settings s here,
      ),
    ),
    server_resources servers once,
  )

  proxy_resources :
      (proxies : List (WithEnvVars ReverseProxyServer))
      → All (λ p. IsProxyResource settings p (proxy_resource settings p)) proxies
  proxy_resources [] = tt
  proxy_resources (p ∷ proxies) = (
    (
      refl,
      refl,
      (
        proxy_spec_of settings (secret_name reverse_proxy_servers p.row.id) p,
        refl,
        proxy_spec_of-DescribesProxy settings p,
      ),
    ),
    proxy_resources proxies,
  )

  module _ (servers : List SyncedServer) (proxies : List (WithEnvVars ReverseProxyServer))
      (valid_servers : AreValid (server_ids servers))
      (valid_proxies : AreValid (proxy_ids proxies)) where
    prune_all :
        (t : c.State)
        → (u : c.State) × (logged c settings (delete_all_stale c settings servers proxies t)
            ≡ ([], u))
          × ((n : String)
              → (n == "") ≡ false
              → c.object minecraft_servers n u ≡ (
                  if contains n (server_ids servers) then c.object minecraft_servers n t else none))
          × ((n : String)
              → (n == "") ≡ false
              → c.object reverse_proxy_servers n u ≡ (
                  if contains n (proxy_ids proxies)
                  then c.object reverse_proxy_servers n t
                  else none))
    unfolding delete_all_stale
    prune_all t =
        let first : Call Raised c.State (Unit {0}) =
          delete_stale_resources c settings minecraft_servers (server_ids servers) in
        let second : Call Raised c.State (Unit {0}) =
          names_of c settings (proxy_ids proxies)
          >>= delete_stale_resources c settings reverse_proxy_servers in
        let v = (first t).1 in
        let last = delete_stale_resources c settings reverse_proxy_servers (proxy_ids proxies) v in
        let (came, mine) = stale_deleted minecraft_servers (server_ids servers) t in
        let (came', others) = stale_deleted reverse_proxy_servers (proxy_ids proxies) v in
        let named : second v ≡ last =
          >>=-eq_of_ok (names_of c settings (proxy_ids proxies))
            (delete_stale_resources c settings reverse_proxy_servers)
            (names_of-ok (proxy_ids proxies) v valid_proxies) in
        (
          last.1,
          ap (logged c settings) (
              >>=-eq_of_ok (names_of c settings (server_ids servers))
                (λ names.
                  all_of (delete_stale_resources c settings minecraft_servers names ∷ second ∷ []))
                (names_of-ok (server_ids servers) t valid_servers)
              ∙ both_through c first second t came (ap (λ r. r.0) named ∙ came')
              ∙ ap (λ r. (ok tt, r.1)) named),
          (λ n h. others minecraft_servers n h ∙ mine minecraft_servers n h),
          λ n h.
              others reverse_proxy_servers n h
              ∙ ap (λ o. if contains n (proxy_ids proxies) then o else none)
                  (mine reverse_proxy_servers n h),
        )

    -- Where the cluster is reached, and lists what is there since all resources carry the label of
    -- the synchronization, and no resource is marked for deletion at the start, a run that no other
    -- run keeps back and for which the database is read logs nothing, if all ids are ones that the
    -- synchronization takes and no server has a variable twice. Then of the resources that are not
    -- marked for deletion the cluster has under each name exactly the one of the row with this id,
    -- of the last one if there are several: every server's and every reverse proxy's, and no other,
    -- whatever was there before. Each of these resources has the fields of its row, the variables,
    -- for a server with its enabled plugins, and the reference to its secret.
    pub sync_all_converges :
        (t : c.State)
        → Unmarked c t
        → All (λ s. distinct s.server.env_variables ≡ true) servers
        → (u : c.State) × (sync_all c settings false true (ok (servers, proxies)) t ≡ ([], u))
          × ((n : String)
              → (n == "") ≡ false
              → (c.object minecraft_servers n u ≡ described_server settings servers n)
                × (c.object reverse_proxy_servers n u ≡ described_proxy settings proxies n))
          × All (λ s. IsServerResource settings s (server_resource settings s)) servers
          × All (λ p. IsProxyResource settings p (proxy_resource settings p)) proxies
    unfolding sync_all
    sync_all_converges t unmarked once =
        let (v, unmarked', ran, now) =
          rows_synced c minecraft_servers (λ s. s.server.row.id) (server_resource settings)
            (sync_server c settings)
            (λ s w n.
              secret_set c (legacy_name s.server.row.id) none
                (secret_set c (secret_name minecraft_servers s.server.row.id)
                  (some (server_secret s)) (secrets_of c w))
                n)
            (λ s w h.
              (sync_server-Comes c laws settings w s h, sync_server-Keeps c laws settings w s h))
            servers (map (sync_reverse_proxy c settings) proxies) t valid_servers unmarked in
        let (w, _, ran', now') =
          rows_synced c reverse_proxy_servers (λ p. p.row.id) (proxy_resource settings)
            (sync_reverse_proxy c settings)
            (λ p w n.
              secret_set c (legacy_name p.row.id) none
                (secret_set c (secret_name reverse_proxy_servers p.row.id) (some (proxy_secret p))
                  (secrets_of c w))
                n)
            (λ p w h. (
              sync_reverse_proxy-Comes c laws settings w p h,
              sync_reverse_proxy-Keeps c laws settings w p h,
            ))
            proxies [] v valid_proxies unmarked' in
        let (u, logs, left, left') = prune_all w in
        let proxy_runs = map (sync_reverse_proxy c settings) proxies in
        let all_ran : failures_of (map (sync_server c settings) servers ++ proxy_runs) t ≡ ([], w) =
          ran ∙ sym (ap (λ ms. failures_of ms v) (append-nil proxy_runs)) ∙ ran' in
        (
          u,
          ap (after_all c settings servers proxies) all_ran ∙ logs,
          λ n h. (
            left n h
                ∙ exactly (described_server settings servers n) (c.object minecraft_servers n t)
                    (c.object minecraft_servers n w) (contains n (server_ids servers))
                    (described-id (λ s. s.server.row.id) (server_resource settings) servers n)
                    (now' minecraft_servers n ∙ now minecraft_servers n),
            left' n h
                ∙ exactly (described_proxy settings proxies n) (c.object reverse_proxy_servers n v)
                    (c.object reverse_proxy_servers n w) (contains n (proxy_ids proxies))
                    (described-id (λ p. p.row.id) (proxy_resource settings) proxies n)
                    (now' reverse_proxy_servers n),
          ),
          server_resources servers once,
          proxy_resources proxies,
        )

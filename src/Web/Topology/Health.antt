-- ===== src/Web/Topology/Health.antt =====
-- The numbers of healthy, degraded and unhealthy systems.
use minikura.Common.{
  ℕ, suc, ◌+◌, String, Bool, true, false, ◌&&◌, Option, none, some, List, [], ◌∷◌, ◌++◌, map, ◌≡◌,
  ◌∙◌, refl, ap, if◌then◌else◌, length, filter, filled, arith, Bool-cases, inl, inr,
}
use minikura.Web.Topology.{HealthStatus, NodeType, K8sNodeSummary, health_of}
use minikura.Web.Topology.Data.{TopologyNode, GraphInput}
use minikura.Web.Topology.Graph.{get, Counts, count_health, count_all, server_node, proxy_node}
use minikura.Web.Topology.Build.{
  with_node, k8s_node_list, graph_nodes, build_topology_graph, same_status,
}

-- The count of a status; those of unknown health are not counted.
abbrev pub count_of : HealthStatus → Counts → ℕ
count_of HealthStatus.healthy c = c.healthy
count_of HealthStatus.degraded c = c.degraded
count_of HealthStatus.unhealthy c = c.unhealthy
count_of HealthStatus.unknown c = 0

abbrev pub is_system : NodeType → Bool
is_system NodeType.server = true
is_system NodeType.proxy = true
is_system NodeType.k8s_node = false

module _ {A : Type 0} where
  length-filter-append :
      (p : A → Bool) (xs ys : List A)
      → length (filter p (xs ++ ys)) ≡ length (filter p xs) + length (filter p ys)
  length-filter-append p [] ys = omega arith
  length-filter-append p (x ∷ xs) ys =
      let rest = length-filter-append p xs ys in
      elim (Bool-cases (p x)) [ inl h ↦ rw h (omega arith) | inr h ↦ rw h rest ]

module _ (st : HealthStatus) (counted : same_status HealthStatus.unknown st ≡ false) where
  count_health-of :
      (x : HealthStatus) (c : Counts)
      → count_of st (count_health x c)
        ≡ (if same_status x st then suc (count_of st c) else count_of st c)
  count_health-of x c = go x st counted
    where
      go :
          (y z : HealthStatus)
          → same_status HealthStatus.unknown z ≡ false
          → count_of z (count_health y c)
            ≡ (if same_status y z then suc (count_of z c) else count_of z c)
      go HealthStatus.healthy HealthStatus.healthy h = refl
      go HealthStatus.healthy HealthStatus.degraded h = refl
      go HealthStatus.healthy HealthStatus.unhealthy h = refl
      go HealthStatus.degraded HealthStatus.healthy h = refl
      go HealthStatus.degraded HealthStatus.degraded h = refl
      go HealthStatus.degraded HealthStatus.unhealthy h = refl
      go HealthStatus.unhealthy HealthStatus.healthy h = refl
      go HealthStatus.unhealthy HealthStatus.degraded h = refl
      go HealthStatus.unhealthy HealthStatus.unhealthy h = refl
      go HealthStatus.unknown HealthStatus.healthy h = refl
      go HealthStatus.unknown HealthStatus.degraded h = refl
      go HealthStatus.unknown HealthStatus.unhealthy h = refl
      go y HealthStatus.unknown h = cc h

  count_all-of :
      (xs : List HealthStatus) (c : Counts)
      → count_of st (count_all xs c) ≡ length (filter (λ x. same_status x st) xs) + count_of st c
  count_all-of [] c = omega arith
  count_all-of (x ∷ xs) c =
      let rest = count_all-of xs (count_health x c) in
      let here = count_health-of x c in
      elim (Bool-cases (same_status x st)) [
        | inl h ↦
            let more : count_of st (count_health x c) ≡ suc (count_of st c) = here ∙ rw h refl in
            rw h (omega arith)
        | inr h ↦
            let more : count_of st (count_health x c) ≡ count_of st c = here ∙ rw h refl in
            rw h (omega arith)
      ]

-- Two lists that are made of one, with tests that agree.
module _ {A N H : Type 0} (f : A → N) (g : A → H) (p : N → Bool) (q : H → Bool)
    (agree : (x : A) → p (f x) ≡ q (g x)) where
  length-filter-maps : (xs : List A) → length (filter p (map f xs)) ≡ length (filter q (map g xs))
  length-filter-maps [] = refl
  length-filter-maps (x ∷ xs) =
      let rest = length-filter-maps xs in
      elim (Bool-cases (q (g x))) [
        | inl h ↦ rw (agree x ∙ h, h) (ap suc rest)
        | inr h ↦ rw (agree x ∙ h, h) rest
      ]

module _ {Server Proxy Connection Metrics : Type 0} (server_id : Server → String)
    (proxy_id : Proxy → String) (input : GraphInput Server Proxy Connection Metrics) where
  abbrev Any : Type 0
  Any = TopologyNode Server Proxy Connection Metrics

  -- The servers and proxies among the nodes that have a status.
  abbrev pub has_health : HealthStatus → Any → Bool
  has_health st node = is_system node.type && same_status node.status st

  no_system :
      (st : HealthStatus) (nodes : List K8sNodeSummary)
      → length (filter (has_health st) (k8s_node_list server_id proxy_id input nodes)) ≡ 0
  unfolding k8s_node_list
  no_system st [] = refl
  no_system st (node ∷ nodes) = go (filled node.name) (no_system st nodes)
    where
      rest : List Any
      rest = k8s_node_list server_id proxy_id input nodes

      go :
          (name : Option String)
          → length (filter (has_health st) rest) ≡ 0
          → length (filter (has_health st) (with_node server_id proxy_id input node name rest)) ≡ 0
      go none h = h
      go (some name) h = h

  -- The number of the healthy, of the degraded and of the unhealthy systems that the graph tells is
  -- that of the servers and proxies among its nodes that have this status.
  pub counts_of_nodes :
      (st : HealthStatus)
      → same_status HealthStatus.unknown st ≡ false
      → let graph = build_topology_graph server_id proxy_id input in
        count_of st (record {
          healthy = graph.healthy_systems;
          degraded = graph.degraded_systems;
          unhealthy = graph.unhealthy_systems;
        })
        ≡ length (filter (has_health st) graph.nodes)
  unfolding build_topology_graph graph_nodes server_node proxy_node
  counts_of_nodes st h =
      let servers = map (server_node server_id proxy_id input) input.servers in
      let proxies = map (proxy_node server_id proxy_id input) input.proxies in
      let nodes = k8s_node_list server_id proxy_id input input.k8s_nodes in
      let server_health =
        map (λ s. health_of (get (server_id s) input.server_pods)) input.servers in
      let proxy_health = map (λ p. health_of (get (proxy_id p) input.proxy_pods)) input.proxies in
      let start : Counts = record { healthy = 0; degraded = 0; unhealthy = 0 } in
      let zero_start = nothing st in
      let a = count_all-of st h proxy_health (count_all server_health start) in
      let b = count_all-of st h server_health start in
      let c = length-filter-append (has_health st) servers (proxies ++ nodes) in
      let d = length-filter-append (has_health st) proxies nodes in
      let e = no_system st input.k8s_nodes in
      let s : length (filter (has_health st) servers)
          ≡ length (filter (λ x. same_status x st) server_health) =
        length-filter-maps (server_node server_id proxy_id input)
          (λ y. health_of (get (server_id y) input.server_pods)) (has_health st)
          (λ x. same_status x st) (λ x. refl) input.servers in
      let p : length (filter (has_health st) proxies)
          ≡ length (filter (λ x. same_status x st) proxy_health) =
        length-filter-maps (proxy_node server_id proxy_id input)
          (λ y. health_of (get (proxy_id y) input.proxy_pods)) (has_health st)
          (λ x. same_status x st) (λ x. refl) input.proxies in
      omega arith
    where
      nothing :
          (z : HealthStatus) → count_of z (record { healthy = 0; degraded = 0; unhealthy = 0 }) ≡ 0
      nothing HealthStatus.healthy = refl
      nothing HealthStatus.degraded = refl
      nothing HealthStatus.unhealthy = refl
      nothing HealthStatus.unknown = refl

-- ===== src/Web/Topology/Joined.antt =====
-- The edges of the graph join its nodes.
use minikura.Common.{
  String, true, ◌||◌, Option, none, some, List, [], ◌∷◌, ◌++◌, map, ◌≡◌, ◌∙◌, refl, ap, length,
  ◌+++◌, all, All, contains, filled, arith, eq_refl, Bool-cases, inl, inr,
}
use minikura.Web.Topology.{K8sNodeSummary, PodInfo}
use minikura.Web.Topology.Data.{Table, TopologyEdge, TopologyNode, GraphInput}
use minikura.Web.Topology.Graph.{
  get, nodes_of, route_edge, host_edges, proxy_to_servers, server_node, proxy_node,
}
use minikura.Web.Topology.Build.{
  with_node, k8s_node_list, graph_nodes, route_edges, edges_of_node, k8s_edges, graph_edges,
  build_topology_graph,
}
use minikura.Web.Topology.Known.{
  contains-append, append-All, contains-prefixed, map-append, or_middle, or_last,
  servers_of_proxies-IsKnown,
}

-- Both ends of an edge are among some ids.
abbrev pub Joins : List String → TopologyEdge → Type 0
Joins ids edge = (contains edge.source ids ≡ true) × (contains edge.target ids ≡ true)

module _ {Server Proxy Connection Metrics : Type 0} (server_id : Server → String)
    (proxy_id : Proxy → String) (input : GraphInput Server Proxy Connection Metrics) where
  abbrev Any : Type 0
  Any = TopologyNode Server Proxy Connection Metrics

  abbrev id_of : Any → String
  id_of node = node.id

  abbrev server_part : List String
  server_part = map id_of (map (server_node server_id proxy_id input) input.servers)

  abbrev proxy_part : List String
  proxy_part = map id_of (map (proxy_node server_id proxy_id input) input.proxies)

  abbrev node_part : List K8sNodeSummary → List String
  node_part nodes = map id_of (k8s_node_list server_id proxy_id input nodes)

  -- The ids of all nodes.
  abbrev pub node_ids : List String
  node_ids = map id_of (graph_nodes server_id proxy_id input)

  parts : node_ids ≡ server_part ++ (proxy_part ++ node_part input.k8s_nodes)
  unfolding graph_nodes
  parts =
      map-append id_of (map (server_node server_id proxy_id input) input.servers) (
        map (proxy_node server_id proxy_id input) input.proxies
        ++ k8s_node_list server_id proxy_id input input.k8s_nodes)
      ∙ ap (λ zs. server_part ++ zs)
          (map-append id_of (map (proxy_node server_id proxy_id input) input.proxies)
            (k8s_node_list server_id proxy_id input input.k8s_nodes))

  in_parts :
      (x : String)
      → contains x node_ids ≡ (
          contains x server_part
          || (contains x proxy_part || contains x (node_part input.k8s_nodes)))
  in_parts x =
      ap (contains x) parts
      ∙ contains-append x server_part (proxy_part ++ node_part input.k8s_nodes)
      ∙ ap (λ b. contains x server_part || b)
          (contains-append x proxy_part (node_part input.k8s_nodes))

  server_there :
      (i : String)
      → contains i (map server_id input.servers) ≡ true
      → contains ("server-" +++ i) node_ids ≡ true
  unfolding server_node
  server_there i h =
      let here =
        contains-prefixed "server-" server_id id_of (server_node server_id proxy_id input)
          (λ x. refl) i input.servers h in
      in_parts ("server-" +++ i) ∙ rw here refl

  proxy_there :
      (i : String)
      → contains i (map proxy_id input.proxies) ≡ true
      → contains ("proxy-" +++ i) node_ids ≡ true
  unfolding proxy_node
  proxy_there i h =
      let here =
        contains-prefixed "proxy-" proxy_id id_of (proxy_node server_id proxy_id input) (λ x. refl)
          i input.proxies h in
      in_parts ("proxy-" +++ i)
      ∙ or_middle (contains ("proxy-" +++ i) server_part) (contains ("proxy-" +++ i) proxy_part)
          (contains ("proxy-" +++ i) (node_part input.k8s_nodes)) here

  -- A name of a node, where it has one, is that of a node of the graph.
  abbrev IsThere : Option String → Type 0
  IsThere none = Unit
  IsThere (some name) = contains ("k8s-node-" +++ name) node_ids ≡ true

  nodes-IsThere :
      (nodes : List K8sNodeSummary)
      → ((x : String) → contains x (node_part nodes) ≡ true → contains x node_ids ≡ true)
      → All (λ node. IsThere (filled node.name)) nodes
  unfolding k8s_node_list
  nodes-IsThere [] sub = tt
  nodes-IsThere (node ∷ nodes) sub = go (λ s. nodes-IsThere nodes s) (filled node.name) sub
    where
      rest : List Any
      rest = k8s_node_list server_id proxy_id input nodes

      go :
          (((x : String) → contains x (map id_of rest) ≡ true → contains x node_ids ≡ true)
            → All (λ n. IsThere (filled n.name)) nodes)
          → (name : Option String)
          → ((x : String)
              → contains x (map id_of (with_node server_id proxy_id input node name rest)) ≡ true
              → contains x node_ids ≡ true)
          → IsThere name × All (λ n. IsThere (filled n.name)) nodes
      go later none s = (tt, later s)
      go later (some name) s = (
        s ("k8s-node-" +++ name) (rw (eq_refl ("k8s-node-" +++ name)) refl),
        later (λ x h. s x (ground arith)),
      )

  host_joined :
      (kind name : String) (entries : Table (List String))
      → contains ("k8s-node-" +++ name) node_ids ≡ true
      → All (λ entry. contains (kind +++ entry.0) node_ids ≡ true) entries
      → All (Joins node_ids) (host_edges kind name entries)
  unfolding host_edges
  host_joined kind name [] h k = tt
  host_joined kind name ((id, nodes) ∷ entries) h (k, ks) =
      elim (Bool-cases (contains name nodes)) [
        | inl e ↦ rw e ((h, k), host_joined kind name entries h ks)
        | inr e ↦ rw e (host_joined kind name entries h ks)
      ]

  -- The keys of pods, with what makes them ids of nodes.
  hosts :
      (kind : String) (ids : List String) (pods : Table (List PodInfo))
      → ((i : String) → contains i ids ≡ true → contains (kind +++ i) node_ids ≡ true)
      → all (λ entry. contains entry.0 ids) pods ≡ true
      → All (λ entry. contains (kind +++ entry.0) node_ids ≡ true) (nodes_of pods)
  unfolding nodes_of
  hosts kind ids [] f h = tt
  hosts kind ids ((id, ps) ∷ pods) f h =
      let here : contains id ids ≡ true = ground arith in
      let rest : all (λ entry. contains entry.0 ids) pods ≡ true = ground arith in
      (f id here, hosts kind ids pods f rest)

  routes_joined :
      (proxies : List Proxy)
      → ((i : String)
          → contains i (map proxy_id proxies) ≡ true
          → contains ("proxy-" +++ i) node_ids ≡ true)
      → All (Joins node_ids) (route_edges server_id proxy_id input proxies)
  unfolding route_edges
  routes_joined [] sub = tt
  routes_joined (p ∷ proxies) sub =
      append-All (Joins node_ids)
        (map (route_edge (proxy_id p))
          (get (proxy_id p) (proxy_to_servers server_id proxy_id input)))
        (route_edges server_id proxy_id input proxies)
        (ends (get (proxy_id p) (proxy_to_servers server_id proxy_id input)) (
          servers_of_proxies-IsKnown (map server_id input.servers) input.proxy_backends
            (map proxy_id input.proxies) [] (λ key. tt) (proxy_id p)))
        (routes_joined proxies (λ i h. sub i (ground arith)))
    where
      start : contains ("proxy-" +++ proxy_id p) node_ids ≡ true
      start = sub (proxy_id p) (rw (eq_refl (proxy_id p)) refl)

      ends :
          (ids : List String)
          → All (λ i. contains i (map server_id input.servers) ≡ true) ids
          → All (Joins node_ids) (map (route_edge (proxy_id p)) ids)
      ends [] h = tt
      ends (i ∷ ids) (h, hs) = ((start, server_there i h), ends ids hs)

  -- Where pods are known only of servers and of proxies that there are, each edge of the graph
  -- begins at a node of the graph and ends at one, and the number of connections that the graph
  -- tells is that of its edges.
  pub edges-Joins :
      all (λ entry. contains entry.0 (map server_id input.servers)) input.server_pods ≡ true
      → all (λ entry. contains entry.0 (map proxy_id input.proxies)) input.proxy_pods ≡ true
      → let graph = build_topology_graph server_id proxy_id input in
        All (Joins (map id_of graph.nodes)) graph.edges
        × (graph.total_connections ≡ length graph.edges)
  unfolding build_topology_graph graph_edges
  edges-Joins server_keys proxy_keys =
      let server_hosts =
        hosts "server-" (map server_id input.servers) input.server_pods server_there server_keys in
      let proxy_hosts =
        hosts "proxy-" (map proxy_id input.proxies) input.proxy_pods proxy_there proxy_keys in
      let routes = routes_joined input.proxies proxy_there in
      let nodes = nodes-IsThere input.k8s_nodes (λ x h.
        in_parts x
        ∙ or_last (contains x server_part) (contains x proxy_part)
            (contains x (node_part input.k8s_nodes)) h) in
      (
        append-All (Joins node_ids) (route_edges server_id proxy_id input input.proxies)
            (k8s_edges server_id proxy_id input input.k8s_nodes) routes
            (k8s_joined server_hosts proxy_hosts input.k8s_nodes nodes),
        refl,
      )
    where
      at_node :
          All
            (λ entry. contains ("server-" +++ entry.0) node_ids ≡ true)
            (nodes_of input.server_pods)
          → All
              (λ entry. contains ("proxy-" +++ entry.0) node_ids ≡ true)
              (nodes_of input.proxy_pods)
          → (name : Option String) → IsThere name
          → All (Joins node_ids) (edges_of_node server_id proxy_id input name)
      at_node h k none there = tt
      at_node h k (some name) there =
          append-All (Joins node_ids) (host_edges "server-" name (nodes_of input.server_pods))
            (host_edges "proxy-" name (nodes_of input.proxy_pods))
            (host_joined "server-" name (nodes_of input.server_pods) there h)
            (host_joined "proxy-" name (nodes_of input.proxy_pods) there k)

      k8s_joined :
          All
            (λ entry. contains ("server-" +++ entry.0) node_ids ≡ true)
            (nodes_of input.server_pods)
          → All
              (λ entry. contains ("proxy-" +++ entry.0) node_ids ≡ true)
              (nodes_of input.proxy_pods)
          → (nodes : List K8sNodeSummary) → All (λ node. IsThere (filled node.name)) nodes
          → All (Joins node_ids) (k8s_edges server_id proxy_id input nodes)
      k8s_joined h k [] there = tt
      k8s_joined h k (node ∷ nodes) (here, later) =
          append-All (Joins node_ids) (edges_of_node server_id proxy_id input (filled node.name))
            (k8s_edges server_id proxy_id input nodes) (at_node h k (filled node.name) here)
            (k8s_joined h k nodes later)

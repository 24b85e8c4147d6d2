-- ===== src/Web/Topology/Build.antt =====
-- The nodes and the edges of the whole graph, and what of it is shown
-- (apps/web/lib/topology-utils.ts).
use Prim.Native.String.{find, len}
use minikura.Common.{
  leb, ℕ, ◌+◌, String, Bool, true, false, ◌&&◌, Option, none, some, List, [], ◌∷◌, ◌++◌, map, ◌==◌,
  ◌+++◌, if◌then◌else◌, length, filter, contains, lookup, or_else, filled,
}
use minikura.Web.Topology.{HealthStatus, NodeType, K8sNodeSummary, health_of}
use minikura.Web.Topology.Data.{K8sPods, TopologyEdge, NodeMetadata, TopologyNode, GraphInput}
use minikura.Web.Topology.Graph.{
  get, nodes_of, Counts, count_all, node_health, route_edge, host_edges, proxy_to_servers, k8s_pods,
  server_node, proxy_node,
}

abbrev no_pods : K8sPods
no_pods = record { servers = []; proxies = [] }

pub record TopologyGraph (Node : Type 0) : Type 0 where
  pub nodes : List Node
  pub edges : List TopologyEdge
  pub total_servers : ℕ
  pub total_proxies : ℕ
  pub total_k8s_nodes : ℕ
  pub total_connections : ℕ
  pub healthy_systems : ℕ
  pub degraded_systems : ℕ
  pub unhealthy_systems : ℕ

module _ {Server Proxy Connection Metrics : Type 0} (server_id : Server → String)
    (proxy_id : Proxy → String) (input : GraphInput Server Proxy Connection Metrics) where
  abbrev k8s_node_of :
      K8sNodeSummary → String → K8sPods → TopologyNode Server Proxy Connection Metrics
  k8s_node_of node name pods = record {
    id = "k8s-node-" +++ name;
    type = NodeType.k8s_node;
    data_id = name;
    label = name;
    status = node_health node;
    metadata = NodeMetadata.of_node (record {
      node = node;
      pod_count = length pods.servers + length pods.proxies;
      server_pods = pods.servers;
      proxy_pods = pods.proxies;
      health = node_health node;
      metrics = input.node_metrics name;
    });
  }

  -- A node without a name is left out.
  abbrev pub with_node :
      K8sNodeSummary
      → Option String
      → List (TopologyNode Server Proxy Connection Metrics)
      → List (TopologyNode Server Proxy Connection Metrics)
  with_node node none later = later
  with_node node (some name) later =
      k8s_node_of node name (or_else (lookup name (k8s_pods server_id proxy_id input)) no_pods)
      ∷ later

  unfoldable pub k8s_node_list :
      List K8sNodeSummary → List (TopologyNode Server Proxy Connection Metrics)
  unfolding node_health
  k8s_node_list [] = []
  k8s_node_list (node ∷ nodes) = with_node node (filled node.name) (k8s_node_list nodes)

  unfoldable pub graph_nodes : List (TopologyNode Server Proxy Connection Metrics)
  unfolding server_node proxy_node k8s_node_list
  graph_nodes =
      map (server_node server_id proxy_id input) input.servers
      ++ (map (proxy_node server_id proxy_id input) input.proxies ++ k8s_node_list input.k8s_nodes)

  -- The edges of the proxies.
  unfoldable pub route_edges : List Proxy → List TopologyEdge
  route_edges [] = []
  route_edges (proxy ∷ proxies) =
      map (route_edge (proxy_id proxy))
        (get (proxy_id proxy) (proxy_to_servers server_id proxy_id input))
      ++ route_edges proxies

  abbrev pub edges_of_node : Option String → List TopologyEdge
  edges_of_node none = []
  edges_of_node (some name) =
      host_edges "server-" name (nodes_of input.server_pods)
      ++ host_edges "proxy-" name (nodes_of input.proxy_pods)

  unfoldable pub k8s_edges : List K8sNodeSummary → List TopologyEdge
  unfolding host_edges nodes_of
  k8s_edges [] = []
  k8s_edges (node ∷ nodes) = edges_of_node (filled node.name) ++ k8s_edges nodes

  unfoldable pub graph_edges : List TopologyEdge
  unfolding route_edges k8s_edges
  graph_edges = route_edges input.proxies ++ k8s_edges input.k8s_nodes

  abbrev pub health_counts : Counts
  health_counts =
      count_all (map (λ p. health_of (get (proxy_id p) input.proxy_pods)) input.proxies) (
        count_all (map (λ s. health_of (get (server_id s) input.server_pods)) input.servers)
          (record { healthy = 0; degraded = 0; unhealthy = 0 }))

  unfoldable pub build_topology_graph : TopologyGraph (TopologyNode Server Proxy Connection Metrics)
  unfolding graph_nodes graph_edges health_of
  build_topology_graph = record {
    nodes = graph_nodes;
    edges = graph_edges;
    total_servers = length input.servers;
    total_proxies = length input.proxies;
    total_k8s_nodes = length input.k8s_nodes;
    total_connections = length graph_edges;
    healthy_systems = health_counts.healthy;
    degraded_systems = health_counts.degraded;
    unhealthy_systems = health_counts.unhealthy;
  }

-- What the view is filtered by. The lower case of a whole text is the language's, an argument.
pub record Filters : Type 0 where
  pub show_servers : Bool
  pub show_proxies : Bool
  pub show_k8s_nodes : Bool
  pub search_query : String
  pub filter_by_status : Option HealthStatus

-- `s.includes(t)`
abbrev pub includes : String → String → Bool
includes s t = leb (find s t) (len s)

abbrev pub is_shown : Filters → NodeType → Bool
is_shown filters NodeType.server = filters.show_servers
is_shown filters NodeType.proxy = filters.show_proxies
is_shown filters NodeType.k8s_node = filters.show_k8s_nodes

abbrev pub same_status : HealthStatus → HealthStatus → Bool
same_status HealthStatus.healthy HealthStatus.healthy = true
same_status HealthStatus.degraded HealthStatus.degraded = true
same_status HealthStatus.unhealthy HealthStatus.unhealthy = true
same_status HealthStatus.unknown HealthStatus.unknown = true
same_status _ _ = false

abbrev pub has_status : Option HealthStatus → HealthStatus → Bool
has_status none status = true
has_status (some wanted) status = same_status status wanted

module _ (lowered : String → String) {Server Proxy Connection Metrics : Type 0} where
  abbrev pub matches : Filters → TopologyNode Server Proxy Connection Metrics → Bool
  matches filters node =
      is_shown filters node.type
      && (if filters.search_query == ""
          then true
          else includes (lowered node.label) (lowered filters.search_query))
      && has_status filters.filter_by_status node.status

  unfoldable pub filter_nodes :
      List (TopologyNode Server Proxy Connection Metrics)
      → Filters
      → List (TopologyNode Server Proxy Connection Metrics)
  filter_nodes nodes filters = filter (matches filters) nodes

unfoldable pub filter_edges : List TopologyEdge → List String → List TopologyEdge
filter_edges edges visible =
    filter (λ edge. contains edge.source visible && contains edge.target visible) edges

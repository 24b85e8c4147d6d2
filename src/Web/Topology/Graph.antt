-- ===== src/Web/Topology/Graph.antt =====
-- How the graph is built (apps/web/lib/topology-utils.ts). What the API says of a server, a proxy
-- and a connection is passed on as it is; what is measured of pods and nodes is an argument.
use minikura.Common.{
  ℕ, suc, String, not, Option, none, some, List, [], ◌∷◌, ◌++◌, map, ◌==◌, ◌+++◌, if◌then◌else◌,
  length, filter, contains, lookup, insert, or_else, filled, lower, unique,
}
use minikura.Web.Topology.{
  HealthStatus, NodeType, EdgeType, PodInfo, K8sNodeSummary, ready_count, health_of,
}
use minikura.Web.Topology.Data.{
  Table, K8sPods, TopologyEdge, NodeMetadata, TopologyNode, GraphInput,
}

-- `map.get(key) || []`
abbrev pub get : {A : Type 0} → String → Table (List A) → List A
get key table = or_else (lookup key table) []

-- `const existing = map.get(key) || []; existing.push(value); map.set(key, existing);`
abbrev push : String → String → Table (List String) → Table (List String)
push key value table = insert key (get key table ++ value ∷ []) table

abbrev with_name : Option String → List String → List String
with_name none names = names
with_name (some name) names = name ∷ names

-- The names of the nodes that pods are on, in the order of the pods.
abbrev pub names_of : List PodInfo → List String
names_of [] = []
names_of (pod ∷ pods) = with_name (filled pod.node_name) (names_of pods)

-- `serverToK8sNodes` from `serverPods`, and the same of proxies; the keys are those of the pods.
unfoldable pub nodes_of : Table (List PodInfo) → Table (List String)
nodes_of [] = []
nodes_of ((id, pods) ∷ entries) = (id, unique (names_of pods)) ∷ nodes_of entries

-- `k8sNodeToPods` before pods are counted.
abbrev empty_nodes : List K8sNodeSummary → Table K8sPods → Table K8sPods
empty_nodes [] table = table
empty_nodes (node ∷ nodes) table = empty_nodes nodes (add_node (filled node.name) table)
  where
    add_node : Option String → Table K8sPods → Table K8sPods
    add_node none table = table
    add_node (some name) table = insert name (record { servers = []; proxies = [] }) table

abbrev change : String → (K8sPods → K8sPods) → Table K8sPods → Table K8sPods
change key f [] = []
change key f (entry ∷ table) =
    if entry.0 == key then (entry.0, f entry.1) ∷ table else entry ∷ change key f table

abbrev add_server_pod : String → K8sPods → K8sPods
add_server_pod name pods = record pods { servers = pods.servers ++ name ∷ [] }

abbrev add_proxy_pod : String → K8sPods → K8sPods
add_proxy_pod name pods = record pods { proxies = pods.proxies ++ name ∷ [] }

module _ (add : String → K8sPods → K8sPods) where
  abbrev note_on : String → Option String → Table K8sPods → Table K8sPods
  note_on pod none table = table
  note_on pod (some node) table = change node (add pod) table

  abbrev note_pods : List PodInfo → Table K8sPods → Table K8sPods
  note_pods [] table = table
  note_pods (pod ∷ pods) table = note_pods pods (note_on pod.name (filled pod.node_name) table)

  abbrev note_all : Table (List PodInfo) → Table K8sPods → Table K8sPods
  note_all [] table = table
  note_all ((id, pods) ∷ entries) table = note_all entries (note_pods pods table)

unfoldable pub pods_of_nodes :
    List K8sNodeSummary → Table (List PodInfo) → Table (List PodInfo) → Table K8sPods
pods_of_nodes nodes server_pods proxy_pods =
    note_all add_proxy_pod proxy_pods (note_all add_server_pod server_pods (empty_nodes nodes []))

-- `parseProxyServerConnections`: the backends of a proxy that are known.
abbrev pub known_backends : List String → Option (List String) → List String
known_backends known none = []
known_backends known (some backends) = filter (λ id. contains id known) backends

-- `proxyToServers` and `serverToProxies`.
module _ (known : List String) (backends : Table (List String)) where
  unfoldable pub servers_of_proxies : List String → Table (List String) → Table (List String)
  servers_of_proxies [] table = table
  servers_of_proxies (id ∷ ids) table =
      servers_of_proxies ids (insert id (known_backends known (lookup id backends)) table)

  abbrev push_all : String → List String → Table (List String) → Table (List String)
  push_all proxy [] table = table
  push_all proxy (id ∷ ids) table = push_all proxy ids (push id proxy table)

  unfoldable pub proxies_of_servers : List String → Table (List String) → Table (List String)
  proxies_of_servers [] table = table
  proxies_of_servers (id ∷ ids) table =
      proxies_of_servers ids (push_all id (known_backends known (lookup id backends)) table)

-- `healthySystems`, `degradedSystems`, `unhealthySystems`.
pub record Counts : Type 0 where
  pub healthy : ℕ
  pub degraded : ℕ
  pub unhealthy : ℕ

abbrev pub count_health : HealthStatus → Counts → Counts
count_health HealthStatus.healthy c = record c { healthy = suc c.healthy }
count_health HealthStatus.degraded c = record c { degraded = suc c.degraded }
count_health HealthStatus.unhealthy c = record c { unhealthy = suc c.unhealthy }
count_health HealthStatus.unknown c = c

abbrev pub count_all : List HealthStatus → Counts → Counts
count_all [] c = c
count_all (status ∷ statuses) c = count_all statuses (count_health status c)

unfoldable pub node_health : K8sNodeSummary → HealthStatus
unfolding lower
node_health node =
    if not (lower node.status == "ready") then HealthStatus.unhealthy else HealthStatus.healthy

-- An edge between two nodes, by the words that its id is made of.
abbrev pub route_edge : String → String → TopologyEdge
route_edge proxy server = record {
  id = "edge-proxy-" +++ proxy +++ "-server-" +++ server;
  source = "proxy-" +++ proxy;
  target = "server-" +++ server;
  type = EdgeType.proxy_to_server;
  label = "routes to";
}

abbrev pub host_edge : String → String → String → TopologyEdge
host_edge kind node id = record {
  id = "edge-k8s-" +++ node +++ "-" +++ kind +++ id;
  source = "k8s-node-" +++ node;
  target = kind +++ id;
  type = EdgeType.pod_to_node;
  label = "hosts";
}

-- The edges from a node to what it hosts; `kind` is what the ids of the kind begin with.
unfoldable pub host_edges : String → String → Table (List String) → List TopologyEdge
host_edges kind node [] = []
host_edges kind node ((id, nodes) ∷ entries) =
    let later = host_edges kind node entries in
    if contains node nodes then host_edge kind node id ∷ later else later

abbrev first_pod : {Metrics : Type 0} → (String → Option Metrics) → List PodInfo → Option Metrics
first_pod metrics [] = none
first_pod metrics (pod ∷ pods) = metrics pod.name

module _ {Server Proxy Connection Metrics : Type 0} (server_id : Server → String)
    (proxy_id : Proxy → String) (input : GraphInput Server Proxy Connection Metrics) where
  abbrev pub Node : Type 0
  Node = TopologyNode Server Proxy Connection Metrics

  abbrev server_to_proxies : Table (List String)
  server_to_proxies =
      proxies_of_servers (map server_id input.servers) input.proxy_backends
        (map proxy_id input.proxies) []

  abbrev pub proxy_to_servers : Table (List String)
  proxy_to_servers =
      servers_of_proxies (map server_id input.servers) input.proxy_backends
        (map proxy_id input.proxies) []

  abbrev pub k8s_pods : Table K8sPods
  k8s_pods = pods_of_nodes input.k8s_nodes input.server_pods input.proxy_pods

  unfoldable pub server_node : Server → Node
  unfolding proxies_of_servers nodes_of health_of
  server_node server =
      let id = server_id server in
      let pods = get id input.server_pods in
      record {
        id = "server-" +++ id;
        type = NodeType.server;
        data_id = id;
        label = id;
        status = health_of pods;
        metadata = NodeMetadata.of_server (record {
          server = server;
          pod_count = length pods;
          ready_pods = ready_count pods;
          pods = pods;
          health = health_of pods;
          connected_proxies = get id server_to_proxies;
          k8s_nodes = get id (nodes_of input.server_pods);
          connection_info = or_else (lookup id input.server_connections) none;
          metrics = first_pod input.pod_metrics pods;
        });
      }

  unfoldable pub proxy_node : Proxy → Node
  unfolding servers_of_proxies nodes_of health_of
  proxy_node proxy =
      let id = proxy_id proxy in
      let pods = get id input.proxy_pods in
      record {
        id = "proxy-" +++ id;
        type = NodeType.proxy;
        data_id = id;
        label = id;
        status = health_of pods;
        metadata = NodeMetadata.of_proxy (record {
          proxy = proxy;
          pod_count = length pods;
          ready_pods = ready_count pods;
          pods = pods;
          health = health_of pods;
          connected_servers = get id proxy_to_servers;
          k8s_nodes = get id (nodes_of input.proxy_pods);
          connection_info = or_else (lookup id input.proxy_connections) none;
          metrics = first_pod input.pod_metrics pods;
        });
      }

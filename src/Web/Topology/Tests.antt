-- ===== src/Web/Topology/Tests.antt =====
-- The theorems on the graph at a concrete input, and a run.
use minikura.Common.{String, false, none, some, [], ◌∷◌, map, ◌≡◌, refl, All, length, filter}
use minikura.Web.Topology.{HealthStatus, PodInfo, parse_pod_ready, health_of}
use minikura.Web.Topology.Data.{GraphInput, TopologyNode}
use minikura.Web.Topology.Build.{build_topology_graph, TopologyGraph}
use minikura.Web.Topology.Joined.{Joins, edges-Joins}
use minikura.Web.Topology.Health.{has_health, counts_of_nodes}

ready_text : parse_pod_ready "1/2" ≡ ((false, 1), (false, 2))
unfolding parse_pod_ready
ready_text = refl

abbrev pod : PodInfo
pod = record { name = "lobby-0"; status = "Running"; ready = "1/1"; node_name = some "n1" }

abbrev stopped : PodInfo
stopped = record pod { name = "lobby-1"; status = "Pending"; ready = "0/1" }

half_ready : health_of (pod ∷ stopped ∷ []) ≡ HealthStatus.degraded
unfolding health_of
half_ready = refl

-- Servers and proxies are their ids here.
abbrev input : GraphInput String String (Unit {0}) (Unit {0})
input = record {
  servers = "lobby" ∷ [];
  proxies = "gate" ∷ [];
  server_pods = ("lobby", pod ∷ stopped ∷ []) ∷ [];
  proxy_pods = [];
  k8s_nodes = record { name = some "n1"; status = "Ready" } ∷ [];
  server_connections = [];
  proxy_connections = [];
  proxy_backends = ("gate", "lobby" ∷ "gone" ∷ []) ∷ [];
  pod_metrics = λ name. none;
  node_metrics = λ name. none;
}

abbrev same_id : String → String
same_id id = id

abbrev graph : TopologyGraph (TopologyNode String String (Unit {0}) (Unit {0}))
graph = build_topology_graph same_id same_id input

ends :
    map {B = String × String} (λ e. (e.source, e.target)) graph.edges
    ≡ ("proxy-gate", "server-lobby") ∷ ("k8s-node-n1", "server-lobby") ∷ []
unfolding build_topology_graph
ends = refl

edges-Joins_example :
    All (Joins (map (λ n. n.id) graph.nodes)) graph.edges
    × (graph.total_connections ≡ length graph.edges)
edges-Joins_example = edges-Joins same_id same_id input refl refl

counts_of_nodes_example :
    graph.degraded_systems
    ≡ length (filter (has_health same_id same_id input HealthStatus.degraded) graph.nodes)
counts_of_nodes_example = counts_of_nodes same_id same_id input HealthStatus.degraded refl

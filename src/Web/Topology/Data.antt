-- ===== src/Web/Topology/Data.antt =====
-- The data of the graph (apps/web/lib/topology-types.ts, apps/web/lib/topology-utils.ts).
use minikura.Common.{ℕ, String, Option, List}
use minikura.Web.Topology.{HealthStatus, NodeType, EdgeType, PodInfo, K8sNodeSummary}

-- A map from ids, in the order of insertion.
abbrev pub Table : Type 0 → Type 0
Table A = List (String × A)

pub record K8sPods : Type 0 where
  pub servers : List String
  pub proxies : List String

pub record TopologyEdge : Type 0 where
  pub id : String
  pub source : String
  pub target : String
  pub type : EdgeType
  pub label : String

pub record ServerMetadata (Server Connection Metrics : Type 0) : Type 0 where
  pub server : Server
  pub pod_count : ℕ
  pub ready_pods : ℕ
  pub pods : List PodInfo
  pub health : HealthStatus
  pub connected_proxies : List String
  pub k8s_nodes : List String
  pub connection_info : Option Connection
  pub metrics : Option Metrics

pub record ProxyMetadata (Proxy Connection Metrics : Type 0) : Type 0 where
  pub proxy : Proxy
  pub pod_count : ℕ
  pub ready_pods : ℕ
  pub pods : List PodInfo
  pub health : HealthStatus
  pub connected_servers : List String
  pub k8s_nodes : List String
  pub connection_info : Option Connection
  pub metrics : Option Metrics

pub record K8sNodeMetadata (Metrics : Type 0) : Type 0 where
  pub node : K8sNodeSummary
  pub pod_count : ℕ
  pub server_pods : List String
  pub proxy_pods : List String
  pub health : HealthStatus
  pub metrics : Option Metrics

pub data NodeMetadata (Server Proxy Connection Metrics : Type 0) : Type 0 where
  of_server :
      ServerMetadata Server Connection Metrics → NodeMetadata Server Proxy Connection Metrics
  of_proxy : ProxyMetadata Proxy Connection Metrics → NodeMetadata Server Proxy Connection Metrics
  of_node : K8sNodeMetadata Metrics → NodeMetadata Server Proxy Connection Metrics

-- A node of the graph with its data; `data_id` is the id that the data carries.
pub record TopologyNode (Server Proxy Connection Metrics : Type 0) : Type 0 where
  pub id : String
  pub type : NodeType
  pub data_id : String
  pub label : String
  pub status : HealthStatus
  pub metadata : NodeMetadata Server Proxy Connection Metrics

pub record GraphInput (Server Proxy Connection Metrics : Type 0) : Type 0 where
  pub servers : List Server
  pub proxies : List Proxy
  pub server_pods : Table (List PodInfo)
  pub proxy_pods : Table (List PodInfo)
  pub k8s_nodes : List K8sNodeSummary
  pub server_connections : Table (Option Connection)
  pub proxy_connections : Table (Option Connection)
  pub proxy_backends : Table (List String)
  pub pod_metrics : String → Option Metrics
  pub node_metrics : String → Option Metrics

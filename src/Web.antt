-- ===== src/Web.antt =====
-- The logic of the web application: the graph of the topology view.
pub mod Topology
pub mod ServerForm

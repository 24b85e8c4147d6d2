-- ===== src/Servers/Service/Tests.antt =====
-- The theorems on reverse proxies at a concrete table.
use minikura.Common.{none, some, [], ◌∷◌}
use minikura.Servers.Entities.{ReverseProxyServer, bungeecord, load_balancer}
use minikura.Servers.Inputs.{
  undefined, ReverseProxyCreateInput, ReverseProxyUpdateInput, no_proxy_changes,
}
use minikura.Servers.Memory.{memory, memory-IsStore}
use minikura.Servers.Store.{Store, IsStore}
use minikura.Servers.Crud.{World}
use minikura.Servers.Service.ProxyCalls.{ReverseProxyEvent}
use minikura.Servers.Service.Proxies.{ChangesProxy, change_reverse_proxy_lem}

abbrev pub table : Store ReverseProxyServer
table = memory (λ (r : ReverseProxyServer). r.id)

laws : IsStore (λ (r : ReverseProxyServer). r.id) (λ r. r.api_key) table
laws = memory-IsStore (λ r. r.id) (λ r. r.api_key)

abbrev pub gate : ReverseProxyServer
gate = record {
  id = "gate";
  type = bungeecord;
  description = none;
  external_address = "play.example.org";
  external_port = 25565;
  listen_port = 25577;
  memory = 512;
  cpu_request = none;
  cpu_limit = none;
  service_type = load_balancer;
  node_port = none;
  api_key = "minikura_proxy_gate";
}

abbrev pub world : World table.State ReverseProxyEvent
world = record { db = (gate, ("MODE", "a") ∷ []) ∷ []; published = [] }

abbrev empty : World table.State ReverseProxyEvent
empty = record { db = []; published = [] }

abbrev pub input : ReverseProxyCreateInput
input = record {
  id = "door";
  description = undefined;
  external_address = "door.example.org";
  external_port = 25565;
  listen_port = none;
  type = none;
  service_type = none;
  node_port = undefined;
  env_variables = some (("MODE", "b") ∷ []);
  memory = none;
  cpu_request = none;
  cpu_limit = none;
}

abbrev pub moved : ReverseProxyUpdateInput
moved = record no_proxy_changes { external_address = some "new.example.org" }

change_reverse_proxy_lem_example : ChangesProxy table laws "gate" moved world (some gate)
change_reverse_proxy_lem_example = change_reverse_proxy_lem table laws "gate" moved world

-- ===== src/Operator/Specs/Described.antt =====
-- What the specification in a resource says: that of a server of its row, its variables and its
-- plugins, and that of a reverse proxy of its row and its variables.
use minikura.Common.{Option, none, String, true, ◌≡◌, refl, lookup, ◌+++◌}
use minikura.Servers.Entities.{
  ServiceType, cluster_ip, node_port, load_balancer, ReverseProxyType, velocity, bungeecord,
  ReverseProxyServer, WithEnvVars,
}
use minikura.Operator.Cluster.{CustomResource}
use minikura.Servers.Store.{distinct}
use minikura.Operator.Specs.{
  Spec, server_spec, proxy_spec, ServerSpec, ProxySpec, Settings, SyncedServer, service_type,
  plugin_url, server_spec_of, proxy_spec_of,
}
use minikura.Operator.Specs.Environment.{addresses, with_urls, lookup-server_environment}

-- The names that the cluster has for the types of services.
abbrev pub IsServiceName : ServiceType → String → Type 0
IsServiceName cluster_ip name = name ≡ "ClusterIP"
IsServiceName node_port name = name ≡ "NodePort"
IsServiceName load_balancer name = name ≡ "LoadBalancer"

service_type-IsServiceName : (t : ServiceType) → IsServiceName t (service_type t)
service_type-IsServiceName cluster_ip = refl
service_type-IsServiceName node_port = refl
service_type-IsServiceName load_balancer = refl

module _ (settings : Settings) (s : SyncedServer) where
  -- The specification says what the row says, refers to the secret `mc-<id>-api-key`, and has the
  -- variables with the addresses of the plugins that are enabled.
  abbrev pub Describes : ServerSpec → Type 0
  Describes spec =
      ((spec.type ≡ s.server.row.type)
        × (spec.running ≡ s.server.row.running)
        × (spec.description ≡ s.server.row.description)
        × (spec.listen_port ≡ s.server.row.listen_port)
        × IsServiceName s.server.row.service_type spec.service_type
        × (spec.node_port ≡ s.server.row.node_port)
        × (spec.jar_type ≡ s.server.row.jar_type)
        × (spec.minecraft_version ≡ s.server.row.minecraft_version))
      × ((spec.resources.memory_limit ≡ s.server.row.memory)
          × (spec.resources.memory_request ≡ s.server.row.memory_request)
          × (spec.resources.cpu_request ≡ s.server.row.cpu_request)
          × (spec.resources.cpu_limit ≡ s.server.row.cpu_limit)
          × (spec.opts ≡ s.server.row.jvm_opts)
          × (spec.use_aikar_flags ≡ s.server.row.use_aikar_flags)
          × (spec.use_meow_ice_flags ≡ s.server.row.use_meowice_flags))
      × ((spec.difficulty ≡ s.server.row.difficulty)
          × (spec.game_mode ≡ s.server.row.game_mode)
          × (spec.max_players ≡ s.server.row.max_players)
          × (spec.pvp ≡ s.server.row.pvp)
          × (spec.online_mode ≡ s.server.row.online_mode)
          × (spec.motd ≡ s.server.row.motd)
          × (spec.level_seed ≡ s.server.row.level_seed)
          × (spec.level_type ≡ s.server.row.level_type))
      × (spec.api_key_secret_ref ≡ "mc-" +++ s.server.row.id +++ "-api-key")
      × ((k : String)
          → lookup k spec.env
            ≡ with_urls (addresses settings.download_base_url s.plugins) k
                (lookup k s.server.env_variables))

  pub server_spec_of-Describes :
      distinct s.server.env_variables ≡ true
      → Describes (server_spec_of settings ("mc-" +++ s.server.row.id +++ "-api-key") s)
  unfolding server_spec_of
  server_spec_of-Describes once = (
    (
      refl,
      refl,
      refl,
      refl,
      service_type-IsServiceName s.server.row.service_type,
      refl,
      refl,
      refl,
    ),
    (refl, refl, refl, refl, refl, refl, refl),
    (refl, refl, refl, refl, refl, refl, refl, refl),
    refl,
    λ k. lookup-server_environment settings s k once,
  )

  -- The custom resource of the server.
  abbrev pub IsServerResource : CustomResource Spec → Type 0
  IsServerResource r =
      (r.name ≡ s.server.row.id)
      × (r.database_id ≡ s.server.row.id)
      × ((spec : ServerSpec) × (r.spec ≡ server_spec spec) × Describes spec)

-- Velocity loads the plugin from the address that is configured, BungeeCord none.
abbrev pub IsPluginUrl : Settings → ReverseProxyType → Option String → Type 0
IsPluginUrl settings velocity url = url ≡ settings.velocity_plugin_url
IsPluginUrl settings bungeecord url = url ≡ none

plugin_url-IsPluginUrl :
    (settings : Settings) (t : ReverseProxyType) → IsPluginUrl settings t (plugin_url settings t)
plugin_url-IsPluginUrl settings velocity = refl
plugin_url-IsPluginUrl settings bungeecord = refl

module _ (settings : Settings) (p : WithEnvVars ReverseProxyServer) where
  -- The specification says what the row and the configuration say, refers to the secret
  -- `rp-<id>-api-key`, and has the variables.
  abbrev pub DescribesProxy : ProxySpec → Type 0
  DescribesProxy spec =
      ((spec.type ≡ p.row.type)
        × (spec.description ≡ p.row.description)
        × (spec.external_address ≡ p.row.external_address)
        × (spec.external_port ≡ p.row.external_port)
        × (spec.listen_port ≡ p.row.listen_port)
        × IsServiceName p.row.service_type spec.service_type
        × (spec.node_port ≡ p.row.node_port))
      × ((spec.resources.memory_limit ≡ p.row.memory)
          × (spec.resources.memory_request ≡ p.row.memory)
          × (spec.resources.cpu_request ≡ p.row.cpu_request)
          × (spec.resources.cpu_limit ≡ p.row.cpu_limit))
      × (spec.env ≡ p.env_variables)
      × (spec.api_key_secret_ref ≡ "rp-" +++ p.row.id +++ "-api-key")
      × (spec.backend_url ≡ settings.backend_url)
      × IsPluginUrl settings p.row.type spec.plugin_url

  -- The custom resource of the reverse proxy.
  abbrev pub IsProxyResource : CustomResource Spec → Type 0
  IsProxyResource r =
      (r.name ≡ p.row.id)
      × (r.database_id ≡ p.row.id)
      × ((spec : ProxySpec) × (r.spec ≡ proxy_spec spec) × DescribesProxy spec)

  pub proxy_spec_of-DescribesProxy :
      DescribesProxy (proxy_spec_of settings ("rp-" +++ p.row.id +++ "-api-key") p)
  unfolding proxy_spec_of
  proxy_spec_of-DescribesProxy = (
    (refl, refl, refl, refl, refl, service_type-IsServiceName p.row.service_type, refl),
    (refl, refl, refl, refl),
    refl,
    refl,
    refl,
    plugin_url-IsPluginUrl settings p.row.type,
  )

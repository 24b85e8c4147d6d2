-- ===== src/Servers/Routes/ProxyRoutes.antt =====
-- The routes of reverse proxies (apps/backend/src/routes/reverse-proxy.ts). What the schema makes
-- of a body is an argument, a throw or the validated input.
use minikura.Common.{settle, String, List, Settled, ◌>>=◌, ◌>>◌}
use minikura.Domain.Errors.{Thrown, Action}
use minikura.Users.Guards.{AuthContext, require_auth}
use minikura.Servers.Entities.{ReverseProxyServer, EnvVariable, WithEnvVars}
use minikura.Servers.Inputs.{ReverseProxyCreateInput, ReverseProxyUpdateInput}
use minikura.Servers.Store.{Store}
use minikura.Servers.Service.ProxyCalls
use minikura.Servers.Service.ProxyCalls.{ProxyWorld}
use minikura.Servers.Routes.Admission.{admit, is_no_admin}

module _ (s : Store ReverseProxyServer) where
  unfoldable pub get_all :
      AuthContext → Action (ProxyWorld s) (List (WithEnvVars ReverseProxyServer))
  unfolding require_auth ProxyCalls.get_all_reverse_proxies
  get_all ctx = do
    user ← settle (require_auth ctx)
    ProxyCalls.get_all_reverse_proxies s (is_no_admin user)

  unfoldable pub get : AuthContext → String → Action (ProxyWorld s) (WithEnvVars ReverseProxyServer)
  unfolding require_auth ProxyCalls.get_reverse_proxy_by_id
  get ctx id = do
    user ← settle (require_auth ctx)
    ProxyCalls.get_reverse_proxy_by_id s id (is_no_admin user)

  unfoldable pub post :
      AuthContext
      → String
      → Settled Thrown ReverseProxyCreateInput
      → Action (ProxyWorld s) (WithEnvVars ReverseProxyServer)
  unfolding admit ProxyCalls.create_reverse_proxy
  post ctx encoded body = do
    admit ctx
    payload ← settle body
    ProxyCalls.create_reverse_proxy s encoded payload

  unfoldable pub patch :
      AuthContext
      → String
      → Settled Thrown ReverseProxyUpdateInput
      → Action (ProxyWorld s) (WithEnvVars ReverseProxyServer)
  unfolding admit ProxyCalls.update_reverse_proxy
  patch ctx id body = do
    admit ctx
    payload ← settle body
    ProxyCalls.update_reverse_proxy s id payload

  unfoldable pub delete : AuthContext → String → Action (ProxyWorld s) (Unit {0})
  unfolding admit ProxyCalls.delete_reverse_proxy
  delete ctx id = do admit ctx; ProxyCalls.delete_reverse_proxy s id

  unfoldable pub get_env : AuthContext → String → Action (ProxyWorld s) (List EnvVariable)
  unfolding admit ProxyCalls.get_env_variables
  get_env ctx id = do admit ctx; ProxyCalls.get_env_variables s id

  unfoldable pub post_env :
      AuthContext → String → Settled Thrown EnvVariable → Action (ProxyWorld s) (Unit {0})
  unfolding admit ProxyCalls.set_env_variable
  post_env ctx id body = do
    admit ctx
    payload ← settle body
    ProxyCalls.set_env_variable s id payload.0 payload.1

  unfoldable pub delete_env : AuthContext → String → String → Action (ProxyWorld s) (Unit {0})
  unfolding admit ProxyCalls.delete_env_variable
  delete_env ctx id key = do admit ctx; ProxyCalls.delete_env_variable s id key

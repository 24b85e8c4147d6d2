-- ===== src/Servers/Routes/ProxyAccess.antt =====
-- What the routes of reverse proxies refuse and what they hide.
use minikura.Common.{
  settle, String, true, false, Option, none, some, [], ◌==◌, ◌≡◌, ◌∙◌, refl, ap, map, Settled, ok,
  thrown, ◌>>=◌, or_throw, >>=-eq_of_thrown, >>=-eq_of_ok,
}
use minikura.Domain.Errors.{DomainError, Thrown}
use minikura.Users.Account.{User}
use minikura.Users.Guards.{AuthContext, require_admin, require_auth}
use minikura.Servers.Entities.{ReverseProxyServer, EnvVariable}
use minikura.Servers.Inputs.{ReverseProxyCreateInput, ReverseProxyUpdateInput}
use minikura.Servers.Store.{Store}
use minikura.Servers.Crud
use minikura.Servers.Crud.Laws.{in_db-eq}
use minikura.Servers.Repository.Rows
use minikura.Servers.Repository.ProxyRows
use minikura.Servers.Repository.ProxyRows.{without_key}
use minikura.Servers.Service.ProxyCalls
use minikura.Servers.Service.ProxyCalls.{ProxyWorld}
use minikura.Servers.Routes.Admission.{admit, is_no_admin}
use minikura.Servers.Routes.ProxyRoutes
use minikura.Servers.Routes.Access.{admit-refuses}

module _ (s : Store ReverseProxyServer) (ctx : AuthContext) (w : ProxyWorld s) where
  -- Whom the guard of the administrators' routes refuses, every route refuses, with the same answer,
  -- that creates, changes or deletes a reverse proxy or shows or changes its variables; and
  -- nothing is changed and nothing published.
  pub proxy_writes_need_admin :
      (e : Thrown) (id key encoded : String) (created : Settled Thrown ReverseProxyCreateInput)
      (updated : Settled Thrown ReverseProxyUpdateInput) (variable : Settled Thrown EnvVariable)
      → require_admin ctx ≡ thrown e
      → (ProxyRoutes.post s ctx encoded created w ≡ (thrown e, w))
        × (ProxyRoutes.patch s ctx id updated w ≡ (thrown e, w))
        × (ProxyRoutes.delete s ctx id w ≡ (thrown e, w))
        × (ProxyRoutes.get_env s ctx id w ≡ (thrown e, w))
        × (ProxyRoutes.post_env s ctx id variable w ≡ (thrown e, w))
        × (ProxyRoutes.delete_env s ctx id key w ≡ (thrown e, w))
  unfolding ProxyRoutes.post ProxyRoutes.patch ProxyRoutes.delete ProxyRoutes.get_env
      ProxyRoutes.post_env ProxyRoutes.delete_env
  proxy_writes_need_admin e id key encoded created updated variable refused =
      let h : admit ctx w ≡ (thrown e, w) = admit-refuses ctx w e refused in
      (
        >>=-eq_of_thrown (admit ctx)
            (λ _. settle created >>= λ p. ProxyCalls.create_reverse_proxy s encoded p) h,
        >>=-eq_of_thrown (admit ctx)
            (λ _. settle updated >>= λ p. ProxyCalls.update_reverse_proxy s id p) h,
        >>=-eq_of_thrown (admit ctx) (λ _. ProxyCalls.delete_reverse_proxy s id) h,
        >>=-eq_of_thrown (admit ctx) (λ _. ProxyCalls.get_env_variables s id) h,
        >>=-eq_of_thrown (admit ctx)
            (λ _. settle variable >>= λ p. ProxyCalls.set_env_variable s id p.0 p.1) h,
        >>=-eq_of_thrown (admit ctx) (λ _. ProxyCalls.delete_env_variable s id key) h,
      )

  -- A user whom `requireAuth` admits and who is no administrator is shown every reverse proxy without
  -- its key and its variables, in the list and alone.
  pub proxy_reads_hide_secrets :
      (u : User) (id : String)
      → require_auth ctx ≡ ok u
      → (u.role == "admin") ≡ false
      → (ProxyRoutes.get_all s ctx w ≡ (
        ok (
            map
              (λ r. record { row = record r { api_key = "" }; env_variables = [] })
              (s.find_many w.db)),
        w,
      ))
        × (ProxyRoutes.get s ctx id w ≡ (
          elim (s.find_unique id w.db) [
            | none ↦ thrown (Thrown.domain (DomainError.not_found "ReverseProxyServer" (some id)))
            | some r ↦ ok (record { row = record r { api_key = "" }; env_variables = [] })
          ],
          w,
        ))
  unfolding ProxyRoutes.get_all ProxyRoutes.get ProxyCalls.get_all_reverse_proxies
      ProxyCalls.get_reverse_proxy_by_id ProxyRows.find_all ProxyRows.find_by_id Crud.get_all
      Crud.get_by_id Crud.in_db Rows.find_by_id Rows.find_all
  proxy_reads_hide_secrets u id h no_admin = (
    >>=-eq_of_ok (settle (require_auth ctx))
          (λ user. ProxyCalls.get_all_reverse_proxies s (is_no_admin user)) (ap (λ r. (r, w)) h)
        ∙ rw no_admin (in_db-eq (ProxyRows.find_all s true) w refl),
    >>=-eq_of_ok (settle (require_auth ctx))
          (λ user. ProxyCalls.get_reverse_proxy_by_id s id (is_no_admin user)) (ap (λ r. (r, w)) h)
        ∙ rw no_admin (alone (s.find_unique id w.db)),
  )
    where
      alone :
          (o : Option ReverseProxyServer)
          → or_throw
              (elim o [
                | none ↦ none
                | some r ↦ some (Rows.shown s "ReverseProxyServer" without_key true id r w.db)
              ])
              (Thrown.domain (DomainError.not_found "ReverseProxyServer" (some id)))
              w
            ≡ (
              elim o [
                | none ↦
                    thrown (Thrown.domain (DomainError.not_found "ReverseProxyServer" (some id)))
                | some r ↦ ok (record { row = record r { api_key = "" }; env_variables = [] })
              ],
              w,
            )
      alone none = refl
      alone (some r) = refl

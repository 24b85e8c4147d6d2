-- ===== src/Servers/Routes/Access.antt =====
-- What the routes of servers refuse and what they hide.
use minikura.Common.{
  not, if◌then◌else◌, settle, String, Bool, true, false, Option, none, some, [], ◌==◌, ◌≡◌, ◌∙◌,
  refl, ap, map, Settled, ok, thrown, ◌>>=◌, or_throw, arith, >>=-eq_of_thrown, >>=-eq_of_ok,
}
use minikura.Domain.Errors.{DomainError, Thrown}
use minikura.Users.Account.{User}
use minikura.Users.Guards.{AuthContext, require_admin, require_auth}
use minikura.Servers.Entities.{Server, EnvVariable}
use minikura.Servers.Inputs.{ServerCreateInput, ServerUpdateInput, no_server_changes}
use minikura.Servers.Store.{Store}
use minikura.Servers.Crud
use minikura.Servers.Crud.Laws.{in_db-eq}
use minikura.Servers.Repository.Rows
use minikura.Servers.Repository.ServerRows
use minikura.Servers.Repository.ServerRows.{without_key}
use minikura.Servers.Service.ServerCalls
use minikura.Servers.Service.ServerCalls.{ServerWorld}
use minikura.Servers.Routes.Admission.{admit, is_no_admin}
use minikura.Servers.Routes.ServerRoutes
use minikura.Servers.Routes.Actions.{Pods, restart, in_servers, start_stopped, restart_running}

-- Whom the guard of the administrators' routes stops, `admit` stops with the same answer.
pub admit-refuses :
    {W : Type 0} (ctx : AuthContext) (w : W) (e : Thrown)
    → require_admin ctx ≡ thrown e
    → admit ctx w ≡ (thrown e, w)
unfolding admit require_admin
admit-refuses ctx w e h = ground arith

module _ (s : Store Server) (ctx : AuthContext) (w : ServerWorld s) where
  -- Whom the guard of the administrators' routes refuses, every route refuses, with the same answer,
  -- that creates, changes, starts, stops, restarts or deletes a server or shows or changes its
  -- variables; and nothing is changed, no pod is deleted and nothing is published.
  pub writes_need_admin :
      (e : Thrown) (id key encoded : String) (running initialized : Bool) (p : Pods)
      (pods : p.State) (created : Settled Thrown ServerCreateInput)
      (updated : Settled Thrown ServerUpdateInput) (variable : Settled Thrown EnvVariable)
      → require_admin ctx ≡ thrown e
      → (ServerRoutes.post s ctx encoded created w ≡ (thrown e, w))
        × (ServerRoutes.patch s ctx id updated w ≡ (thrown e, w))
        × (ServerRoutes.delete s ctx id w ≡ (thrown e, w))
        × (ServerRoutes.get_env s ctx id w ≡ (thrown e, w))
        × (ServerRoutes.post_env s ctx id variable w ≡ (thrown e, w))
        × (ServerRoutes.delete_env s ctx id key w ≡ (thrown e, w))
        × (ServerRoutes.switch s running ctx id w ≡ (thrown e, w))
        × (restart s p initialized ctx id (record { servers = w; pods = pods })
            ≡ (thrown e, record { servers = w; pods = pods }))
  unfolding ServerRoutes.post ServerRoutes.patch ServerRoutes.delete ServerRoutes.get_env
      ServerRoutes.post_env ServerRoutes.delete_env ServerRoutes.switch restart
  writes_need_admin e id key encoded running initialized p pods created updated variable refused =
      let h : admit ctx w ≡ (thrown e, w) = admit-refuses ctx w e refused in
      (
        >>=-eq_of_thrown (admit ctx)
            (λ _. settle created >>= λ p. ServerCalls.create_server s encoded p) h,
        >>=-eq_of_thrown (admit ctx) (λ _. settle updated >>= λ p. ServerCalls.update_server s id p)
            h,
        >>=-eq_of_thrown (admit ctx) (λ _. ServerCalls.delete_server s id) h,
        >>=-eq_of_thrown (admit ctx) (λ _. ServerCalls.get_env_variables s id) h,
        >>=-eq_of_thrown (admit ctx)
            (λ _. settle variable >>= λ p. ServerCalls.set_env_variable s id p.0 p.1) h,
        >>=-eq_of_thrown (admit ctx) (λ _. ServerCalls.delete_env_variable s id key) h,
        >>=-eq_of_thrown (admit ctx)
            (λ _.
              ServerCalls.update_server s id (record no_server_changes { running = some running }))
            h,
        >>=-eq_of_thrown (admit ctx)
            (λ _. in_servers s p (ServerCalls.get_server_by_id s id false) >>= λ server.
              if not server.row.running
              then start_stopped s p initialized id
              else restart_running s p initialized id)
            (admit-refuses ctx (record { servers = w; pods = pods }) e refused),
      )

  -- A user whom `requireAuth` admits and who is no administrator is shown every server without
  -- its key and its variables, in the list and alone.
  pub reads_hide_secrets :
      (u : User) (id : String)
      → require_auth ctx ≡ ok u
      → (u.role == "admin") ≡ false
      → (ServerRoutes.get_all s ctx w ≡ (
        ok (
            map
              (λ r. record { row = record r { api_key = "" }; env_variables = [] })
              (s.find_many w.db)),
        w,
      ))
        × (ServerRoutes.get s ctx id w ≡ (
          elim (s.find_unique id w.db) [
            | none ↦ thrown (Thrown.domain (DomainError.not_found "Server" (some id)))
            | some r ↦ ok (record { row = record r { api_key = "" }; env_variables = [] })
          ],
          w,
        ))
  unfolding ServerRoutes.get_all ServerRoutes.get ServerCalls.get_all_servers
      ServerCalls.get_server_by_id ServerRows.find_all ServerRows.find_by_id Crud.get_all
      Crud.get_by_id Crud.in_db Rows.find_by_id Rows.find_all
  reads_hide_secrets u id h no_admin = (
    >>=-eq_of_ok (settle (require_auth ctx))
          (λ user. ServerCalls.get_all_servers s (is_no_admin user)) (ap (λ r. (r, w)) h)
        ∙ rw no_admin (in_db-eq (ServerRows.find_all s true) w refl),
    >>=-eq_of_ok (settle (require_auth ctx))
          (λ user. ServerCalls.get_server_by_id s id (is_no_admin user)) (ap (λ r. (r, w)) h)
        ∙ rw no_admin (alone (s.find_unique id w.db)),
  )
    where
      alone :
          (o : Option Server)
          → or_throw
              (elim o [
                | none ↦ none
                | some r ↦ some (Rows.shown s "Server" without_key true id r w.db)
              ])
              (Thrown.domain (DomainError.not_found "Server" (some id)))
              w
            ≡ (
              elim o [
                | none ↦ thrown (Thrown.domain (DomainError.not_found "Server" (some id)))
                | some r ↦ ok (record { row = record r { api_key = "" }; env_variables = [] })
              ],
              w,
            )
      alone none = refl
      alone (some r) = refl

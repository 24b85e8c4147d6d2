-- ===== src/Servers/Routes/Restarts.antt =====
-- What a restart of a server does (apps/backend/src/routes/servers.ts).
use minikura.Common.{
  String, true, false, not, ◌&&◌, none, some, List, [], ◌∷◌, ◌==◌, ◌+++◌, ◌≡◌, ◌∙◌, refl, ap, All,
  contains, distinct_texts, ok, arith, if◌then◌else◌, eq_iff, ◌>>=◌, or_throw, >>=-eq_of_ok,
}
use minikura.Domain.Errors.{Thrown, DomainError}
use minikura.Operator.Names.{operator_resource_name}
use minikura.Users.Guards.{AuthContext}
use minikura.Servers.Entities.{Server}
use minikura.Servers.Store.{Store, joined}
use minikura.Servers.Crud.Laws.{in_db-eq}
use minikura.Servers.Service.ServerCalls.{ServerWorld}
use minikura.Servers.Crud
use minikura.Servers.Repository.Rows
use minikura.Servers.Repository.ServerRows
use minikura.Servers.Service.ServerCalls
use minikura.Servers.Routes.Admission.{admit}
use minikura.Servers.Routes.Actions.{
  Pods, World, restart_pods, restart_running, restart, in_servers, start_stopped,
}

-- A label selects pods that are listed, each once. The deletion is graceful: that of a listed one
-- comes through and marks it, where it has no mark yet, and it may be listed until it has ended;
-- it touches no other pod.
pub record IsPods (p : Pods) : Type 1 where
  pub selected :
      (label : String) (t : p.State) (names : List String)
      → p.by_label label t ≡ ok names
      → (distinct_texts names ≡ true) × All (λ n. p.has n t ≡ true) names
  pub deleted :
      (n : String) (t : p.State)
      → p.has n t ≡ true
      → ((p.delete n t).0 ≡ ok tt)
        × ((j : String) → p.runs j (p.delete n t).1 ≡ (p.runs j t && not (n == j)))
        × ((j : String) → (n == j) ≡ false → p.has j (p.delete n t).1 ≡ p.has j t)

module _ (s : Store Server) (p : Pods) (laws : IsPods p) where
  still_there :
      (n : String) (names : List String) (t : p.State)
      → contains n names ≡ false
      → p.has n t ≡ true
      → All (λ j. p.has j t ≡ true) names
      → All (λ j. p.has j (p.delete n t).1 ≡ true) names
  still_there n [] t h k hs = tt
  still_there n (j ∷ names) t h k (there, hs) =
      let (_, _, kept) = laws.deleted n t k in
      (
        kept j (ground (arith, eq_iff n j, eq_iff j n)) ∙ there,
        still_there n names t (ground arith) k hs,
      )

  restart_pods-ok :
      (names : List String) (t : p.State)
      → distinct_texts names ≡ true
      → All (λ n. p.has n t ≡ true) names
      → ((restart_pods s p true names t).0 ≡ ok tt)
        × ((j : String)
            → p.runs j (restart_pods s p true names t).1 ≡ (p.runs j t && not (contains j names)))
  unfolding restart_pods
  restart_pods-ok [] t d h = (refl, λ j. ground arith)
  restart_pods-ok (n ∷ names) t d (there, hs) =
      let (came, gone, _) = laws.deleted n t there in
      let later =
        restart_pods-ok names (p.delete n t).1 (ground arith)
          (still_there n names t (ground arith) there hs) in
      (rw came later.0, λ j. later.1 j ∙ rw (gone j) (ground arith))

  got :
      (id : String) (w : ServerWorld s) (r : Server)
      → s.find_unique id w.db ≡ some r
      → ServerCalls.get_server_by_id s id false w ≡ (ok (joined s id r w.db), w)
  unfolding ServerCalls.get_server_by_id Crud.get_by_id ServerRows.find_by_id Rows.find_by_id
  got id w r found =
      >>=-eq_of_ok (Crud.in_db (ServerRows.find_by_id s id false))
        (λ entity. or_throw entity (Thrown.domain (DomainError.not_found "Server" (some id))))
        (in_db-eq (ServerRows.find_by_id s id false) w {r = ok (some (joined s id r w.db))}
          {t = w.db}
          (ap (λ o. (ok (elim o [ none ↦ none | some q ↦ some (joined s id q w.db) ]), w.db))
            found))

  -- Where the caller is admitted, a restart of a server that is there, runs and has a name of a
  -- resource for its id comes through: of the pods that are not marked for deletion exactly those
  -- that the label of the server selects are marked, and no server changes and no event is
  -- published.
  pub restart_lem :
      (ctx : AuthContext) (id : String) (w : World s p) (r : Server) (names : List String)
      → admit ctx w ≡ (ok tt, w)
      → s.find_unique id w.servers.db ≡ some r
      → r.running ≡ true
      → operator_resource_name id ≡ ok id
      → p.by_label ("minikura.kirameki.cafe/server-id=" +++ id) w.pods ≡ ok names
      → (w' : World s p) × (restart s p true ctx id w ≡ (ok tt, w'))
        × (w'.servers ≡ w.servers)
        × ((j : String) → p.runs j w'.pods ≡ (p.runs j w.pods && not (contains j names)))
  unfolding restart restart_pods
  restart_lem ctx id w r names admitted found runs valid listed =
      let (distinct, there) =
        laws.selected ("minikura.kirameki.cafe/server-id=" +++ id) w.pods names listed in
      let (comes, gone) = restart_pods-ok names w.pods distinct there in
      (
        record w { pods = (restart_pods s p true names w.pods).1 },
        >>=-eq_of_ok (admit ctx)
              (λ _. in_servers s p (ServerCalls.get_server_by_id s id false) >>= λ server.
                if not server.row.running
                then start_stopped s p true id
                else restart_running s p true id)
              admitted
            ∙ >>=-eq_of_ok (in_servers s p (ServerCalls.get_server_by_id s id false))
                (λ server.
                  if not server.row.running
                  then start_stopped s p true id
                  else restart_running s p true id)
                (ap (λ x. (x.0, record w { servers = x.1 })) (got id w.servers r found))
            ∙ rw (runs, valid, listed, comes) refl,
        refl,
        gone,
      )

-- ===== src/Servers/Routes/RestartTests.antt =====
-- A restart on a cluster with one pod, which keeps the laws asked of it, and a caller who may not
-- restart.
use minikura.Common.{
  String, Bool, true, false, not, ◌&&◌, some, List, [], ◌∷◌, ◌==◌, ◌≡◌, refl, ap, subst,
  distinct_texts, All, Settled, ok, thrown, arith, eq_iff, if◌then◌else◌, contains,
}
use minikura.Domain.Errors.{Thrown}
use minikura.Users.Guards.{AuthContext, require_admin}
use minikura.Operator.Names.{operator_resource_name, is_alphanumeric, is_label_char}
use minikura.Servers.Tests
use minikura.Servers.Tests.{table, lobby, input}
use minikura.Servers.Inputs.{no_server_changes}
use minikura.Servers.Routes.ServerRoutes
use minikura.Servers.Routes.Access.{writes_need_admin}
use minikura.Servers.Routes.Admission.{admit}
use minikura.Servers.Routes.Actions.{Pods, World, restart}
use minikura.Servers.Routes.Restarts.{IsPods, restart_lem}
use minikura.Servers.Routes.Tests.{player, context, refusal}

-- Whether the pod is listed, and whether it has no mark for deletion.
abbrev pods : Pods
pods = record {
  State = Bool × Bool;
  has = λ n t. t.0 && n == "lobby-0";
  runs = λ n t. t.0 && t.1 && n == "lobby-0";
  by_label = λ label t. ok (if t.0 then "lobby-0" ∷ [] else []);
  delete = λ n t.
      if t.0 && n == "lobby-0"
      then (ok tt, (true, false))
      else (thrown (Thrown.error "ApiException" "HTTP-Code: 404"), t);
}

abbrev names_of : Settled Thrown (List String) → List String
names_of (ok names) = names
names_of (thrown e) = []

pods-IsPods : IsPods pods
pods-IsPods = record { selected = selected; deleted = deleted }
  where
    selected :
        (label : String) (t : Bool × Bool) (names : List String)
        → ◌≡◌ {A = Settled Thrown (List String)}
            (ok (if t.0 then "lobby-0" ∷ [] else []))
            (ok names)
        → (distinct_texts names ≡ true) × All (λ n. (t.0 && n == "lobby-0") ≡ true) names
    selected label (true, marked) names e =
        subst (λ ns. (distinct_texts ns ≡ true) × All (λ n. (n == "lobby-0") ≡ true) ns)
          (ap names_of e) (refl, (refl, tt))
    selected label (false, marked) names e =
        subst (λ ns. (distinct_texts ns ≡ true) × All (λ n. false ≡ true) ns) (ap names_of e)
          (refl, tt)

    deleted :
        (n : String) (t : Bool × Bool)
        → (t.0 && n == "lobby-0") ≡ true
        → ((pods.delete n t).0 ≡ ok tt)
          × ((j : String) → pods.runs j (pods.delete n t).1 ≡ (pods.runs j t && not (n == j)))
          × ((j : String) → (n == j) ≡ false → pods.has j (pods.delete n t).1 ≡ pods.has j t)
    deleted n (true, v) h = (
      rw h refl,
      λ j. rw h (ground (arith, eq_iff n j, eq_iff n "lobby-0", eq_iff j "lobby-0")),
      λ j apart. rw h refl,
    )
    deleted n (false, v) h = cc h

abbrev admin : AuthContext
admin = record context { user = some (record player { role = "admin" }) }

abbrev world : World table pods
world = record { servers = Tests.world; pods = (true, true) }

restart_lem_example :
    (w' : World table pods) × (restart table pods true admin "lobby" world ≡ (ok tt, w'))
    × (w'.servers ≡ world.servers)
    × ((j : String)
        → pods.runs j w'.pods ≡ (pods.runs j (true, true) && not (contains j ("lobby-0" ∷ []))))
unfolding admit operator_resource_name is_alphanumeric is_label_char
restart_lem_example =
    restart_lem table pods pods-IsPods admin "lobby" world lobby ("lobby-0" ∷ []) refl refl refl
      refl refl

writes_need_admin_example :
    (ServerRoutes.post table context "abc" (ok input) Tests.world ≡ (thrown refusal, Tests.world))
    × (ServerRoutes.patch table context "lobby" (ok no_server_changes) Tests.world
        ≡ (thrown refusal, Tests.world))
    × (ServerRoutes.delete table context "lobby" Tests.world ≡ (thrown refusal, Tests.world))
    × (ServerRoutes.get_env table context "lobby" Tests.world ≡ (thrown refusal, Tests.world))
    × (ServerRoutes.post_env table context "lobby" (ok ("MODE", "b")) Tests.world
        ≡ (thrown refusal, Tests.world))
    × (ServerRoutes.delete_env table context "lobby" "MODE" Tests.world
        ≡ (thrown refusal, Tests.world))
    × (ServerRoutes.switch table false context "lobby" Tests.world ≡ (thrown refusal, Tests.world))
    × (restart table pods true context "lobby" world ≡ (thrown refusal, world))
unfolding require_admin
writes_need_admin_example =
    writes_need_admin table context Tests.world refusal "lobby" "MODE" "abc" false true pods
      (true, true) (ok input) (ok no_server_changes) (ok ("MODE", "b")) refl

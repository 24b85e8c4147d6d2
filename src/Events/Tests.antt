-- ===== src/Events/Tests.antt =====
-- The bus and the sockets at concrete handlers and clients.
use minikura.Common.{
  String, Bool, not, ◌&&◌, List, [], ◌∷◌, ◌++◌, ◌==◌, ◌≡◌, refl, contains, ok, thrown,
  if◌then◌else◌,
}
use minikura.Domain.Errors.{Thrown, Action}
use minikura.Events.Bus.{no_handlers, handlers_of, subscribe, unsubscribe, publish}
use minikura.Events.Bus.Laws.{Change, subscribed, unsubscribed, apply_all}
use minikura.Events.Sockets.{Message, Sockets, broadcast}
use minikura.Events.Sockets.Laws.{broadcast_reaches}

abbrev changes : List Change
changes =
    subscribed "ServerCreatedEvent" "a"
    ∷ subscribed "ServerCreatedEvent" "b"
    ∷ unsubscribed "ServerCreatedEvent" "a"
    ∷ []

only_b : handlers_of "ServerCreatedEvent" (apply_all changes no_handlers) ≡ "b" ∷ []
unfolding subscribe unsubscribe
only_b = refl

-- The first handler throws, and the second is called all the same.
abbrev notes : String → String → Action (List String) (Unit {0})
notes h e w = if h == "a" then (thrown (Thrown.value "boom"), w) else (ok tt, w ++ e ∷ [])

past_a_throw :
    publish notes (subscribe "e" "b" (subscribe "e" "a" no_handlers)) "e" "event" []
    ≡ (Thrown.value "boom" ∷ [], "event" ∷ [])
unfolding publish subscribe
past_a_throw = refl

abbrev two : Sockets
two = record { clients = "x" ∷ "y" ∷ []; sent = [] }

abbrev y_fails : String → Bool
y_fails c = c == "y"

broadcast_reaches_example :
    let s = broadcast y_fails 5 "CREATE" "STATEFUL" "lobby" two in
    let m : Message = record {
      action = "CREATE";
      server_type = "STATEFUL";
      server_id = "lobby";
      timestamp = 5;
    } in
    (s.sent ≡ ("x", m) ∷ [])
    × ((c : String) → contains c s.clients ≡ (contains c two.clients && not (y_fails c)))
broadcast_reaches_example = broadcast_reaches y_fails 5 "CREATE" "STATEFUL" "lobby" two

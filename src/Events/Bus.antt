-- ===== src/Events/Bus.antt =====
-- The event bus (apps/backend/src/infrastructure/event-bus.ts). A handler is known by its identity,
-- a text here; what it does is the argument `run`. No handler of the program subscribes while an
-- event is being published, so the bus stands still during a publication.
pub mod Laws
use minikura.Common.{
  String, Bool, true, false, not, Option, none, some, List, [], ◌∷◌, ◌++◌, ◌==◌, if◌then◌else◌,
  contains, filter, lookup, insert, or_else, Settled, ok, thrown,
}
use minikura.Domain.Errors.{Thrown, Action}

-- The map from event names to sets of handlers, in the order of insertion.
abbrev pub Handlers : Type 0
Handlers = List (String × List String)

abbrev pub no_handlers : Handlers
no_handlers = []

-- `set.add(handler)` and `set.delete(handler)`
abbrev pub add : String → List String → List String
add h hs = if contains h hs then hs else hs ++ h ∷ []

abbrev pub discard : String → List String → List String
discard h = filter (λ k. not (k == h))

abbrev pub handlers_of : String → Handlers → List String
handlers_of name bus = or_else (lookup name bus) []

unfoldable pub subscribe : String → String → Handlers → Handlers
subscribe name h bus = insert name (add h (handlers_of name bus)) bus

-- The function that `subscribe` returns.
unfoldable pub unsubscribe : String → String → Handlers → Handlers
unsubscribe name h bus = elim (lookup name bus) [
  | none ↦ bus
  | some hs ↦ insert name (discard h hs) bus
]

module _ {Event W : Type 0} (run : String → Event → Action W (Unit {0})) where
  -- What a handler throws is logged, and the loop goes on.
  abbrev log_error : Settled Thrown (Unit {0}) → List Thrown → List Thrown
  log_error (ok _) log = log
  log_error (thrown e) log = log ++ e ∷ []

  run_all : Event → List String → List Thrown → W → List Thrown × W
  run_all e [] log w = (log, w)
  run_all e (h ∷ hs) log w = let (r, w') = run h e w in run_all e hs (log_error r log) w'

  -- The log of this publication, and the world that the handlers leave.
  unfoldable pub publish : Handlers → String → Event → W → List Thrown × W
  unfolding run_all
  publish bus name e w = run_all e (handlers_of name bus) [] w

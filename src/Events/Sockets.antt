-- ===== src/Events/Sockets.antt =====
-- The sockets that are told of changes (apps/backend/src/services/websocket.ts). A client is known
-- by its identity, a text here; whether a send to it throws is the argument `fails`.
pub mod Laws
use minikura.Common.{
  ℕ, suc, ◌+◌, String, Bool, true, false, List, [], ◌∷◌, ◌++◌, ◌==◌, if◌then◌else◌, length,
}
use minikura.Events.Bus.{add, discard}

-- The object that `broadcast` turns into JSON.
pub record Message : Type 0 where
  pub action : String
  pub server_type : String
  pub server_id : String
  pub timestamp : ℕ

pub record Sockets : Type 0 where
  pub clients : List String
  pub sent : List (String × Message)

unfoldable pub add_client : String → Sockets → Sockets
add_client c s = record s { clients = add c s.clients }

unfoldable pub remove_client : String → Sockets → Sockets
remove_client c s = record s { clients = discard c s.clients }

module _ (fails : String → Bool) where
  -- One round of the loop: the send comes through and is seen by the client, or the client goes.
  tell : Message → String → Sockets → Sockets
  tell m c s =
      if fails c
      then record s { clients = discard c s.clients }
      else record s { sent = s.sent ++ (c, m) ∷ [] }

  for_each : Message → List String → Sockets → Sockets
  for_each m [] s = s
  for_each m (c ∷ cs) s = for_each m cs (tell m c s)

  unfoldable pub broadcast : ℕ → String → String → String → Sockets → Sockets
  unfolding for_each tell
  broadcast now action server_type server_id s =
      for_each
        (record {
          action = action;
          server_type = server_type;
          server_id = server_id;
          timestamp = now;
        })
        s.clients s

unfoldable pub get_client_count : Sockets → ℕ
get_client_count s = length s.clients

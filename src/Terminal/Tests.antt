-- ===== src/Terminal/Tests.antt =====
-- The terminal's theorems at concrete sessions, and a run.
use minikura.Common.{
  ℕ, true, false, none, some, List, [], ◌∷◌, ◌≡◌, refl, Settled, ok, thrown, ◌+++◌,
}
use minikura.Domain.Errors.{Thrown}
use minikura.Users.Account.{User}
use minikura.Servers.Routes.Tests.{player}
use minikura.Terminal.Opening.{
  Kind, ReadyState, ExecRequest, Upstream, Session, fresh, send, Query, error_message, KubeConfig,
  Encoders, exec_request, open_terminal,
}
use minikura.Terminal.Traffic.{
  JsonValue, Json, ClientData, Codec, client_message, client_closed, kubernetes_opened,
  process_buffer,
}
use minikura.Terminal.History.{channel_text, echo, input-echo, ready_state, left_behind}

abbrev encoders : Encoders
encoders = record { params = λ ps. "params"; to_base64 = λ s. s; from_base64 = λ s. s }

abbrev constructed : ExecRequest → Settled Thrown (Unit {0})
constructed r = ok tt

-- A code that keeps one text.
abbrev codec : Codec
codec = record {
  encode = λ s. 7 ∷ [];
  decode = λ b. "ls";
  parse = λ s.
      some (Json.object (("type", JsonValue.text "input") ∷ ("data", JsonValue.text "ls") ∷ []));
  parse_status = λ s. none;
}

abbrev config : KubeConfig
config = record {
  namespace = "minikura";
  cluster = some (record { server = "https://k8s"; skip_tls_verify = false; ca_data = none });
  user = none;
}

abbrev query : Query
query = record { pod_name = some "lobby-0"; container = none; shell = none; mode = none }

abbrev admin : User
admin = record player { role = "admin" }

opening : Session
unfolding open_terminal
opening = open_terminal encoders constructed 5 (some admin) true (ok config) query fresh

is_connecting : ready_state opening.upstream ≡ some ReadyState.connecting
unfolding opening
is_connecting = refl

abbrev connecting : Upstream
connecting = record {
  request = record {
    url = "wss://k8s/api/v1/namespaces/minikura/pods/lobby-0/exec?params";
    authorization = none;
    tls = record { reject_unauthorized = true; cert = none; key = none; ca = none };
  };
  pod_name = "lobby-0";
  container = none;
  is_console = false;
  ready_state = ReadyState.connecting;
}

address : opening.upstream ≡ some connecting
unfolding opening exec_request
address = refl

abbrev working : Session
working = record fresh { upstream = some (record connecting { ready_state = ReadyState.opened }) }

input-echo_example :
    (frame : List ℕ) × (client_message codec (ok tt) (ClientData.text "{}") working
      ≡ (record working { frames = frame ∷ [] }))
    × (channel_text codec frame ≡ some (0, "ls"))
    × (process_buffer codec (echo frame) working ≡ send Kind.output "ls" working)
    × ((e : Thrown)
        → client_message codec (thrown e) (ClientData.text "{}") working
          ≡ send Kind.error ("Error: " +++ error_message e) working)
input-echo_example =
    input-echo codec working "{}" "ls"
      (("type", JsonValue.text "input") ∷ ("data", JsonValue.text "ls") ∷ []) refl refl refl refl
      refl

left_behind_example :
    ((kubernetes_opened
        (ok none)
        (client_closed (record fresh { upstream = some connecting }))).is_open
      ≡ false)
    × (ready_state
          (kubernetes_opened
            (ok none)
            (client_closed (record fresh { upstream = some connecting }))).upstream
        ≡ some ReadyState.opened)
left_behind_example =
    left_behind (record fresh { upstream = some connecting }) connecting (ok none) refl refl

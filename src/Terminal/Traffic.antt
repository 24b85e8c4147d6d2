-- ===== src/Terminal/Traffic.antt =====
-- What passes through an open terminal, and its end (apps/backend/src/routes/terminal.ts). Texts are
-- encoded to bytes and JSON is read by the platform, which are arguments.
use minikura.Common.{
  ℕ, String, Bool, true, false, not, ◌&&◌, ◌||◌, Option, none, some, List, [], ◌∷◌, ◌++◌, leb, ◌==◌,
  ◌+++◌, Settled, ok, thrown, if◌then◌else◌, filled, or_else, lookup, split,
}
use minikura.Domain.Errors.{Thrown}
use minikura.Terminal.Opening.{
  Kind, Session, Upstream, ReadyState, send, close_client, error_message,
}

-- A value that JSON has, as far as it is looked at.
pub data JsonValue : Type 0 where
  text number : String → JsonValue
  other : JsonValue

pub data Json : Type 0 where
  no_object : Json
  object : List (String × JsonValue) → Json

-- A message from the client: a text, or what is none.
pub data ClientData : Type 0 where
  text : String → ClientData
  binary : ClientData

pub data TerminalMessage : Type 0 where
  input : String → TerminalMessage
  resize : String → String → TerminalMessage

-- The status at the end of a command.
pub record Status : Type 0 where
  pub status : Option String
  pub message : Option String

pub record Codec : Type 0 where
  pub encode : String → List ℕ
  pub decode : List ℕ → String
  pub parse : String → Option Json
  pub parse_status : String → Option Status

abbrev input_of : Option JsonValue → Option TerminalMessage
input_of (some (JsonValue.text data_text)) = some (TerminalMessage.input data_text)
input_of _ = none

abbrev resize_of : Option JsonValue → Option JsonValue → Option TerminalMessage
resize_of (some (JsonValue.number cols)) (some (JsonValue.number rows)) =
    some (TerminalMessage.resize cols rows)
resize_of _ _ = none

abbrev typed : List (String × JsonValue) → Option JsonValue → Option TerminalMessage
typed fields (some (JsonValue.text kind)) =
    if kind == "input"
    then input_of (lookup "data" fields)
    else if kind == "resize"
    then resize_of (lookup "cols" fields) (lookup "rows" fields)
    else none
typed fields _ = none

-- `isTerminalMessage(parsed) ? parsed : null`
abbrev pub terminal_message : Option Json → Option TerminalMessage
terminal_message (some (Json.object fields)) = typed fields (lookup "type" fields)
terminal_message _ = none

unfoldable pub parse_terminal_message : Codec → ClientData → Option TerminalMessage
parse_terminal_message codec (ClientData.text message) = terminal_message (codec.parse message)
parse_terminal_message codec ClientData.binary = none

-- A number of JSON is written as it was read.
abbrev pub resize_text : String → String → String
resize_text cols rows = "{\"Width\":" +++ cols +++ ",\"Height\":" +++ rows +++ "}"

-- The frames of the channels: 0 for the input, 4 for the size.
unfoldable pub frame_of : Codec → TerminalMessage → List ℕ
frame_of codec (TerminalMessage.input data_text) = 0 ∷ codec.encode data_text
frame_of codec (TerminalMessage.resize cols rows) = 4 ∷ codec.encode (resize_text cols rows)

abbrev pub is_opened : ReadyState → Bool
is_opened ReadyState.opened = true
is_opened _ = false

abbrev pub upstream_opened : Option Upstream → Bool
upstream_opened none = false
upstream_opened (some u) = is_opened u.ready_state

-- `sent` is what the send to Kubernetes comes to; the client is told of what it throws.
abbrev pub send_frame : Settled Thrown (Unit {0}) → List ℕ → Session → Session
send_frame (ok _) frame s = record s { frames = s.frames ++ frame ∷ [] }
send_frame (thrown e) frame s = send Kind.error ("Error: " +++ error_message e) s

abbrev pub forward : Codec → Settled Thrown (Unit {0}) → Option TerminalMessage → Session → Session
forward codec sent none s = s
forward codec sent (some message) s =
    if not (upstream_opened s.upstream) then s else send_frame sent (frame_of codec message) s

unfoldable pub client_message : Codec → Settled Thrown (Unit {0}) → ClientData → Session → Session
unfolding parse_terminal_message frame_of
client_message codec sent message s = forward codec sent (parse_terminal_message codec message) s

abbrev set_ready : ReadyState → Option Upstream → Option Upstream
set_ready state none = none
set_ready state (some u) = some (record u { ready_state = state })

-- The client is gone.
unfoldable pub client_closed : Session → Session
client_closed s =
    if upstream_opened s.upstream
    then record s { is_open = false; upstream = set_ready ReadyState.closing s.upstream }
    else close_client s

-- The lines of the log that was there before.
unfoldable pub send_lines : List String → Session → Session
send_lines [] s = s
send_lines (line ∷ lines) s = send_lines lines (send Kind.output (line +++ "\r\n") s)

abbrev pub send_log : Option String → Session → Session
send_log none s = s
send_log (some logs) s = send_lines (split b'\n' logs) s

abbrev pub greet_console : Settled Thrown (Option String) → Session → Session
greet_console (ok logs) s = send Kind.ready "Minecraft console ready" (send_log (filled logs) s)
greet_console (thrown e) s = send Kind.ready "Minecraft console ready" s

abbrev pub greet : Option Upstream → Settled Thrown (Option String) → Session → Session
greet none logs s = s
greet (some u) logs s =
    if u.is_console then greet_console logs s else send Kind.ready "Shell ready" s

-- Kubernetes has opened the connection; `logs` is what it answers for the log of the pod.
unfoldable pub kubernetes_opened : Settled Thrown (Option String) → Session → Session
unfolding send_lines split
kubernetes_opened logs s =
    greet s.upstream logs (record s { upstream = set_ready ReadyState.opened s.upstream })

abbrev report : String → Option Status → Session → Session
report message none s = send Kind.error message s
report message (some status) s =
    if or_else status.status "" == "Success"
    then s
    else send Kind.error (or_else (filled status.message) message) s

abbrev is_byte : ℕ → ℕ → Bool
is_byte a b = leb a b && leb b a

-- `processBuffer`
unfoldable pub process_buffer : Codec → List ℕ → Session → Session
process_buffer codec [] s = s
process_buffer codec (channel ∷ bytes) s =
    let message = codec.decode bytes in
    if is_byte channel 1 || is_byte channel 2
    then send Kind.output message s
    else if is_byte channel 3
    then report message (codec.parse_status message) s
    else s

unfoldable pub kubernetes_error : Thrown → Session → Session
kubernetes_error e s = send Kind.error ("Connection error: " +++ error_message e) s

-- `code` is written in decimal digits.
unfoldable pub kubernetes_closed : String → String → Session → Session
kubernetes_closed code reason s =
    let ended = record s { upstream = set_ready ReadyState.closed s.upstream } in
    close_client (
      send Kind.close (or_else (filled (some reason)) ("Connection closed (" +++ code +++ ")"))
        ended)

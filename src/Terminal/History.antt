-- ===== src/Terminal/History.antt =====
-- The life of a terminal as steps: what the client and Kubernetes may do, and what always holds.
use minikura.Common.{
  ℕ, String, Bool, true, false, Option, none, some, List, [], ◌∷◌, ◌++◌, ◌≡◌, refl, sym, ap, subst,
  Settled, Bool-cases, inl, inr, lookup, ◌+++◌, ok, thrown, filled, split,
}
use minikura.Domain.Errors.{Thrown}
use minikura.Users.Account.{User}
use minikura.Terminal.Opening.{
  Kind, ReadyState, ExecRequest, Upstream, Session, fresh, send, refuse, close_client, Query,
  error_message, KubeConfig, Encoders, open_terminal,
}
use minikura.Terminal.Traffic.{
  JsonValue, Json, ClientData, Codec, upstream_opened, client_message, client_closed,
  kubernetes_opened, greet, greet_console, send_log, send_lines, process_buffer, kubernetes_error,
  kubernetes_closed, parse_terminal_message, frame_of, TerminalMessage, terminal_message,
}

abbrev pub ready_state : Option Upstream → Option ReadyState
ready_state none = none
ready_state (some u) = some u.ready_state

-- A terminal that was refused for want of the permission.
abbrev pub refused : Session
refused = refuse "Admin access required" fresh

module _ (e : Encoders) (constructed : ExecRequest → Settled Thrown (Unit {0})) (codec : Codec)
    (now : ℕ) (user : Option User) (initialized : Bool) (config : Settled Thrown KubeConfig)
    (query : Query) where
  -- The states of a terminal. Kubernetes opens a connection that is connecting, sends on one that
  -- is open, and reports on one that there is.
  pub data Reach : Session → Type 0 where
    begins : Reach (open_terminal e constructed now user initialized config query fresh)
    types :
        (s : Session) (sent : Settled Thrown (Unit {0})) (m : ClientData)
        → Reach s
        → Reach (client_message codec sent m s)
    leaves : (s : Session) → Reach s → Reach (client_closed s)
    opens :
        (s : Session) (logs : Settled Thrown (Option String))
        → Reach s
        → ready_state s.upstream ≡ some ReadyState.connecting
        → Reach (kubernetes_opened logs s)
    sends :
        (s : Session) (bytes : List ℕ)
        → Reach s
        → upstream_opened s.upstream ≡ true
        → Reach (process_buffer codec bytes s)
    reports :
        (s : Session) (u : Upstream) (x : Thrown)
        → Reach s
        → s.upstream ≡ some u
        → Reach (kubernetes_error x s)
    ends :
        (s : Session) (u : Upstream) (code reason : String)
        → Reach s
        → s.upstream ≡ some u
        → Reach (kubernetes_closed code reason s)

-- The text of a frame, printed by the shell.
abbrev pub echo : List ℕ → List ℕ
echo [] = []
echo (channel ∷ bytes) = 1 ∷ bytes

module _ (codec : Codec) where
  -- What Kubernetes makes of a frame of the input: its channel, and the text.
  abbrev pub channel_text : List ℕ → Option (ℕ × String)
  channel_text [] = none
  channel_text (channel ∷ bytes) = some (channel, codec.decode bytes)

  -- While the connection is open, a message of input, whose text is what its bytes are decoded to,
  -- is forwarded as one frame, which carries its text on the channel of the input; and when the
  -- shell prints what it was sent, the client is sent this text as output. Where the send of the
  -- frame throws, the client is told of the error instead.
  pub input-echo :
      (s : Session) (message text : String) (fields : List (String × JsonValue))
      → upstream_opened s.upstream ≡ true
      → codec.parse message ≡ some (Json.object fields)
      → lookup "type" fields ≡ some (JsonValue.text "input")
      → lookup "data" fields ≡ some (JsonValue.text text)
      → codec.decode (codec.encode text) ≡ text
      → (frame : List ℕ) × (client_message codec (ok tt) (ClientData.text message) s
          ≡ (record s { frames = s.frames ++ frame ∷ [] }))
        × (channel_text frame ≡ some (0, text))
        × (process_buffer codec (echo frame) s ≡ send Kind.output text s)
        × ((e : Thrown)
            → client_message codec (thrown e) (ClientData.text message) s
              ≡ send Kind.error ("Error: " +++ error_message e) s)
  unfolding client_message process_buffer frame_of parse_terminal_message
  input-echo s message text fields opened parsed kind said decodes =
      let message_of : terminal_message (codec.parse message) ≡ some (TerminalMessage.input text) =
        rw (parsed, kind, said) refl in
      (
        frame_of codec (TerminalMessage.input text),
        rw (message_of, opened) refl,
        rw decodes refl,
        rw decodes refl,
        λ e. rw (message_of, opened) refl,
      )

-- Greeting a client changes neither its socket nor the connection.
abbrev Keeps : Session → Session → Type 0
Keeps s u = (u.is_open ≡ s.is_open) × (u.upstream ≡ s.upstream)

send_lines-Keeps : (lines : List String) (s : Session) → Keeps s (send_lines lines s)
unfolding send_lines
send_lines-Keeps [] s = (refl, refl)
send_lines-Keeps (line ∷ lines) s = send_lines-Keeps lines (send Kind.output (line +++ "\r\n") s)

greet-Keeps :
    (u : Option Upstream) (logs : Settled Thrown (Option String)) (s : Session)
    → Keeps s (greet u logs s)
greet-Keeps none logs s = (refl, refl)
greet-Keeps (some u) logs s = elim (Bool-cases u.is_console) [
  | inr h ↦ rw h (refl, refl)
  | inl h ↦ rw h (console logs)
]
  where
    log_kept : (o : Option String) → Keeps s (send_log o s)
    log_kept none = (refl, refl)
    log_kept (some text) = send_lines-Keeps (split b'\n' text) s

    console : (l : Settled Thrown (Option String)) → Keeps s (greet_console l s)
    console (thrown e) = (refl, refl)
    console (ok o) = log_kept (filled o)

-- A client that leaves while the connection is being made leaves it behind: it is not closed, and
-- when Kubernetes opens it afterwards, it is open, although the client is gone.
pub left_behind :
    (s : Session) (u : Upstream) (logs : Settled Thrown (Option String))
    → s.upstream ≡ some u
    → u.ready_state ≡ ReadyState.connecting
    → ((kubernetes_opened logs (client_closed s)).is_open ≡ false)
      × (ready_state (kubernetes_opened logs (client_closed s)).upstream ≡ some ReadyState.opened)
unfolding client_closed kubernetes_opened
left_behind s u logs h k =
    let gone : client_closed s ≡ close_client s = rw (h, k) refl in
    let now : Session = record (close_client s) {
      upstream = some (record u { ready_state = ReadyState.opened });
    } in
    let (shut, kept) = greet-Keeps (some u) logs now in
    subst
      (λ x.
        ((kubernetes_opened logs x).is_open ≡ false)
        × (ready_state (kubernetes_opened logs x).upstream ≡ some ReadyState.opened))
      (sym gone) (rw h (shut, ap ready_state kept))

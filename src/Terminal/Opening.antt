-- ===== src/Terminal/Opening.antt =====
-- The opening of a terminal (apps/backend/src/routes/terminal.ts). The session that the
-- authentication library answers with, the configuration of the cluster, and what encodes are
-- arguments; so is whether the socket's constructor throws.
use Prim.Native.String.{find, slice, len}
use minikura.Common.{
  ℕ, ◌+◌, String, Bool, true, false, not, ◌&&◌, ◌||◌, Option, none, some, List, [], ◌∷◌, ◌++◌, map,
  ltb, ◌==◌, ◌+++◌, Settled, ok, thrown, if◌then◌else◌, filled, or_else,
}
use minikura.Domain.Errors
use minikura.Domain.Errors.{Thrown}
use minikura.Users.Account.{User, is_user_suspended}

-- What goes to the client.
pub data Kind : Type 0 where
  output ready error close : Kind

pub record Message : Type 0 where
  pub kind : Kind
  pub data_text : String

pub data ReadyState : Type 0 where
  connecting opened closing closed : ReadyState

pub record TlsOptions : Type 0 where
  pub reject_unauthorized : Bool
  pub cert : Option String
  pub key : Option String
  pub ca : Option String

-- The connection that is asked of Kubernetes.
pub record ExecRequest : Type 0 where
  pub url : String
  pub authorization : Option String
  pub tls : TlsOptions

pub record Upstream : Type 0 where
  pub request : ExecRequest
  pub pod_name : String
  pub container : Option String
  pub is_console : Bool
  pub ready_state : ReadyState

-- A client's socket: the connection behind it, what was sent to the client, and the frames that
-- were sent to Kubernetes.
pub record Session : Type 0 where
  pub upstream : Option Upstream
  pub is_open : Bool
  pub sent : List Message
  pub frames : List (List ℕ)

abbrev pub fresh : Session
fresh = record { upstream = none; is_open = true; sent = []; frames = [] }

-- `ws.send(JSON.stringify({ type, data }))`
abbrev pub send : Kind → String → Session → Session
send kind text s = record s { sent = s.sent ++ record { kind = kind; data_text = text } ∷ [] }

-- `ws.close()`
abbrev pub close_client : Session → Session
close_client s = record s { is_open = false }

-- `ws.send(error); ws.close(); return;`
abbrev pub refuse : String → Session → Session
refuse text s = close_client (send Kind.error text s)

pub record Query : Type 0 where
  pub pod_name : Option String
  pub container : Option String
  pub shell : Option String
  pub mode : Option String

pub record KubeCluster : Type 0 where
  pub server : String
  pub skip_tls_verify : Bool
  pub ca_data : Option String

pub record KubeUser : Type 0 where
  pub token : Option String
  pub username : Option String
  pub password : Option String
  pub cert_data : Option String
  pub key_data : Option String

pub record KubeConfig : Type 0 where
  pub namespace : String
  pub cluster : Option KubeCluster
  pub user : Option KubeUser

-- What the platform encodes: the parameters of an address, and base 64 in both directions.
pub record Encoders : Type 0 where
  pub params : List (String × String) → String
  pub to_base64 : String → String
  pub from_base64 : String → String

-- `user?.role === "admin" && !suspended`
abbrev pub is_admitted : ℕ → Option User → Bool
is_admitted now none = false
is_admitted now (some u) = u.role == "admin" && not (u.banned || is_user_suspended now u)

-- `s.replace(old, replacement)` for a text: the first occurrence.
unfoldable pub replace_first : String → String → String → String
replace_first old replacement s =
    let i = find s old in
    if ltb (len s) i then s else slice s 0 i +++ replacement +++ slice s (i + len old) (len s)

abbrev console_command : List String
console_command =
    "/bin/sh" ∷ "-c"
    ∷ "tail -n 0 -F /data/logs/latest.log & tail_pid=$!; trap \"kill $tail_pid\" EXIT; cat > /tmp/minikura-console"
    ∷ []

abbrev pub command : Bool → String → List String
command is_console shell = if is_console then console_command else shell ∷ []

abbrev container_param : Option String → List (String × String)
container_param none = []
container_param (some container) = ("container", container) ∷ []

unfoldable pub exec_params : Bool → String → Option String → List (String × String)
exec_params is_console shell container =
    ("stdout", "true")
    ∷ ("stderr", "true")
    ∷ ("stdin", "true")
    ∷ ("tty", "true")
    ∷ (map (λ part. ("command", part)) (command is_console shell) ++ container_param container)

abbrev basic : Encoders → Option String → Option String → Option String
basic e (some username) (some password) =
    some ("Basic " +++ e.to_base64 (username +++ ":" +++ password))
basic e _ _ = none

abbrev authorization_of : Encoders → Option String → KubeUser → Option String
authorization_of e (some token) user = some ("Bearer " +++ token)
authorization_of e none user = basic e (filled user.username) (filled user.password)

abbrev pub authorization : Encoders → Option KubeUser → Option String
authorization e none = none
authorization e (some user) = authorization_of e (filled user.token) user

abbrev decoded : Encoders → Option String → Option String
decoded e none = none
decoded e (some text) = some (e.from_base64 text)

abbrev cert_of : Option KubeUser → Option String
cert_of none = none
cert_of (some user) = filled user.cert_data

abbrev key_of : Option KubeUser → Option String
key_of none = none
key_of (some user) = filled user.key_data

unfoldable pub exec_request :
    Encoders → KubeConfig → KubeCluster → String → Bool → String → Option String → ExecRequest
unfolding exec_params replace_first
exec_request e config cluster pod_name is_console shell container = record {
  url = replace_first "http://" "ws://" (
      replace_first "https://" "wss://" (
        cluster.server
        +++ "/api/v1/namespaces/"
        +++ config.namespace
        +++ "/pods/"
        +++ pod_name
        +++ "/exec?"
        +++ e.params (exec_params is_console shell container)));
  authorization = authorization e config.user;
  tls = record {
    reject_unauthorized = not cluster.skip_tls_verify;
    cert = decoded e (cert_of config.user);
    key = decoded e (key_of config.user);
    ca = decoded e (filled cluster.ca_data);
  };
}

-- `getErrorMessage(error)` (packages/shared/src/errors.ts), on what the code here may catch.
abbrev pub error_message : Thrown → String
error_message (Thrown.domain e) = Errors.message e
error_message (Thrown.error name text) = text
error_message (Thrown.value text) = text

-- The `catch` of the opening.
abbrev pub failed : Thrown → Session → Session
failed e s = refuse ("Failed to connect: " +++ error_message e) s

abbrev connected :
    ExecRequest → String → Option String → Bool → Settled Thrown (Unit {0}) → Session → Session
connected request pod_name container is_console (thrown e) s = failed e s
connected request pod_name container is_console (ok x) s = record s {
  upstream = some (record {
    request = request;
    pod_name = pod_name;
    container = container;
    is_console = is_console;
    ready_state = ReadyState.connecting;
  });
}

module _ (e : Encoders) (constructed : ExecRequest → Settled Thrown (Unit {0})) where
  abbrev connect :
      KubeConfig → Option KubeCluster → String → Bool → String → Option String → Session → Session
  connect config none pod_name is_console shell container s =
      failed (Thrown.error "Error" "No current cluster configured") s
  connect config (some cluster) pod_name is_console shell container s =
      let request = exec_request e config cluster pod_name is_console shell container in
      connected request pod_name container is_console (constructed request) s

  abbrev configure :
      Settled Thrown KubeConfig → String → Bool → String → Option String → Session → Session
  configure (thrown x) pod_name is_console shell container s = failed x s
  configure (ok config) pod_name is_console shell container s =
      connect config config.cluster pod_name is_console shell container s

  abbrev open_pod : Bool → Settled Thrown KubeConfig → Query → Option String → Session → Session
  open_pod initialized config query none s = refuse "Pod name is required" s
  open_pod initialized config query (some pod_name) s =
      if not initialized
      then refuse "Kubernetes client not initialized" s
      else configure config pod_name (or_else (filled query.mode) "shell" == "console")
          (or_else (filled query.shell) "/bin/sh") (filled query.container) s

  -- `now` is the time of the guard, `user` that of the session, `initialized` and `config` what the
  -- client of Kubernetes answers.
  unfoldable pub open_terminal :
      ℕ → Option User → Bool → Settled Thrown KubeConfig → Query → Session → Session
  unfolding exec_request is_user_suspended
  open_terminal now user initialized config query s =
      if not (is_admitted now user)
      then refuse "Admin access required" s
      else open_pod initialized config query (filled query.pod_name) s

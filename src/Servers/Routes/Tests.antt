-- ===== src/Servers/Routes/Tests.antt =====
-- The routes' theorems for a user who is no administrator.
use minikura.Common.{
  String, Option, ◌==◌, ◌∷◌, if◌then◌else◌, true, false, none, some, [], ◌≡◌, refl, ok,
}
use minikura.Domain.Errors.{DomainError, Thrown}
use minikura.Users.Account.{User}
use minikura.Users.Guards.{AuthContext, require_auth}
use minikura.Servers.Tests.{table, world, lobby}
use minikura.Servers.Routes.ServerRoutes
use minikura.Servers.PluginKeys.{require_plugin_kind}
use minikura.Servers.Routes.PluginRoutes.{get_servers}
use minikura.Servers.Routes.PluginAccess.{told, get_servers_lem}
use minikura.Operator.Names.{operator_resource_name, is_alphanumeric, is_label_char}
use minikura.Servers.Routes.Access.{reads_hide_secrets}

abbrev pub player : User
player = record {
  id = "carol";
  name = "Carol";
  email = "carol@example.org";
  role = "user";
  is_suspended = false;
  suspended_until = none;
  banned = false;
}

abbrev pub context : AuthContext
context = record {
  user = some player;
  session = some "t";
  is_authenticated = true;
  is_suspended = false;
}

abbrev pub refusal : Thrown
refusal = Thrown.domain (DomainError.forbidden (some "admin access required"))

reads_hide_secrets_example :
    (ServerRoutes.get_all table context world
      ≡ (ok (record { row = record lobby { api_key = "" }; env_variables = [] } ∷ []), world))
    × (ServerRoutes.get table context "lobby" world
        ≡ (ok (record { row = record lobby { api_key = "" }; env_variables = [] }), world))
unfolding require_auth
reads_hide_secrets_example = reads_hide_secrets table context world player "lobby" refl refl

abbrev no_ids : String → Option String
no_ids key = none

abbrev proxies : String → Option String
proxies key = if key == "minikura_rp_a" then some "gate" else none

get_servers_lem_example :
    get_servers no_ids proxies table none "minikura_rp_a" world
    ≡ (ok (told "minikura" lobby ∷ []), world)
unfolding require_plugin_kind operator_resource_name is_alphanumeric is_label_char
get_servers_lem_example = get_servers_lem no_ids proxies table none "minikura_rp_a" world (refl, tt)

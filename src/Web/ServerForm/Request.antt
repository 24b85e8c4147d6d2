-- ===== src/Web/ServerForm/Request.antt =====
-- What the form sends to the API (apps/web/lib/server-form/mappings.ts). How the language reads a
-- number from a text is an argument.
use minikura.Common.{
  String, Bool, true, false, Option, none, some, List, if◌then◌else◌, filled, trim, Settled, ok,
  thrown,
}
use minikura.Domain.Errors.{Thrown}
use minikura.Servers.Entities.{EnvVariable, ServiceType}
use minikura.Servers.Inputs.{Nullable, null, given}
use minikura.Web.ServerForm.{
  ServerFormData, FormType, text_of_type, is_custom, nonempty, to_api_difficulty, to_api_mode,
}
use minikura.Web.ServerForm.Environment.{
  to_managed_environment_variables, assign_all, custom_entries, object_entries,
}

-- A field that may be undefined is an option; where the code writes `null`, it is one or the other.
pub record CommonServerRequestFields (Number : Type 0) : Type 0 where
  pub description : Nullable String
  pub listen_port : Number
  pub service_type : ServiceType
  pub node_port : Nullable Number
  pub env_variables : List EnvVariable
  pub memory : Option Number
  pub memory_request : Option Number
  pub cpu_request : Option String
  pub cpu_limit : Option String
  pub jar_type : String
  pub minecraft_version : Option String
  pub jvm_opts : Option String
  pub use_aikar_flags : Option Bool
  pub use_meowice_flags : Option Bool
  pub difficulty : String
  pub game_mode : String
  pub max_players : Option Number
  pub pvp : Bool
  pub online_mode : Bool
  pub motd : Option String
  pub level_seed : Option String
  pub level_type : Option String

abbrev or_latest : Option String → String
or_latest none = "LATEST"
or_latest (some version) = version

-- `value || null`
abbrev pub or_null : {A : Type 0} → Option A → Nullable A
or_null none = null
or_null (some a) = given a

-- `flag || undefined`
abbrev pub if_set : Bool → Option Bool
if_set true = some true
if_set false = none

abbrev pub is_node_port : ServiceType → Bool
is_node_port ServiceType.node_port = true
is_node_port _ = false

abbrev pub jar_of : FormType → String
jar_of type = if is_custom type then "VANILLA" else text_of_type type

module _ {Number : Type 0} (number : String → Number) where
  -- `text ? Number(text) : undefined`
  abbrev pub number_of : Option String → Option Number
  number_of none = none
  number_of (some text) = some (number text)

  abbrev pub request_of : ServerFormData → List EnvVariable → CommonServerRequestFields Number
  request_of data_ environment = record {
    description = or_null (nonempty (trim data_.description));
    listen_port = number data_.listen_port;
    service_type = data_.service_type;
    node_port =
        or_null
          (if is_node_port data_.service_type then number_of (filled data_.node_port) else none);
    env_variables = object_entries (assign_all (custom_entries data_.env_vars) environment);
    memory = number_of (nonempty data_.memory_limit);
    memory_request = number_of (nonempty data_.memory_request);
    cpu_request = nonempty data_.cpu_request;
    cpu_limit = nonempty data_.cpu_limit;
    jar_type = jar_of data_.type;
    minecraft_version =
        if is_custom data_.type then none else some (or_latest (filled data_.version));
    jvm_opts = filled data_.jvm_opts;
    use_aikar_flags = if_set data_.use_aikar_flags;
    use_meowice_flags = if_set data_.use_meowice_flags;
    difficulty = to_api_difficulty data_.difficulty;
    game_mode = to_api_mode data_.mode;
    max_players = number_of (nonempty data_.max_players);
    pvp = data_.pvp;
    online_mode = data_.online_mode;
    motd = data_.motd;
    level_seed = data_.level_seed;
    level_type = data_.level_type;
  }

  abbrev pub with_environment :
      ServerFormData
      → Settled Thrown (List EnvVariable)
      → Settled Thrown (CommonServerRequestFields Number)
  with_environment data_ (thrown e) = thrown e
  with_environment data_ (ok environment) = ok (request_of data_ environment)

  unfoldable pub to_common_server_request_fields :
      ServerFormData → Settled Thrown (CommonServerRequestFields Number)
  unfolding to_managed_environment_variables object_entries trim
  to_common_server_request_fields data_ =
      with_environment data_ (to_managed_environment_variables data_)

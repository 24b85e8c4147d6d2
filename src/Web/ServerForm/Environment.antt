-- ===== src/Web/ServerForm/Environment.antt =====
-- The variables that the form manages, and the object that holds them
-- (apps/web/lib/server-form/mappings.ts).
use Prim.Native.Char.{code}
use minikura.Common.{
  ℕ, ◌+◌, ◌-◌, ◌*◌, String, Bool, true, false, not, ◌&&◌, ◌||◌, Option, none, some, List, [], ◌∷◌,
  ◌++◌, ◌==◌, leb, ltb, if◌then◌else◌, filled, filter, contains, insert, Settled, ok, thrown,
  is_code,
}
use minikura.Domain.Errors.{Thrown}
use minikura.Servers.Entities.{EnvVariable}
use minikura.Web.ServerForm.{
  ServerFormData, managed_environment_keys, text_of_type, is_custom, nonempty,
}

abbrev pub bool_text : Bool → String
bool_text true = "true"
bool_text false = "false"

-- `if (flag) environment.KEY = String(flag);`
abbrev pub flag : Bool → Option String
flag true = some "true"
flag false = none

-- `if (data.type === "CUSTOM" && data.customJarUrl)`
abbrev custom_url : ServerFormData → Option String
custom_url data_ = if is_custom data_.type then filled data_.custom_jar_url else none

abbrev blank_version : Bool → Option String → Option String
blank_version true (some url) = some ""
blank_version true none = none
blank_version false url = none

-- The assignments to the object, in the order of the code, with what is assigned where something is.
abbrev pub Entries : Type 0
Entries = List (String × Option String)

unfoldable pub managed_entries : ServerFormData → Entries
managed_entries data_ =
    ("ALLOW_FLIGHT", flag data_.allow_flight)
    ∷ ("ENABLE_COMMAND_BLOCK", flag data_.enable_command_block)
    ∷ ("SPAWN_PROTECTION", nonempty data_.spawn_protection)
    ∷ ("VIEW_DISTANCE", nonempty data_.view_distance)
    ∷ ("SIMULATION_DISTANCE", nonempty data_.simulation_distance)
    ∷ ("LEVEL", nonempty data_.level_name)
    ∷ ("SEED", filled data_.level_seed)
    ∷ ("LEVEL_TYPE", filled data_.level_type)
    ∷ ("GENERATOR_SETTINGS", filled data_.generator_settings)
    ∷ ("HARDCORE", flag data_.hardcore)
    ∷ ("SPAWN_ANIMALS", some (bool_text data_.spawn_animals))
    ∷ ("SPAWN_MONSTERS", some (bool_text data_.spawn_monsters))
    ∷ ("SPAWN_NPCS", some (bool_text data_.spawn_npcs))
    ∷ ("ENABLE_WHITELIST", flag data_.enable_whitelist)
    ∷ ("WHITELIST", filled data_.whitelist)
    ∷ ("WHITELIST_FILE", filled data_.whitelist_file)
    ∷ ("OPS", filled data_.ops)
    ∷ ("OPS_FILE", filled data_.ops_file)
    ∷ ("JVM_XX_OPTS", filled data_.jvm_xx_opts)
    ∷ ("JVM_DD_OPTS", filled data_.jvm_dd_opts)
    ∷ ("ENABLE_JMX", flag data_.enable_jmx)
    ∷ ("RESOURCE_PACK", filled data_.resource_pack)
    ∷ ("RESOURCE_PACK_SHA1", filled data_.resource_pack_sha1)
    ∷ ("RESOURCE_PACK_ENFORCE", flag data_.resource_pack_enforce)
    ∷ ("ENABLE_RCON", some (bool_text data_.enable_rcon))
    ∷ ("RCON_PASSWORD", filled data_.rcon_password)
    ∷ ("RCON_PORT", nonempty data_.rcon_port)
    ∷ ("RCON_CMDS_STARTUP", filled data_.rcon_cmds_startup)
    ∷ ("RCON_CMDS_ON_CONNECT", filled data_.rcon_cmds_on_connect)
    ∷ ("RCON_CMDS_FIRST_CONNECT", filled data_.rcon_cmds_first_connect)
    ∷ ("RCON_CMDS_ON_DISCONNECT", filled data_.rcon_cmds_on_disconnect)
    ∷ ("RCON_CMDS_LAST_DISCONNECT", filled data_.rcon_cmds_last_disconnect)
    ∷ ("ENABLE_QUERY", some (bool_text data_.enable_query))
    ∷ ("QUERY_PORT", nonempty data_.query_port)
    ∷ ("ENABLE_AUTOPAUSE", flag data_.enable_autopause)
    ∷ ("AUTOPAUSE_TIMEOUT_EST", nonempty data_.autopause_timeout_est)
    ∷ ("AUTOPAUSE_TIMEOUT_INIT", nonempty data_.autopause_timeout_init)
    ∷ ("AUTOPAUSE_TIMEOUT_KN", nonempty data_.autopause_timeout_kn)
    ∷ ("AUTOPAUSE_PERIOD", nonempty data_.autopause_period)
    ∷ ("AUTOPAUSE_KNOCK_INTERFACE", nonempty data_.autopause_knock_interface)
    ∷ ("ENABLE_AUTOSTOP", flag data_.enable_autostop)
    ∷ ("AUTOSTOP_TIMEOUT_EST", nonempty data_.autostop_timeout_est)
    ∷ ("AUTOSTOP_TIMEOUT_INIT", nonempty data_.autostop_timeout_init)
    ∷ ("AUTOSTOP_PERIOD", nonempty data_.autostop_period)
    ∷ ("PLUGINS", filled data_.plugins)
    ∷ ("REMOVE_OLD_PLUGINS", flag data_.remove_old_plugins)
    ∷ ("SPIGET_RESOURCES", filled data_.spiget_resources)
    ∷ ("PAPER_BUILD", filled data_.paper_build)
    ∷ ("CUSTOM_SERVER", custom_url data_)
    ∷ ("VERSION", blank_version (is_custom data_.type) (filled data_.custom_jar_url))
    ∷ ("TZ", nonempty data_.timezone)
    ∷ ("UID", nonempty data_.uid)
    ∷ ("GID", nonempty data_.gid)
    ∷ ("STOP_DURATION", nonempty data_.stop_duration)
    ∷ ("ICON", filled data_.server_icon)
    ∷ ("EULA", some (bool_text data_.eula))
    ∷ ("TYPE", some (text_of_type data_.type))
    ∷ ("VERSION", if is_custom data_.type then none else filled data_.version)
    ∷ []

abbrev pub assign : String → Option String → List EnvVariable → List EnvVariable
assign key none environment = environment
assign key (some value) environment = insert key value environment

-- An object that is assigned to.
abbrev pub assign_all : Entries → List EnvVariable → List EnvVariable
assign_all [] environment = environment
assign_all ((key, value) ∷ entries) environment = assign_all entries (assign key value environment)

unfoldable pub to_managed_environment_variables : ServerFormData → Settled Thrown (List EnvVariable)
to_managed_environment_variables data_ =
    if is_custom data_.type && is_missing (filled data_.custom_jar_url)
    then thrown (Thrown.error "Error" "Custom jar URL is required for custom servers")
    else ok (assign_all (managed_entries data_) [])
  where
    is_missing : Option String → Bool
    is_missing none = true
    is_missing (some url) = false

unfoldable pub filter_custom_environment_variables : List EnvVariable → List EnvVariable
filter_custom_environment_variables variables =
    filter (λ v. not (contains v.0 managed_environment_keys)) variables

-- What of a custom variable is assigned: one with a key and a value; the name of the prototype,
-- which a text does not set, is none.
abbrev pub custom_value : String → String → Option String
custom_value key value = if key == "" || key == "__proto__" then none else nonempty value

abbrev pub custom_entries : List EnvVariable → Entries
custom_entries [] = []
custom_entries ((key, value) ∷ variables) = (key, custom_value key value) ∷ custom_entries variables

digits : ℕ → String → Option ℕ
digits number String.[] = some number
digits number (String.◌∷◌ c s) =
    let more = digits (number * 10 + (code c - b'0')) s in
    if leb b'0' (code c) && leb (code c) b'9' then more else none

-- The index that a key is, if it is one: `Object.entries` has the indices first, in their order.
unfoldable pub index_of : String → Option ℕ
unfolding digits
index_of String.[] = none
index_of (String.◌∷◌ c s) =
    if is_code (code c) b'0'
    then if s == "" then some 0 else none
    else below (digits 0 (String.◌∷◌ c s))
  where
    below : Option ℕ → Option ℕ
    below none = none
    below (some n) = if ltb n 4294967295 then some n else none

abbrev pub comes_before : Option ℕ → Option ℕ → Bool
comes_before (some m) (some n) = leb m n
comes_before _ _ = true

abbrev pub is_index : Option ℕ → Bool
is_index none = false
is_index (some n) = true

unfoldable pub place_index : EnvVariable → List EnvVariable → List EnvVariable
unfolding index_of
place_index variable [] = variable ∷ []
place_index variable (v ∷ placed) =
    if comes_before (index_of variable.0) (index_of v.0)
    then variable ∷ v ∷ placed
    else v ∷ place_index variable placed

unfoldable pub indices : List EnvVariable → List EnvVariable
unfolding place_index
indices [] = []
indices (v ∷ environment) =
    let later = indices environment in
    if is_index (index_of v.0) then place_index v later else later

-- `Object.entries(environment)`
unfoldable pub object_entries : List EnvVariable → List EnvVariable
unfolding indices
object_entries environment =
    indices environment ++ filter (λ v. not (is_index (index_of v.0))) environment

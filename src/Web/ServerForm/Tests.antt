-- ===== src/Web/ServerForm/Tests.antt =====
-- The theorems on the form at a concrete server, and runs.
use minikura.Common.{ℕ, String, none, some, List, [], ◌∷◌, ◌≡◌, refl, lookup, All, true, false}
use minikura.Servers.Entities.{EnvVariable, Server, WithEnvVars}
use minikura.Servers.Inputs.{ServerUpdateInput, null, no_server_changes}
use minikura.Servers.Repository.ServerRows.{set_server}
use minikura.Servers.Tests.{lobby}
use minikura.Web.ServerForm.{ServerFormData, FormType}
use minikura.Web.ServerForm.Environment.{
  to_managed_environment_variables, managed_entries, assign_all, object_entries,
}
use minikura.Web.ServerForm.Request.{
  CommonServerRequestFields, request_of, to_common_server_request_fields,
}
use minikura.Web.ServerForm.Initial.{to_initial_server_form_data}
use minikura.Web.ServerForm.State.{server_form, blank_form}
use minikura.Web.ServerForm.Sent.{sent}
use minikura.Web.ServerForm.Forgotten.{edited, forgotten, edit_forgets, flags_stay}
use minikura.Web.ServerForm.Kept.{Shows, sent-edited}

-- Numbers are kept as texts here.
abbrev number : String → String
number s = s

abbrev text : ℕ → String
text n = "2048"

abbrev indices_first : List EnvVariable
indices_first = ("b", "1") ∷ ("7", "2") ∷ ("07", "3") ∷ ("3", "4") ∷ []

object_entries_run :
    object_entries indices_first ≡ ("3", "4") ∷ ("7", "2") ∷ ("b", "1") ∷ ("07", "3") ∷ []
unfolding object_entries
object_entries_run = refl

abbrev form : ServerFormData
form = record blank_form {
  id = "lobby";
  type = FormType.custom;
  custom_jar_url = some "https://example.org/server.jar";
  hardcore = true;
  enable_rcon = false;
  view_distance = "";
  env_vars = ("EXTRA", "x") ∷ [];
}

abbrev request : ServerFormData → CommonServerRequestFields String
request f = request_of number f (assign_all (managed_entries f) [])

abbrev stored : WithEnvVars Server
stored = record {
  row = record lobby { cpu_request = some "500m"; cpu_limit = some "2" };
  env_variables = sent form;
}

sent-edited_example : Shows form (server_form (some (to_initial_server_form_data text stored)))
unfolding to_common_server_request_fields to_managed_environment_variables
sent-edited_example =
    sent-edited number text form (request form) stored (refl, tt) refl refl
      (refl, refl, refl, refl, refl, refl, refl, refl, refl, refl)

abbrev guarded : WithEnvVars Server
guarded = record {
  row = lobby;
  env_variables = ("WHITELIST", "ann,bob") ∷ ("RCON_PASSWORD", "secret") ∷ ("EXTRA", "x") ∷ [];
}

edit_forgets_example :
    ((request (edited number text guarded)).node_port ≡ null)
    × All (λ key. lookup key (request (edited number text guarded)).env_variables ≡ none) forgotten
unfolding to_common_server_request_fields to_managed_environment_variables server_form
    to_initial_server_form_data
edit_forgets_example = edit_forgets number text guarded (request (edited number text guarded)) refl

abbrev flagged : Server
flagged = record lobby { use_aikar_flags = true; use_meowice_flags = true }

abbrev input : ServerUpdateInput
input = record no_server_changes { max_players = some 40 }

flags_stay_example :
    ((set_server input flagged).use_aikar_flags ≡ true)
    × ((set_server input flagged).use_meowice_flags ≡ true)
    × ((set_server input flagged).jvm_opts ≡ flagged.jvm_opts)
unfolding to_common_server_request_fields to_managed_environment_variables
flags_stay_example = flags_stay number form (request form) input flagged refl refl refl refl

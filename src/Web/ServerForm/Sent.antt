-- ===== src/Web/ServerForm/Sent.antt =====
-- The managed variables that a form sends (apps/web/lib/server-form/mappings.ts).
use minikura.Common.{
  String, Bool, true, false, none, List, [], ◌≡◌, ◌∙◌, if◌then◌else◌, contains, lookup, All, ok,
  thrown,
}
use minikura.Domain.Errors.{Thrown}
use minikura.Servers.Entities.{EnvVariable}
use minikura.Web.ServerForm.{managed_environment_keys, ServerFormData}
use minikura.Web.ServerForm.Environment.{
  assign_all, custom_entries, index_of, is_index, managed_entries, object_entries,
  to_managed_environment_variables,
}
use minikura.Web.ServerForm.Request.{
  CommonServerRequestFields, request_of, with_environment, to_common_server_request_fields,
}
use minikura.Web.ServerForm.Lookups.{
  last_set, lookup-assign_all, lookup-object_entries, last_set-custom_entries,
}

-- The variables of a request that comes through.
abbrev pub sent : ServerFormData → List EnvVariable
sent data_ =
    object_entries
      (assign_all (custom_entries data_.env_vars) (assign_all (managed_entries data_) []))

-- None of the custom variables of a form has a key that the form manages.
abbrev pub IsPlain : ServerFormData → Type 0
IsPlain data_ = All (λ v. contains v.0 managed_environment_keys ≡ false) data_.env_vars

module _ {Number : Type 0} (number : String → Number) where
  pub to_common-ok :
      (data_ : ServerFormData) (r : CommonServerRequestFields Number)
      → to_common_server_request_fields number data_ ≡ ok r
      → r ≡ request_of number data_ (assign_all (managed_entries data_) [])
  unfolding to_common_server_request_fields to_managed_environment_variables
  to_common-ok data_ r h = inv _ _ _ h
    where
      inv :
          (refused : Bool) (e : Thrown) (environment : List EnvVariable)
          → with_environment number data_ (if refused then thrown e else ok environment) ≡ ok r
          → r ≡ request_of number data_ environment
      inv true e environment h = cc h
      inv false e environment h = cc h

pub lookup-sent :
    (data_ : ServerFormData) (key : String)
    → IsPlain data_
    → is_index (index_of key) ≡ false
    → contains key managed_environment_keys ≡ true
    → lookup key (sent data_) ≡ last_set key (managed_entries data_) none
lookup-sent data_ key plain no_index managed =
    let environment : List EnvVariable = assign_all (managed_entries data_) [] in
    lookup-object_entries key no_index (assign_all (custom_entries data_.env_vars) environment)
    ∙ lookup-assign_all key (custom_entries data_.env_vars) environment
    ∙ last_set-custom_entries key managed data_.env_vars (lookup key environment) plain
    ∙ lookup-assign_all key (managed_entries data_) []

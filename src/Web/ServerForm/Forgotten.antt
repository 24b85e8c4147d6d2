-- ===== src/Web/ServerForm/Forgotten.antt =====
-- What an edit of a server takes away or cannot take away
-- (apps/web/lib/server-form/mappings.ts, apps/web/components/server-form.tsx).
use minikura.Common.{
  ℕ, String, Bool, true, false, ◌||◌, filled, none, some, List, [], ◌∷◌, ◌≡◌, refl, ◌∙◌, ap, lookup,
  contains, All, ok, if◌then◌else◌,
}
use minikura.Servers.Entities.{Server, WithEnvVars}
use minikura.Servers.Inputs.{ServerUpdateInput, null, set_field, set_option}
use minikura.Servers.Repository.ServerRows.{set_server}
use minikura.Web.ServerForm.{ServerFormData, managed_environment_keys}
use minikura.Web.ServerForm.Environment.{index_of, is_index, managed_entries, assign_all}
use minikura.Web.ServerForm.Request.{
  CommonServerRequestFields, request_of, to_common_server_request_fields, is_node_port, if_set,
  or_null,
}
use minikura.Web.ServerForm.Initial.{to_initial_server_form_data}
use minikura.Web.ServerForm.State.{server_form}
use minikura.Web.ServerForm.Lookups.{last_set, filter_custom-All}
use minikura.Web.ServerForm.Sent.{IsPlain, to_common-ok, lookup-sent}

-- Variables that the form manages and begins an edit without.
abbrev pub forgotten : List String
forgotten =
    "GENERATOR_SETTINGS" ∷ "WHITELIST" ∷ "WHITELIST_FILE" ∷ "OPS" ∷ "OPS_FILE" ∷ "JVM_XX_OPTS"
    ∷ "JVM_DD_OPTS" ∷ "RESOURCE_PACK" ∷ "RESOURCE_PACK_SHA1" ∷ "RCON_PASSWORD" ∷ "RCON_CMDS_STARTUP"
    ∷ "RCON_CMDS_ON_CONNECT" ∷ "RCON_CMDS_FIRST_CONNECT" ∷ "RCON_CMDS_ON_DISCONNECT"
    ∷ "RCON_CMDS_LAST_DISCONNECT" ∷ "PLUGINS" ∷ "SPIGET_RESOURCES" ∷ "PAPER_BUILD" ∷ "ICON" ∷ []

set_if : (flag old : Bool) → set_field (if_set flag) old ≡ (flag || old)
set_if true old = refl
set_if false old = refl

module _ {Number : Type 0} (number : String → Number) (text : ℕ → String) where
  abbrev pub edited : WithEnvVars Server → ServerFormData
  edited server = server_form (some (to_initial_server_form_data text server))

  pub edited-IsPlain : (server : WithEnvVars Server) → IsPlain (edited server)
  unfolding server_form to_initial_server_form_data
  edited-IsPlain server = filter_custom-All server.env_variables

  -- An edit of a server that is sent as the form shows it, whatever the server has: the request
  -- has `null` for the node port, not a missing field, and has none of the forgotten variables,
  -- among them the white list, the operators, the RCON password and the plugins.
  pub edit_forgets :
      (server : WithEnvVars Server) (r : CommonServerRequestFields Number)
      → to_common_server_request_fields number (edited server) ≡ ok r
      → (r.node_port ≡ null) × All (λ key. lookup key r.env_variables ≡ none) forgotten
  unfolding server_form managed_entries index_of
  edit_forgets server r h = (
    ap (λ x. x.node_port) same ∙ either (is_node_port (edited server).service_type),
    (
      lost "GENERATOR_SETTINGS" refl refl refl,
      (
        lost "WHITELIST" refl refl refl,
        (
          lost "WHITELIST_FILE" refl refl refl,
          (
            lost "OPS" refl refl refl,
            (
              lost "OPS_FILE" refl refl refl,
              (
                lost "JVM_XX_OPTS" refl refl refl,
                (
                  lost "JVM_DD_OPTS" refl refl refl,
                  (
                    lost "RESOURCE_PACK" refl refl refl,
                    (
                      lost "RESOURCE_PACK_SHA1" refl refl refl,
                      (
                        lost "RCON_PASSWORD" refl refl refl,
                        (
                          lost "RCON_CMDS_STARTUP" refl refl refl,
                          (
                            lost "RCON_CMDS_ON_CONNECT" refl refl refl,
                            (
                              lost "RCON_CMDS_FIRST_CONNECT" refl refl refl,
                              (
                                lost "RCON_CMDS_ON_DISCONNECT" refl refl refl,
                                (
                                  lost "RCON_CMDS_LAST_DISCONNECT" refl refl refl,
                                  (
                                    lost "PLUGINS" refl refl refl,
                                    (
                                      lost "SPIGET_RESOURCES" refl refl refl,
                                      (
                                        lost "PAPER_BUILD" refl refl refl,
                                        (lost "ICON" refl refl refl, tt),
                                      ),
                                    ),
                                  ),
                                ),
                              ),
                            ),
                          ),
                        ),
                      ),
                    ),
                  ),
                ),
              ),
            ),
          ),
        ),
      ),
    ),
  )
    where
      same : r ≡ request_of number (edited server) (assign_all (managed_entries (edited server)) [])
      same = to_common-ok number (edited server) r h

      either : (b : Bool) → or_null {A = Number} (if b then none else none) ≡ null
      either true = refl
      either false = refl

      lost :
          (key : String)
          → is_index (index_of key) ≡ false
          → contains key managed_environment_keys ≡ true
          → last_set key (managed_entries (edited server)) none ≡ none
          → lookup key r.env_variables ≡ none
      lost key plain managed none_set =
          ap (λ x. lookup key x.env_variables) same
          ∙ lookup-sent (edited server) key (edited-IsPlain server) plain managed
          ∙ none_set

module _ {Number : Type 0} (number : String → Number) where
  -- An update with what a form sends, whatever else it has, leaves Aikar's and Meowice's flags on
  -- where the form has them on or the server had them on, and gives the server the JVM options of the
  -- form only where they are not empty.
  pub flags_stay :
      (data_ : ServerFormData) (r : CommonServerRequestFields Number) (input : ServerUpdateInput)
      (row : Server)
      → to_common_server_request_fields number data_ ≡ ok r
      → input.use_aikar_flags ≡ r.use_aikar_flags
      → input.use_meowice_flags ≡ r.use_meowice_flags
      → input.jvm_opts ≡ r.jvm_opts
      → ((set_server input row).use_aikar_flags ≡ (data_.use_aikar_flags || row.use_aikar_flags))
        × ((set_server input row).use_meowice_flags
            ≡ (data_.use_meowice_flags || row.use_meowice_flags))
        × ((set_server input row).jvm_opts ≡ set_option (filled data_.jvm_opts) row.jvm_opts)
  flags_stay data_ r input row h aikar meowice opts = (
    rw (aikar ∙ ap (λ x. x.use_aikar_flags) same)
        (set_if data_.use_aikar_flags row.use_aikar_flags),
    rw (meowice ∙ ap (λ x. x.use_meowice_flags) same)
        (set_if data_.use_meowice_flags row.use_meowice_flags),
    ap (λ x. set_option x row.jvm_opts) (opts ∙ ap (λ x. x.jvm_opts) same),
  )
    where
      same : r ≡ request_of number data_ (assign_all (managed_entries data_) [])
      same = to_common-ok number data_ r h

-- ===== src/Web/ServerForm/Kept.antt =====
-- What an edit shows of what a form has sent (apps/web/lib/server-form/mappings.ts,
-- apps/web/components/server-form.tsx).
use minikura.Common.{
  [], ◌==◌, ◌||◌, or_else, trim, filled, sym, eq_iff, Bool-cases, inl, inr, ℕ, String, Bool, true,
  false, not, Option, none, some, ◌≡◌, refl, arith, ◌∙◌, ap, contains, lookup, ok, or_text,
}
use minikura.Servers.Entities.{Server, WithEnvVars, ServerDifficulty, GameMode}
use minikura.Servers.Inputs.{to_option}
use minikura.Web.ServerForm.{
  ServerFormData, FormType, managed_environment_keys, normalize_server_type, text_of_type, nonempty,
  jar_text, normalize_difficulty, normalize_mode, to_api_difficulty, to_api_mode,
}
use minikura.Web.ServerForm.Environment.{
  assign_all, index_of, is_index, managed_entries, flag, bool_text,
}
use minikura.Web.ServerForm.Request.{
  CommonServerRequestFields, request_of, or_null, if_set, to_common_server_request_fields,
}
use minikura.Web.ServerForm.Initial.{
  to_initial_server_form_data, environment_of, given_or, says, or_default,
}
use minikura.Web.ServerForm.State.{server_form}
use minikura.Web.ServerForm.Lookups.{last_set, or_old}
use minikura.Web.ServerForm.Sent.{IsPlain, to_common-ok}
use minikura.Web.ServerForm.Reloaded.{or_none, lookup-environment_of-sent}

says-flag : (b : Bool) → says "true" (flag b) ≡ b
says-flag true = refl
says-flag false = refl

says-bool_text : (b : Bool) → says "true" (some (bool_text b)) ≡ b
says-bool_text true = refl
says-bool_text false = refl

not-says-bool_text : (b : Bool) → not (says "false" (some (bool_text b))) ≡ b
not-says-bool_text true = refl
not-says-bool_text false = refl

normalize-text_of_type :
    (t : FormType) (jar : String)
    → normalize_server_type (or_default (some (text_of_type t)) jar) ≡ t
unfolding normalize_server_type
normalize-text_of_type FormType.vanilla jar = refl
normalize-text_of_type FormType.paper jar = refl
normalize-text_of_type FormType.spigot jar = refl
normalize-text_of_type FormType.purpur jar = refl
normalize-text_of_type FormType.fabric jar = refl
normalize-text_of_type FormType.custom jar = refl

or_text-nonempty :
    (s fallback : String) → or_text (or_default (nonempty s) fallback) fallback ≡ or_text s fallback
or_text-nonempty s fallback = ground arith

difficulty-to_api : (d : ServerDifficulty) → normalize_difficulty (to_api_difficulty d) ≡ d
unfolding normalize_difficulty
difficulty-to_api ServerDifficulty.peaceful = refl
difficulty-to_api ServerDifficulty.easy = refl
difficulty-to_api ServerDifficulty.normal = refl
difficulty-to_api ServerDifficulty.hard = refl

mode-to_api : (m : GameMode) → normalize_mode (to_api_mode m) ≡ m
unfolding normalize_mode
mode-to_api GameMode.survival = refl
mode-to_api GameMode.creative = refl
mode-to_api GameMode.adventure = refl
mode-to_api GameMode.spectator = refl

or_else-if_set : (b : Bool) → or_else (if_set b) false ≡ b
or_else-if_set true = refl
or_else-if_set false = refl

shown_cpu :
    (s fallback : String)
    → (fallback == "") ≡ false
    → or_text (or_default (some (or_else (nonempty s) fallback)) fallback) fallback
      ≡ or_text s fallback
shown_cpu s fallback h = ground arith

shown_description : (s : String) → or_default (to_option (or_null (nonempty s))) "" ≡ s
shown_description s = elim (Bool-cases (s == "")) [
  | inl h ↦ rw h (sym ((eq_iff s "").0 h))
  | inr h ↦ rw h (rw h refl)
]

-- The row of a server that was created from a request, in the fields that are no numbers.
abbrev pub IsCreated : {Number : Type 0} → CommonServerRequestFields Number → Server → Type 0
IsCreated r row =
    (row.pvp ≡ r.pvp)
    × (row.online_mode ≡ r.online_mode)
    × (row.use_aikar_flags ≡ or_else r.use_aikar_flags false)
    × (row.use_meowice_flags ≡ or_else r.use_meowice_flags false)
    × (to_api_difficulty row.difficulty ≡ r.difficulty)
    × (to_api_mode row.game_mode ≡ r.game_mode)
    × (row.cpu_request ≡ some (or_else r.cpu_request "500m"))
    × (row.cpu_limit ≡ some (or_else r.cpu_limit "2"))
    × (row.description ≡ to_option r.description)
    × (row.service_type ≡ r.service_type)

-- What a form `g` shows of a form `f`.
abbrev pub Shows : ServerFormData → ServerFormData → Type 0
Shows f g =
    ((g.pvp ≡ f.pvp)
      × (g.online_mode ≡ f.online_mode)
      × (g.use_aikar_flags ≡ f.use_aikar_flags)
      × (g.use_meowice_flags ≡ f.use_meowice_flags)
      × (g.difficulty ≡ f.difficulty)
      × (g.mode ≡ f.mode)
      × (g.cpu_request ≡ or_text f.cpu_request "500m")
      × (g.cpu_limit ≡ or_text f.cpu_limit "2")
      × (g.description ≡ trim f.description)
      × (g.service_type ≡ f.service_type))
    × (g.type ≡ f.type)
    × (g.eula ≡ f.eula)
    × (g.allow_flight ≡ f.allow_flight)
    × (g.enable_command_block ≡ f.enable_command_block)
    × (g.spawn_protection ≡ or_text f.spawn_protection "16")
    × (g.view_distance ≡ or_text f.view_distance "10")
    × (g.simulation_distance ≡ or_text f.simulation_distance "10")
    × (g.level_name ≡ or_text f.level_name "world")
    × (g.hardcore ≡ f.hardcore)
    × (g.spawn_animals ≡ f.spawn_animals)
    × (g.spawn_monsters ≡ f.spawn_monsters)
    × (g.spawn_npcs ≡ f.spawn_npcs)
    × (g.enable_whitelist ≡ f.enable_whitelist)
    × (g.resource_pack_enforce ≡ f.resource_pack_enforce)
    × (g.enable_rcon ≡ f.enable_rcon)
    × (g.rcon_port ≡ or_text f.rcon_port "25575")
    × (g.enable_query ≡ f.enable_query)
    × (g.query_port ≡ or_text f.query_port "25565")
    × (g.enable_autopause ≡ f.enable_autopause)
    × (g.autopause_timeout_est ≡ or_text f.autopause_timeout_est "3600")
    × (g.autopause_timeout_init ≡ or_text f.autopause_timeout_init "600")
    × (g.autopause_timeout_kn ≡ or_text f.autopause_timeout_kn "120")
    × (g.autopause_period ≡ or_text f.autopause_period "10")
    × (g.autopause_knock_interface ≡ or_text f.autopause_knock_interface "eth0")
    × (g.enable_autostop ≡ f.enable_autostop)
    × (g.autostop_timeout_est ≡ or_text f.autostop_timeout_est "3600")
    × (g.autostop_timeout_init ≡ or_text f.autostop_timeout_init "1800")
    × (g.autostop_period ≡ or_text f.autostop_period "10")
    × (g.remove_old_plugins ≡ f.remove_old_plugins)
    × (g.timezone ≡ or_text f.timezone "UTC")
    × (g.uid ≡ or_text f.uid "1000")
    × (g.gid ≡ or_text f.gid "1000")
    × (g.enable_jmx ≡ f.enable_jmx)
    × (g.stop_duration ≡ or_text f.stop_duration "60")

module _ {Number : Type 0} (number : String → Number) (text : ℕ → String) where
  -- Where no custom variable has a key that the form manages: a form that was sent to create a
  -- server is shown by an edit of what is stored with the types, the choices and the switches that
  -- it had, with its description as far as trimmed, with its processor limits, and with the texts
  -- that are sent as variables and have a default; the default stands for a text that was empty.
  -- Nothing is said of what the row keeps as a number (the memory, the port and the players), of
  -- the version, and of what has no default.
  pub sent-edited :
      (f : ServerFormData) (r : CommonServerRequestFields Number) (server : WithEnvVars Server)
      → IsPlain f
      → to_common_server_request_fields number f ≡ ok r
      → server.env_variables ≡ r.env_variables
      → IsCreated r server.row
      → Shows f (server_form (some (to_initial_server_form_data text server)))
  unfolding server_form to_initial_server_form_data managed_entries index_of
  sent-edited f r server plain comes stored created = (
    from_row created,
    ap (λ x. normalize_server_type (or_default x (jar_text server.row.jar_type)))
          (read "TYPE" (some (text_of_type f.type)) refl refl refl)
        ∙ normalize-text_of_type f.type (jar_text server.row.jar_type),
    ap (says "true") (read "EULA" (some (bool_text f.eula)) refl refl refl) ∙ says-bool_text f.eula,
    ap (says "true") (read "ALLOW_FLIGHT" (flag f.allow_flight) refl refl refl)
        ∙ says-flag f.allow_flight,
    ap (says "true") (read "ENABLE_COMMAND_BLOCK" (flag f.enable_command_block) refl refl refl)
        ∙ says-flag f.enable_command_block,
    ap (λ x. or_text (or_default x "16") "16")
          (read "SPAWN_PROTECTION" (nonempty f.spawn_protection) refl refl refl)
        ∙ or_text-nonempty f.spawn_protection "16",
    ap (λ x. or_text (or_default x "10") "10")
          (read "VIEW_DISTANCE" (nonempty f.view_distance) refl refl refl)
        ∙ or_text-nonempty f.view_distance "10",
    ap (λ x. or_text (or_default x "10") "10")
          (read "SIMULATION_DISTANCE" (nonempty f.simulation_distance) refl refl refl)
        ∙ or_text-nonempty f.simulation_distance "10",
    ap (λ x. or_text (or_default x "world") "world")
          (read "LEVEL" (nonempty f.level_name) refl refl refl)
        ∙ or_text-nonempty f.level_name "world",
    ap (says "true") (read "HARDCORE" (flag f.hardcore) refl refl refl) ∙ says-flag f.hardcore,
    ap (λ x. not (says "false" x))
          (read "SPAWN_ANIMALS" (some (bool_text f.spawn_animals)) refl refl refl)
        ∙ not-says-bool_text f.spawn_animals,
    ap (λ x. not (says "false" x))
          (read "SPAWN_MONSTERS" (some (bool_text f.spawn_monsters)) refl refl refl)
        ∙ not-says-bool_text f.spawn_monsters,
    ap (λ x. not (says "false" x))
          (read "SPAWN_NPCS" (some (bool_text f.spawn_npcs)) refl refl refl)
        ∙ not-says-bool_text f.spawn_npcs,
    ap (says "true") (read "ENABLE_WHITELIST" (flag f.enable_whitelist) refl refl refl)
        ∙ says-flag f.enable_whitelist,
    ap (says "true") (read "RESOURCE_PACK_ENFORCE" (flag f.resource_pack_enforce) refl refl refl)
        ∙ says-flag f.resource_pack_enforce,
    ap (λ x. not (says "false" x))
          (read "ENABLE_RCON" (some (bool_text f.enable_rcon)) refl refl refl)
        ∙ not-says-bool_text f.enable_rcon,
    ap (λ x. or_text (or_default x "25575") "25575")
          (read "RCON_PORT" (nonempty f.rcon_port) refl refl refl)
        ∙ or_text-nonempty f.rcon_port "25575",
    ap (says "true") (read "ENABLE_QUERY" (some (bool_text f.enable_query)) refl refl refl)
        ∙ says-bool_text f.enable_query,
    ap (λ x. or_text (or_default x "25565") "25565")
          (read "QUERY_PORT" (nonempty f.query_port) refl refl refl)
        ∙ or_text-nonempty f.query_port "25565",
    ap (says "true") (read "ENABLE_AUTOPAUSE" (flag f.enable_autopause) refl refl refl)
        ∙ says-flag f.enable_autopause,
    ap (λ x. or_text (or_default x "3600") "3600")
          (read "AUTOPAUSE_TIMEOUT_EST" (nonempty f.autopause_timeout_est) refl refl refl)
        ∙ or_text-nonempty f.autopause_timeout_est "3600",
    ap (λ x. or_text (or_default x "600") "600")
          (read "AUTOPAUSE_TIMEOUT_INIT" (nonempty f.autopause_timeout_init) refl refl refl)
        ∙ or_text-nonempty f.autopause_timeout_init "600",
    ap (λ x. or_text (or_default x "120") "120")
          (read "AUTOPAUSE_TIMEOUT_KN" (nonempty f.autopause_timeout_kn) refl refl refl)
        ∙ or_text-nonempty f.autopause_timeout_kn "120",
    ap (λ x. or_text (or_default x "10") "10")
          (read "AUTOPAUSE_PERIOD" (nonempty f.autopause_period) refl refl refl)
        ∙ or_text-nonempty f.autopause_period "10",
    ap (λ x. or_text (or_default x "eth0") "eth0")
          (read "AUTOPAUSE_KNOCK_INTERFACE" (nonempty f.autopause_knock_interface) refl refl refl)
        ∙ or_text-nonempty f.autopause_knock_interface "eth0",
    ap (says "true") (read "ENABLE_AUTOSTOP" (flag f.enable_autostop) refl refl refl)
        ∙ says-flag f.enable_autostop,
    ap (λ x. or_text (or_default x "3600") "3600")
          (read "AUTOSTOP_TIMEOUT_EST" (nonempty f.autostop_timeout_est) refl refl refl)
        ∙ or_text-nonempty f.autostop_timeout_est "3600",
    ap (λ x. or_text (or_default x "1800") "1800")
          (read "AUTOSTOP_TIMEOUT_INIT" (nonempty f.autostop_timeout_init) refl refl refl)
        ∙ or_text-nonempty f.autostop_timeout_init "1800",
    ap (λ x. or_text (or_default x "10") "10")
          (read "AUTOSTOP_PERIOD" (nonempty f.autostop_period) refl refl refl)
        ∙ or_text-nonempty f.autostop_period "10",
    ap (says "true") (read "REMOVE_OLD_PLUGINS" (flag f.remove_old_plugins) refl refl refl)
        ∙ says-flag f.remove_old_plugins,
    ap (λ x. or_text (or_default x "UTC") "UTC") (read "TZ" (nonempty f.timezone) refl refl refl)
        ∙ or_text-nonempty f.timezone "UTC",
    ap (λ x. or_text (or_default x "1000") "1000") (read "UID" (nonempty f.uid) refl refl refl)
        ∙ or_text-nonempty f.uid "1000",
    ap (λ x. or_text (or_default x "1000") "1000") (read "GID" (nonempty f.gid) refl refl refl)
        ∙ or_text-nonempty f.gid "1000",
    ap (says "true") (read "ENABLE_JMX" (flag f.enable_jmx) refl refl refl)
        ∙ says-flag f.enable_jmx,
    ap (λ x. or_text (or_default x "60") "60")
          (read "STOP_DURATION" (nonempty f.stop_duration) refl refl refl)
        ∙ or_text-nonempty f.stop_duration "60",
  )
    where
      same : r ≡ request_of number f (assign_all (managed_entries f) [])
      same = to_common-ok number f r comes

      read :
          (key : String) (value : Option String)
          → is_index (index_of key) ≡ false
          → contains key managed_environment_keys ≡ true
          → last_set key (managed_entries f) none ≡ or_old value none
          → lookup key (environment_of server.env_variables) ≡ value
      read key value no_index managed set =
          ap (λ vars. lookup key (environment_of vars))
            (stored ∙ ap (λ x. x.env_variables) (to_common-ok number f r comes))
          ∙ lookup-environment_of-sent f key plain no_index managed
          ∙ set
          ∙ or_none value

      from_row :
          IsCreated r server.row
          → let g = server_form (some (to_initial_server_form_data text server)) in
            (g.pvp ≡ f.pvp)
            × (g.online_mode ≡ f.online_mode)
            × (g.use_aikar_flags ≡ f.use_aikar_flags)
            × (g.use_meowice_flags ≡ f.use_meowice_flags)
            × (g.difficulty ≡ f.difficulty)
            × (g.mode ≡ f.mode)
            × (g.cpu_request ≡ or_text f.cpu_request "500m")
            × (g.cpu_limit ≡ or_text f.cpu_limit "2")
            × (g.description ≡ trim f.description)
            × (g.service_type ≡ f.service_type)
      from_row (pvp, online, aikar, meowice, hard, mode, request, limit, said, service) = (
        ap (λ x. given_or (filled x) server.row.pvp) (read "PVP" none refl refl refl)
            ∙ pvp
            ∙ ap (λ x. x.pvp) same,
        ap (λ x. given_or (filled x) server.row.online_mode)
              (read "ONLINE_MODE" none refl refl refl)
            ∙ online
            ∙ ap (λ x. x.online_mode) same,
        ap (λ x. says "true" x || server.row.use_aikar_flags)
              (read "USE_AIKAR_FLAGS" none refl refl refl)
            ∙ aikar
            ∙ ap (λ x. or_else x.use_aikar_flags false) same
            ∙ or_else-if_set f.use_aikar_flags,
        ap (λ x. says "true" x || server.row.use_meowice_flags)
              (read "USE_MEOWICE_FLAGS" none refl refl refl)
            ∙ meowice
            ∙ ap (λ x. or_else x.use_meowice_flags false) same
            ∙ or_else-if_set f.use_meowice_flags,
        ap (λ x. normalize_difficulty (or_default x (to_api_difficulty server.row.difficulty)))
              (read "DIFFICULTY" none refl refl refl)
            ∙ ap normalize_difficulty (hard ∙ ap (λ x. x.difficulty) same)
            ∙ difficulty-to_api f.difficulty,
        ap (λ x. normalize_mode (or_default x (to_api_mode server.row.game_mode)))
              (read "MODE" none refl refl refl)
            ∙ ap normalize_mode (mode ∙ ap (λ x. x.game_mode) same)
            ∙ mode-to_api f.mode,
        ap (λ x. or_text (or_default x "500m") "500m")
              (request ∙ ap (λ x. some (or_else x.cpu_request "500m")) same)
            ∙ shown_cpu f.cpu_request "500m" refl,
        ap (λ x. or_text (or_default x "2") "2")
              (limit ∙ ap (λ x. some (or_else x.cpu_limit "2")) same)
            ∙ shown_cpu f.cpu_limit "2" refl,
        ap (λ x. or_default x "") (said ∙ ap (λ x. to_option x.description) same)
            ∙ shown_description (trim f.description),
        service ∙ ap (λ x. x.service_type) same,
      )

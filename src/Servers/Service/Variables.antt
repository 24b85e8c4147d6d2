-- ===== src/Servers/Service/Variables.antt =====
-- The environment variables of a server through its service.
use minikura.Common.{
  Option-cases, eq_iff, inl, inr, String, false, ◌&&◌, Option, none, some, List, [], ◌∷◌, ◌==◌, ◌≡◌,
  ◌∙◌, refl, ap, if◌then◌else◌, thrown, arith, eq_refl, pair_of_result, >>=-eq_of_thrown,
  >>=-eq_of_ok, pure,
}
use minikura.Domain.Errors.{Thrown}
use minikura.Domain.Handler.{error_handler}
use minikura.Servers.Entities.{Server, EnvVariable}
use minikura.Servers.Inputs.{ServerUpdateInput, no_server_changes}
use minikura.Servers.Store.{NewVariable, Leaves, Store, IsStore, env, distinct}
use minikura.Servers.Store.Sequences.{Leaves-resp}
use minikura.Servers.Repository.Rows.{is_empty}
use minikura.Servers.Repository.ServerRows
use minikura.Servers.Repository.ServerRows.{set_server, replace_given, without_key}
use minikura.Servers.Crud.{World, announce, in_db}
use minikura.Servers.Crud.Laws.{Does, notify-Does, in_db-eq}
use minikura.Servers.Service.ServerCalls.{
  ServerEvent, server_updated, update_server, set_env_variable, delete_env_variable,
}

module _ (s : Store Server) (laws : IsStore (λ r. r.id) (λ r. r.api_key) s) where
  -- The variables of a server with one of them changed.
  abbrev pub var_set : String → String → Option String → s.State → String → String → Option String
  var_set id key v t j k = if id == j && key == k then v else env s j k t

  var_written :
      (id key v : String) (t : s.State) (r : Server)
      → s.find_unique id t ≡ some r
      → Leaves s
          (ServerRows.set_env_variable s id key v t)
          (λ _. tt)
          (λ j. s.find_unique j t)
          (var_set id key (some v) t)
  unfolding ServerRows.set_env_variable
  var_written id key v t r e =
      let new : NewVariable = record { key = key; value = v; owner = id } in
      elim (Option-cases (env s id key t)) [
        | inl h ↦ laws.upsert_env_new id key v new t r h e h
        | inr (old, h) ↦ laws.upsert_env_found id key v old new t h
      ]

  var_deleted :
      (id key : String) (t : s.State)
      → Leaves s
          (ServerRows.delete_env_variable s id key t)
          (λ _. tt)
          (λ j. s.find_unique j t)
          (var_set id key none t)
  unfolding ServerRows.delete_env_variable
  var_deleted id key t =
      Leaves-resp s (s.delete_envs (λ owner k. owner == id && k == key) t) (λ _. tt)
        (λ j. s.find_unique j t) (λ j. s.find_unique j t)
        (λ j k. if j == id && k == key then none else env s j k t) (var_set id key none t)
        (λ j. refl) (λ j k. ground (arith, eq_iff j id, eq_iff id j, eq_iff k key, eq_iff key k))
        (laws.delete_envs_any (λ owner k. owner == id && k == key) t)

  -- What setting a variable owes, by the server that has the id.
  abbrev pub Sets : String → String → String → World s.State ServerEvent → Option Server → Type 0
  Sets id key v w none =
      (e : Thrown) × (set_env_variable s id key v w ≡ (thrown e, w))
      × ((error_handler e).status ≡ 500)
  Sets id key v w (some r) =
      Does s w (set_env_variable s id key v w) (λ _. tt) (λ j. s.find_unique j w.db)
        (var_set id key (some v) w.db) (server_updated id no_server_changes ∷ [])

  -- Setting a variable of a server that is there gives it the value, whether or not it was there
  -- before; of a server that is not there it throws an error whose answer has status 500, and
  -- changes and publishes nothing. Deleting a variable takes it away, if it is there, and comes
  -- through for any id. What comes through leaves all else alone and publishes one event, an update
  -- with no changes.
  pub env_calls_lem :
      (id key v : String) (w : World s.State ServerEvent)
      → Sets id key v w (s.find_unique id w.db)
        × Does s w
            (delete_env_variable s id key w)
            (λ _. tt)
            (λ j. s.find_unique j w.db)
            (var_set id key none w.db)
            (server_updated id no_server_changes ∷ [])
  unfolding set_env_variable delete_env_variable ServerRows.set_env_variable
      ServerRows.delete_env_variable announce error_handler
  env_calls_lem id key v w = (
    go (s.find_unique id w.db) refl,
    notify-Does s w (λ _. tt) (λ j. s.find_unique j w.db) (var_set id key none w.db)
        (server_updated id no_server_changes) (ServerRows.delete_env_variable s id key)
        (var_deleted id key w.db),
  )
    where
      go : (o : Option Server) → s.find_unique id w.db ≡ o → Sets id key v w o
      go (some r) e =
          notify-Does s w (λ _. tt) (λ j. s.find_unique j w.db) (var_set id key (some v) w.db)
            (server_updated id no_server_changes) (ServerRows.set_env_variable s id key v)
            (var_written id key v w.db r e)
      go none e =
          let new : NewVariable = record { key = key; value = v; owner = id } in
          let (text, refused) =
            laws.upsert_env_missing id key v new w.db (laws.env_owned id key w.db e) e in
          (
            Thrown.error "PrismaClientKnownRequestError" text,
            >>=-eq_of_thrown (in_db (ServerRows.set_env_variable s id key v))
                (announce (server_updated id no_server_changes))
                (in_db-eq (ServerRows.set_env_variable s id key v) w refused),
            refl,
          )

  -- Some key stands twice, so that there is something to create.
  twice_not_empty : (vs : List EnvVariable) → distinct vs ≡ false → is_empty vs ≡ false
  twice_not_empty [] h = cc
  twice_not_empty (v ∷ vs) h = refl

  replace_fails :
      (id : String) (vs : List EnvVariable) (t : s.State)
      → distinct vs ≡ false
      → (e : Thrown) × (ServerRows.replace_env_variables s id vs t
          ≡ (thrown e, (s.clear_env id t).1))
  unfolding ServerRows.replace_env_variables
  replace_fails id vs t twice =
      let u : s.State = (s.clear_env id t).1 in
      let (text, refused) = laws.create_env_twice id vs u twice in
      (
        Thrown.error "PrismaClientKnownRequestError" text,
        >>=-eq_of_ok (s.clear_env id) (λ _. if is_empty vs then pure tt else s.create_env id vs)
              (pair_of_result (s.clear_env id t) (laws.clear_env_any id t).0)
            ∙ rw (twice_not_empty vs twice) refused,
      )

  update_fails :
      (id : String) (input : ServerUpdateInput) (vs : List EnvVariable) (t : s.State) (r : Server)
      → s.find_unique id t ≡ some r
      → input.env_variables ≡ some vs
      → distinct vs ≡ false
      → (e : Thrown) × (ServerRows.update s id input t ≡ (thrown e, (s.clear_env id t).1))
  unfolding ServerRows.update
  update_fails id input vs t r found given twice =
      let (e, fails) = replace_fails id vs t twice in
      (
        e,
        rw (found, ServerRows.update)
            (>>=-eq_of_thrown (replace_given s id input.env_variables)
              (λ _. s.update id (set_server input))
              (ap (λ (o : Option (List EnvVariable)). replace_given s id o t) given ∙ fails)),
      )

  -- An update whose list of variables has a key twice throws, publishes nothing, and yet takes
  -- all variables of the server away: the old ones are deleted before the new ones are refused.
  pub update_server_twice :
      (id : String) (input : ServerUpdateInput) (vs : List EnvVariable)
      (w : World s.State ServerEvent) (r : Server)
      → s.find_unique id w.db ≡ some r
      → input.env_variables ≡ some vs
      → distinct vs ≡ false
      → let (a, w') = update_server s id input w in
        ((e : Thrown) × (a ≡ thrown e))
        × ((k : String) → env s id k w'.db ≡ none)
        × (w'.published ≡ w.published)
  unfolding update_server
  update_server_twice id input vs w r found given twice =
      let (e, fails) = update_fails id input vs w.db r found given twice in
      let (came, (same, kept)) = laws.clear_env_any id w.db in
      rw
        (>>=-eq_of_thrown (in_db (ServerRows.update s id input))
          (announce (server_updated id input)) (in_db-eq (ServerRows.update s id input) w fails))
        ((e, refl), (λ k. kept id k ∙ ground (arith, eq_refl id)), refl)

-- ===== src/Servers/Crud/Laws.antt =====
-- The shared service over any repository: when it goes on to the repository, and what it then does.
use minikura.Common.{
  String, true, false, Option, some, List, [], ◌∷◌, ◌++◌, ◌≡◌, refl, Settled, ok, thrown, ◌>>=◌,
  append-nil, sym, ap, >>=-eq_of_ok, >>=-eq_of_thrown,
}
use minikura.Domain.Errors.{DomainError, Thrown, Action}
use minikura.Servers.Store.{Store, Shows, Leaves}
use minikura.Servers.Crud.{
  Repository, Events, World, in_db, publish, announce, create, create_unless, update, delete,
}

-- A call that comes through with `a`, the state that it leaves, and the events that it publishes.
abbrev pub Does :
    {Row Event A : Type 0} (s : Store Row)
    → World s.State Event
    → Settled Thrown A × World s.State Event
    → (s.State → A)
    → (String → Option Row)
    → (String → String → Option String)
    → List Event
    → Type 0
Does s w (r, w') a rows vars news =
    (r ≡ ok (a w'.db)) × Shows s w'.db rows vars × (w'.published ≡ w.published ++ news)

-- `const entity = await …; await eventBus.publish(event); return entity;`
abbrev pub notify : {S Event A : Type 0} → Event → Action S A → Action (World S Event) A
notify event m = do a ← in_db m; announce event a

module _ {Row Event A : Type 0} (s : Store Row) (w : World s.State Event) (a : s.State → A)
    (rows : String → Option Row) (vars : String → String → Option String) where
  pub notify-Does :
      (event : Event) (m : Action s.State A)
      → Leaves s (m w.db) a rows vars
      → Does s w (notify event m w) a rows vars (event ∷ [])
  unfolding in_db announce
  notify-Does event m h = go (m w.db) h
    where
      go :
          (r : Settled Thrown A × s.State)
          → Leaves s r a rows vars
          → Does s w
              (◌>>=◌ (λ _. (r.0, record w { db = r.1 })) (announce event) w)
              a
              rows
              vars
              (event ∷ [])
      go (ok x, t) (came, shows) = (came, shows, refl)
      go (thrown e, t) (came, shows) = cc came

  pub in_db-Does :
      (m : Action s.State A) → Leaves s (m w.db) a rows vars → Does s w (in_db m w) a rows vars []
  unfolding in_db
  in_db-Does m h = (h.0, h.1, sym (append-nil w.published))

module _ {S Event A : Type 0} where
  pub in_db-eq :
      (m : Action S A) (w : World S Event) {r : Settled Thrown A} {t : S}
      → m w.db ≡ (r, t)
      → in_db m w ≡ (r, record w { db = t })
  unfolding in_db
  in_db-eq m w h = ap (λ p. (p.0, record w { db = p.1 })) h

module _ {S Event Entity Kind CreateInput UpdateInput : Type 0}
    (repository : Repository S Entity CreateInput UpdateInput)
    (events : Events Event Kind CreateInput UpdateInput) (entity_name : String)
    (get_entity_type : CreateInput → Kind) (get_input_id : CreateInput → String) where
  pub create_taken :
      (encoded : String) (input : CreateInput) (w : World S Event)
      → repository.exists (get_input_id input) w.db ≡ (ok true, w.db)
      → create repository events entity_name get_entity_type get_input_id encoded input w
        ≡ (thrown (Thrown.domain (DomainError.conflict entity_name (some (get_input_id input)))), w)
  unfolding create
  create_taken encoded input w e =
      >>=-eq_of_ok (in_db (repository.exists (get_input_id input)))
        (create_unless repository events entity_name get_entity_type get_input_id encoded input)
        (in_db-eq (repository.exists (get_input_id input)) w e)

  pub create_fresh :
      (encoded : String) (input : CreateInput) (w : World S Event)
      → repository.exists (get_input_id input) w.db ≡ (ok false, w.db)
      → create repository events entity_name get_entity_type get_input_id encoded input w
        ≡ notify
            (events.created (get_input_id input) (get_entity_type input) input)
            (repository.create encoded input)
            w
  unfolding create
  create_fresh encoded input w e =
      >>=-eq_of_ok (in_db (repository.exists (get_input_id input)))
        (create_unless repository events entity_name get_entity_type get_input_id encoded input)
        (in_db-eq (repository.exists (get_input_id input)) w e)

  pub update_throws :
      (id : String) (input : UpdateInput) (w : World S Event) (e : Thrown)
      → repository.update id input w.db ≡ (thrown e, w.db)
      → update repository events entity_name get_entity_type get_input_id id input w ≡ (thrown e, w)
  unfolding update
  update_throws id input w e h =
      >>=-eq_of_thrown (in_db (repository.update id input)) (announce (events.updated id input))
        (in_db-eq (repository.update id input) w h)

  pub delete_throws :
      (id : String) (w : World S Event) (e : Thrown)
      → repository.delete id w.db ≡ (thrown e, w.db)
      → delete repository events entity_name get_entity_type get_input_id id w ≡ (thrown e, w)
  unfolding delete
  delete_throws id w e h =
      >>=-eq_of_thrown (in_db (repository.delete id)) (λ _. publish (events.deleted id))
        (in_db-eq (repository.delete id) w h)

-- ===== src/Servers/Memory.antt =====
-- A table in memory, each row with its variables, which shows that the laws asked of the database
-- client can hold.
use minikura.Common.{
  String, Bool, true, false, not, ◌||◌, Option, none, some, List, [], ◌∷◌, ◌++◌, ◌==◌, ◌≡◌, ◌∙◌,
  refl, sym, ap, subst, is_some, lookup, insert, lookup-insert, if◌then◌else◌, Settled, ok, thrown,
  arith, eq_iff, eq_refl, Bool-cases, Option-cases, inl, inr,
}
use minikura.Domain.Errors.{Thrown}
use minikura.Servers.Entities.{EnvVariable, WithEnvVars}
use minikura.Servers.Store.{
  NewVariable, Store, IsStore, Leaves, env, joined, row_set, vars_set, distinct,
}

abbrev refused : Thrown
refused = Thrown.error "PrismaClientKnownRequestError" "The request is refused"

-- The list without the variables of a condition.
abbrev without_all : (String → Bool) → List EnvVariable → List EnvVariable
without_all p [] = []
without_all p ((j, v) ∷ vs) = if p j then without_all p vs else (j, v) ∷ without_all p vs

lookup-without_all :
    (p : String → Bool) (k : String) (vs : List EnvVariable)
    → lookup k (without_all p vs) ≡ (if p k then none else lookup k vs)
lookup-without_all p k [] = ground arith
lookup-without_all p k ((j, v) ∷ vs) = elim (Bool-cases (j == k)) [
  | inl h ↦
      let same = (eq_iff j k).0 h in
      rw (same) (ground (arith, eq_refl k, lookup-without_all p k vs))
  | inr h ↦ ground (arith, lookup-without_all p k vs)
]

lookup-append :
    (k : String) (vs ws : List EnvVariable) → lookup k ws ≡ none → lookup k (vs ++ ws) ≡ lookup k vs
lookup-append k [] ws h = h
lookup-append k ((j, v) ∷ vs) ws h = ground (arith, lookup-append k vs ws h)

module _ {Row : Type 0} (id_of : Row → String) where
  abbrev Entry : Type 0
  Entry = Row × List EnvVariable

  abbrev find : String → List Entry → Option Entry
  find i [] = none
  find i (e ∷ t) = if id_of e.0 == i then some e else find i t

  abbrev row_of : Option Entry → Option Row
  row_of none = none
  row_of (some e) = some e.0

  abbrev vars_of : Option Entry → List EnvVariable
  vars_of none = []
  vars_of (some e) = e.1

  abbrev rows : List Entry → List Row
  rows [] = []
  rows (e ∷ t) = e.0 ∷ rows t

  abbrev alter : String → (Entry → Entry) → List Entry → List Entry
  alter i g [] = []
  alter i g (e ∷ t) = if id_of e.0 == i then g e ∷ t else e ∷ alter i g t

  abbrev remove : String → List Entry → List Entry
  remove i [] = []
  remove i (e ∷ t) = if id_of e.0 == i then remove i t else e ∷ remove i t

  -- An answer where the row is there, and a refusal where it is not.
  abbrev answer :
      {A : Type 0} → Option Entry → A → List Entry → List Entry → Settled Thrown A × List Entry
  answer none a t t' = (thrown refused, t)
  answer (some e) a t t' = (ok a, t')

  abbrev entry_at : String → List Entry → Row → WithEnvVars Row
  entry_at i t r = record { row = r; env_variables = vars_of (find i t) }

  abbrev updated :
      String
      → (Row → Row)
      → List Entry
      → Option Entry
      → Settled Thrown (WithEnvVars Row) × List Entry
  updated i f t none = (thrown refused, t)
  updated i f t (some e) =
      let t' = alter i (λ d. (f d.0, d.1)) t in (ok (entry_at i t' (f e.0)), t')

  abbrev upserted :
      String
      → String
      → String
      → NewVariable
      → List Entry
      → Option String
      → Settled Thrown (Unit {0}) × List Entry
  upserted i k v new t (some old) = (ok tt, alter i (λ e. (e.0, insert k v e.1)) t)
  upserted i k v new t none =
      answer (find new.owner t) tt t (alter new.owner (λ e. (e.0, insert new.key new.value e.1)) t)

  abbrev pruned : (String → String → Bool) → List Entry → List Entry
  pruned p [] = []
  pruned p (e ∷ t) = (e.0, without_all (p (id_of e.0)) e.1) ∷ pruned p t

  abbrev pub memory : Store Row
  memory = record {
    State = List Entry;
    find_unique = λ i t. row_of (find i t);
    find_many = rows;
    env_variables = λ i t. vars_of (find i t);
    create = λ r vs t.
        if is_some (find (id_of r) t) || not (distinct vs)
        then (thrown refused, t)
        else (ok (entry_at (id_of r) ((r, vs) ∷ t) r), (r, vs) ∷ t);
    update = λ i f t. updated i f t (find i t);
    delete = λ i t. answer (find i t) tt t (remove i t);
    upsert_env = λ i k v new t. upserted i k v new t (lookup k (vars_of (find i t)));
    delete_envs = λ p t. (ok tt, pruned p t);
    clear_env = λ i t. (ok tt, alter i (λ e. (e.0, [])) t);
    create_env = λ i vs t.
        if distinct vs
        then answer (find i t) tt t (alter i (λ e. (e.0, vs ++ e.1)) t)
        else (thrown refused, t);
  }

  found_entry :
      (i : String) (t : List Entry) (r : Row)
      → row_of (find i t) ≡ some r
      → (vs : List EnvVariable) × (find i t ≡ some (r, vs))
  found_entry i t r h = go (find i t) h
    where
      go : (o : Option Entry) → row_of o ≡ some r → (vs : List EnvVariable) × (o ≡ some (r, vs))
      go none k = cc
      go (some (q, vs)) k = (vs, cc)

  find-id : (i : String) (t : List Entry) (r : Row) → row_of (find i t) ≡ some r → id_of r ≡ i
  find-id i [] r h = cc
  find-id i (e ∷ t) r h = ground (arith, eq_iff (id_of e.0) i, find-id i t r)

  find-alter :
      (i : String) (g : Entry → Entry) (t : List Entry) (e : Entry)
      → find i t ≡ some e
      → id_of (g e).0 ≡ id_of e.0
      → (j : String) → find j (alter i g t) ≡ (if i == j then some (g e) else find j t)
  find-alter i g [] e h same j = cc
  find-alter i g (d ∷ t) e h same j = elim (Bool-cases (id_of d.0 == i)) [
    | inl here ↦
        ground
          (arith, eq_iff (id_of d.0) i, eq_iff i j, eq_iff (id_of d.0) j, eq_iff (id_of (g d).0) j)
    | inr there ↦ rw there (
        ground (
          arith,
          eq_iff (id_of d.0) i,
          eq_iff i j,
          eq_iff (id_of d.0) j,
          find-alter i g t e (ground arith) same j,
        ))
  ]

  alter_missing :
      (i : String) (g : Entry → Entry) (t : List Entry) → find i t ≡ none → alter i g t ≡ t
  alter_missing i g [] h = refl
  alter_missing i g (e ∷ t) h = elim (Bool-cases (id_of e.0 == i)) [
    | inl here ↦ ground arith
    | inr there ↦ rw there (ap (λ x. e ∷ x) (alter_missing i g t (ground arith)))
  ]

  find-remove :
      (i : String) (t : List Entry) (j : String)
      → find j (remove i t) ≡ (if i == j then none else find j t)
  find-remove i [] j = ground arith
  find-remove i (e ∷ t) j =
      ground (arith, eq_iff (id_of e.0) i, eq_iff i j, eq_iff (id_of e.0) j, find-remove i t j)

  abbrev edit : (List EnvVariable → List EnvVariable) → Option Entry → Option Entry
  edit g none = none
  edit g (some e) = some (e.0, g e.1)

  find-edit :
      (i : String) (g : List EnvVariable → List EnvVariable) (t : List Entry) (j : String)
      → find j (alter i (λ e. (e.0, g e.1)) t) ≡ (if i == j then edit g (find j t) else find j t)
  find-edit i g [] j = ground arith
  find-edit i g (e ∷ t) j = elim (Bool-cases (id_of e.0 == i)) [
    | inl here ↦ ground (arith, eq_iff (id_of e.0) i, eq_iff i j, eq_iff (id_of e.0) j)
    | inr there ↦
        rw there (
          ground (arith, eq_iff (id_of e.0) i, eq_iff i j, eq_iff (id_of e.0) j, find-edit i g t j))
  ]

  rows_kept :
      (i : String) (g : List EnvVariable → List EnvVariable) (t : List Entry) (j : String)
      → row_of (find j (alter i (λ e. (e.0, g e.1)) t)) ≡ row_of (find j t)
  rows_kept i g t j = ap row_of (find-edit i g t j) ∙ go (i == j) (find j t)
    where
      go : (b : Bool) (o : Option Entry) → row_of (if b then edit g o else o) ≡ row_of o
      go true none = refl
      go true (some e) = refl
      go false o = refl

  -- The variables of one owner changed by what `after` says of each key.
  vars_changed :
      (i : String) (g : List EnvVariable → List EnvVariable) (t : List Entry)
      (after : String → Option String → Option String)
      → ((k : String) (o : Option Entry)
          → o ≡ find i t
          → lookup k (vars_of (edit g o)) ≡ after k (lookup k (vars_of o)))
      → (j k : String)
      → lookup k (vars_of (find j (alter i (λ e. (e.0, g e.1)) t)))
        ≡ (if i == j then after k (env memory j k t) else env memory j k t)
  vars_changed i g t after h j k =
      ap (λ o. lookup k (vars_of o)) (find-edit i g t j) ∙ elim (Bool-cases (i == j)) [
        | inl b ↦ rw b (h k (find j t) (ap (λ x. find x t) (sym ((eq_iff i j).0 b))))
        | inr b ↦ rw b refl
      ]

  edit-clear : (k : String) (o : Option Entry) → lookup k (vars_of (edit (λ _. []) o)) ≡ none
  edit-clear k none = refl
  edit-clear k (some e) = refl

  create_new :
      (r : Row) (vs : List EnvVariable) (t : List Entry)
      → row_of (find (id_of r) t) ≡ none
      → distinct vs ≡ true
      → memory.create r vs t ≡ (ok (entry_at (id_of r) ((r, vs) ∷ t) r), (r, vs) ∷ t)
  create_new r vs t free once = elim (Option-cases (find (id_of r) t)) [
    | inl e ↦ rw (e, once) refl
    | inr (q, e) ↦ cc
  ]

  row_missing : (i : String) (t : List Entry) → row_of (find i t) ≡ none → find i t ≡ none
  row_missing i t h = go (find i t) h
    where
      go : (o : Option Entry) → row_of o ≡ none → o ≡ none
      go none k = refl
      go (some e) k = cc

  owned :
      (i key old : String) (t : List Entry)
      → lookup key (vars_of (find i t)) ≡ some old
      → (e : Entry) × (find i t ≡ some e)
  owned i key old t h = elim (Option-cases (find i t)) [ inl e ↦ cc (h, e) | inr (e, f) ↦ (e, f) ]

  rows_pruned :
      (p : String → String → Bool) (t : List Entry) (j : String)
      → row_of (find j (pruned p t)) ≡ row_of (find j t)
  rows_pruned p [] j = refl
  rows_pruned p (e ∷ t) j = ground (arith, rows_pruned p t j)

  vars_pruned :
      (p : String → String → Bool) (t : List Entry) (j k : String)
      → lookup k (vars_of (find j (pruned p t)))
        ≡ (if p j k then none else lookup k (vars_of (find j t)))
  vars_pruned p [] j k = ground arith
  vars_pruned p (e ∷ t) j k = elim (Bool-cases (id_of e.0 == j)) [
    | inl h ↦ rw h (
        lookup-without_all (p (id_of e.0)) k e.1
        ∙ ap (λ x. if p x k then none else lookup k e.1) ((eq_iff (id_of e.0) j).0 h))
    | inr h ↦ rw h (vars_pruned p t j k)
  ]

  pub memory-IsStore : (key_of : Row → String) → IsStore id_of key_of memory
  memory-IsStore key_of = record {
    found_id = find-id;
    create_new = λ r vs t free fresh once.
        subst
          (λ p.
            Leaves memory p (joined memory (id_of r) r) (row_set memory (id_of r) (some r) t)
              (vars_set memory (id_of r) (λ k. lookup k vs) t))
          (sym (create_new r vs t free once)) (refl, ((λ j. ground arith), λ j k. ground arith));
    update_found = λ i f t r h same kept.
        let (vs, e) = found_entry i t r h in
        let after = find-alter i (λ d. (f d.0, d.1)) t (r, vs) e same in
        rw e (
          refl,
          ((λ j. rw (after j) (ground arith)), λ j k. rw (after j) (ground (arith, eq_iff i j))),
        );
    delete_found = λ i t r h.
        let (vs, e) = found_entry i t r h in
        rw e (
          refl,
          (
            (λ j. rw (find-remove i t j) (ground arith)),
            λ j k. rw (find-remove i t j) (ground arith),
          ),
        );
    delete_missing = λ i t h. ("The request is refused", rw (row_missing i t h) refl);
    env_owned = λ i key t h. rw (row_missing i t h) refl;
    upsert_env_found = λ i key v old new t h.
        let ((r, vs), e) = owned i key old t h in
        rw h (
          refl,
          (
            rows_kept i (insert key v) t,
            λ j k.
                vars_changed i (insert key v) t (λ x o. if key == x then some v else o)
                  (λ x o same. rw (same ∙ e) (lookup-insert key x v vs)) j k
                ∙ ground arith,
          ),
        );
    upsert_env_new = λ i key v new t r h there none_yet.
        let (vs, e) = found_entry new.owner t r there in
        rw (h, e)
          (
            refl,
            (
              rows_kept new.owner (insert new.key new.value) t,
              λ j k.
                  vars_changed new.owner (insert new.key new.value) t
                    (λ x o. if new.key == x then some new.value else o)
                    (λ x o same. rw (same ∙ e) (lookup-insert new.key x new.value vs)) j k
                  ∙ ground arith,
            ),
          );
    upsert_env_missing = λ i key v new t h gone.
        ("The request is refused", rw (h, row_missing new.owner t gone) refl);
    delete_envs_any = λ p t. (refl, (rows_pruned p t, λ j k. vars_pruned p t j k));
    clear_env_any = λ i t. (
      refl,
      (
        rows_kept i (λ _. []) t,
        λ j k. vars_changed i (λ _. []) t (λ _ _. none) (λ x o _. edit-clear x o) j k,
      ),
    );
    create_env_found = λ i vs t r h none_yet once.
        let (ws, e) = found_entry i t r h in
        rw (once, e)
          (
            refl,
            (
              rows_kept i (λ x. vs ++ x) t,
              λ j k.
                  vars_changed i (λ x. vs ++ x) t (λ x _. lookup x vs)
                    (λ x o same.
                      rw (same ∙ e) (
                        lookup-append x vs ws
                          (sym (ap (λ y. lookup x (vars_of y)) e) ∙ none_yet x)))
                    j k,
            ),
          );
    create_env_twice = λ i vs t twice. ("The request is refused", rw twice refl);
  }

-- ===== src/Web/ServerForm/Reloaded.antt =====
-- What an edit reads back of the variables that a form has sent
-- (apps/web/lib/server-form/mappings.ts).
use minikura.Common.{
  String, true, false, not, Option, none, some, List, [], ◌∷◌, ◌++◌, ◌==◌, ◌≡◌, refl, ◌∙◌, ap, sym,
  subst, map, if◌then◌else◌, filter, contains, insert, lookup, distinct_texts, arith, eq_iff,
  Bool-cases, inl, inr, ◌||◌,
}
use minikura.Servers.Entities.{EnvVariable}
use minikura.Web.ServerForm.{ServerFormData, managed_environment_keys}
use minikura.Web.ServerForm.Environment.{
  Entries, assign_all, custom_entries, index_of, is_index, place_index, comes_before, indices,
  object_entries, managed_entries,
}
use minikura.Web.ServerForm.Initial.{of_entries, environment_of}
use minikura.Web.ServerForm.Lookups.{
  last_set, or_old, other_key, lookup-assign_all, last_set-custom_entries,
}
use minikura.Web.ServerForm.Sent.{sent, IsPlain}

abbrev keys : List EnvVariable → List String
keys variables = map {B = String} (λ v. v.0) variables

contains-insert :
    (wanted key value : String) (environment : List EnvVariable)
    → contains wanted (keys (insert key value environment))
      ≡ (key == wanted || contains wanted (keys environment))
contains-insert wanted key value [] = refl
contains-insert wanted key value (v ∷ environment) = ground (
  arith,
  eq_iff v.0 key,
  eq_iff key wanted,
  eq_iff v.0 wanted,
  contains-insert wanted key value environment,
)

distinct-insert :
    (key value : String) (environment : List EnvVariable)
    → distinct_texts (keys environment) ≡ true
    → distinct_texts (keys (insert key value environment)) ≡ true
distinct-insert key value [] h = refl
distinct-insert key value (v ∷ environment) h = ground (
  arith,
  eq_iff v.0 key,
  eq_iff key v.0,
  contains-insert v.0 key value environment,
  distinct-insert key value environment,
)

distinct-assign_all :
    (entries : Entries) (environment : List EnvVariable)
    → distinct_texts (keys environment) ≡ true
    → distinct_texts (keys (assign_all entries environment)) ≡ true
distinct-assign_all [] environment h = h
distinct-assign_all ((key, none) ∷ entries) environment h =
    distinct-assign_all entries environment h
distinct-assign_all ((key, some value) ∷ entries) environment h =
    distinct-assign_all entries (insert key value environment)
      (distinct-insert key value environment h)

lookup-missing :
    (wanted : String) (environment : List EnvVariable)
    → contains wanted (keys environment) ≡ false
    → lookup wanted environment ≡ none
lookup-missing wanted [] h = refl
lookup-missing wanted (v ∷ environment) h = ground (arith, lookup-missing wanted environment)

-- Without a key that stands twice, the last assignment is the first.
last_set-of_entries :
    (wanted : String) (environment : List EnvVariable) (old : Option String)
    → distinct_texts (keys environment) ≡ true
    → last_set wanted (of_entries environment) old ≡ or_old (lookup wanted environment) old
last_set-of_entries wanted [] old h = refl
last_set-of_entries wanted (v ∷ environment) old h = elim (Bool-cases (v.0 == wanted)) [
  | inl e ↦
      let gone : lookup wanted environment ≡ none = lookup-missing wanted environment (
        subst (λ key. contains key (keys environment) ≡ false) ((eq_iff v.0 wanted).0 e)
          (ground arith)) in
      rw (last_set, e)
        (last_set-of_entries wanted environment (some v.1) (ground arith) ∙ rw gone refl)
  | inr n ↦ rw (last_set, n) (last_set-of_entries wanted environment old (ground arith))
]

pub or_none : (value : Option String) → or_old value none ≡ value
or_none none = refl
or_none (some value) = refl

module _ (wanted : String) (plain : is_index (index_of wanted) ≡ false) where
  last_set-place_index :
      (v : EnvVariable) (placed rest : List EnvVariable) (old : Option String)
      → is_index (index_of v.0) ≡ true
      → last_set wanted (of_entries (place_index v placed ++ rest)) old
        ≡ last_set wanted (of_entries (placed ++ rest)) old
  unfolding place_index
  last_set-place_index v [] rest old h = rw (last_set, other_key wanted plain v.0 h) refl
  last_set-place_index v (p ∷ placed) rest old h =
      elim (Bool-cases (comes_before (index_of v.0) (index_of p.0))) [
        | inl first ↦ rw (first, last_set, other_key wanted plain v.0 h) refl
        | inr later ↦
            rw later
              (last_set-place_index v placed rest (if p.0 == wanted then some p.1 else old) h)
      ]

  last_set-indices :
      (environment rest : List EnvVariable) (old : Option String)
      → last_set wanted (of_entries (indices environment ++ rest)) old
        ≡ last_set wanted (of_entries rest) old
  unfolding indices
  last_set-indices [] rest old = refl
  last_set-indices (v ∷ environment) rest old = elim (Bool-cases (is_index (index_of v.0))) [
    | inl h ↦ rw h (
        last_set-place_index v (indices environment) rest old h
        ∙ last_set-indices environment rest old)
    | inr h ↦ rw h (last_set-indices environment rest old)
  ]

  last_set-filter :
      (environment : List EnvVariable) (old : Option String)
      → last_set wanted (of_entries (filter (λ v. not (is_index (index_of v.0))) environment)) old
        ≡ last_set wanted (of_entries environment) old
  last_set-filter [] old = refl
  last_set-filter (v ∷ environment) old = elim (Bool-cases (is_index (index_of v.0))) [
    | inl h ↦ rw h (
        last_set-filter environment old
        ∙ ap (λ b. last_set wanted (of_entries environment) (if b then some v.1 else old))
            (sym (other_key wanted plain v.0 h)))
    | inr h ↦ rw h (last_set-filter environment (if v.0 == wanted then some v.1 else old))
  ]

  pub lookup-reloaded :
      (environment : List EnvVariable)
      → distinct_texts (keys environment) ≡ true
      → lookup wanted (environment_of (object_entries environment)) ≡ lookup wanted environment
  unfolding object_entries
  lookup-reloaded environment h =
      lookup-assign_all wanted (of_entries (object_entries environment)) []
      ∙ last_set-indices environment (filter (λ v. not (is_index (index_of v.0))) environment) none
      ∙ last_set-filter environment none
      ∙ last_set-of_entries wanted environment none h
      ∙ or_none (lookup wanted environment)

-- A managed variable is read back as it was set.
pub lookup-environment_of-sent :
    (data_ : ServerFormData) (key : String)
    → IsPlain data_
    → is_index (index_of key) ≡ false
    → contains key managed_environment_keys ≡ true
    → lookup key (environment_of (sent data_)) ≡ last_set key (managed_entries data_) none
lookup-environment_of-sent data_ key plain no_index managed =
    let environment : List EnvVariable = assign_all (managed_entries data_) [] in
    lookup-reloaded key no_index (assign_all (custom_entries data_.env_vars) environment) (
      distinct-assign_all (custom_entries data_.env_vars) environment
        (distinct-assign_all (managed_entries data_) [] refl))
    ∙ lookup-assign_all key (custom_entries data_.env_vars) environment
    ∙ last_set-custom_entries key managed data_.env_vars (lookup key environment) plain
    ∙ lookup-assign_all key (managed_entries data_) []

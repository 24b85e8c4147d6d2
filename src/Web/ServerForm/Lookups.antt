-- ===== src/Web/ServerForm/Lookups.antt =====
-- What the variables that the form sends hold of a key (apps/web/lib/server-form/mappings.ts).
use minikura.Common.{
  String, true, false, not, Option, none, some, List, [], ◌∷◌, ◌++◌, ◌==◌, ◌≡◌, refl, ◌∙◌, ap,
  if◌then◌else◌, filter, contains, lookup, lookup-insert, arith, eq_iff, Bool-cases, inl, inr, All,
}
use minikura.Servers.Entities.{EnvVariable}
use minikura.Web.ServerForm.{managed_environment_keys}
use minikura.Web.ServerForm.Environment.{
  Entries, assign, assign_all, custom_entries, custom_value, index_of, is_index, place_index,
  comes_before, indices, object_entries, filter_custom_environment_variables,
}

abbrev pub or_old : Option String → Option String → Option String
or_old none old = old
or_old (some value) old = some value

-- What the last of some assignments to a key leaves there.
abbrev pub last_set : String → Entries → Option String → Option String
last_set wanted [] old = old
last_set wanted ((key, value) ∷ entries) old =
    last_set wanted entries (if key == wanted then or_old value old else old)

lookup-assign :
    (wanted key : String) (value : Option String) (environment : List EnvVariable)
    → lookup wanted (assign key value environment) ≡ (
        if key == wanted
        then or_old value (lookup wanted environment)
        else lookup wanted environment)
lookup-assign wanted key none environment = ground arith
lookup-assign wanted key (some value) environment = lookup-insert key wanted value environment

pub lookup-assign_all :
    (wanted : String) (entries : Entries) (environment : List EnvVariable)
    → lookup wanted (assign_all entries environment)
      ≡ last_set wanted entries (lookup wanted environment)
lookup-assign_all wanted [] environment = refl
lookup-assign_all wanted ((key, value) ∷ entries) environment =
    lookup-assign_all wanted entries (assign key value environment)
    ∙ ap (last_set wanted entries) (lookup-assign wanted key value environment)

module _ (wanted : String) (plain : is_index (index_of wanted) ≡ false) where
  pub other_key : (key : String) → is_index (index_of key) ≡ true → (key == wanted) ≡ false
  other_key key h = elim (Bool-cases (key == wanted)) [
    | inl e ↦ cc (h, plain, (eq_iff key wanted).0 e)
    | inr n ↦ n
  ]

  lookup-place_index :
      (v : EnvVariable) (placed rest : List EnvVariable)
      → is_index (index_of v.0) ≡ true
      → lookup wanted (place_index v placed ++ rest) ≡ lookup wanted (placed ++ rest)
  unfolding place_index
  lookup-place_index v [] rest h = rw (other_key v.0 h) refl
  lookup-place_index v (p ∷ placed) rest h =
      elim (Bool-cases (comes_before (index_of v.0) (index_of p.0))) [
        | inl first ↦ rw (first, other_key v.0 h) refl
        | inr later ↦
            rw later
              (ap (λ x. if p.0 == wanted then some p.1 else x) (lookup-place_index v placed rest h))
      ]

  lookup-indices :
      (environment rest : List EnvVariable)
      → lookup wanted (indices environment ++ rest) ≡ lookup wanted rest
  unfolding indices
  lookup-indices [] rest = refl
  lookup-indices (v ∷ environment) rest = elim (Bool-cases (is_index (index_of v.0))) [
    | inl h ↦
        rw h (lookup-place_index v (indices environment) rest h ∙ lookup-indices environment rest)
    | inr h ↦ rw h (lookup-indices environment rest)
  ]

  lookup-filter :
      (environment : List EnvVariable)
      → lookup wanted (filter (λ v. not (is_index (index_of v.0))) environment)
        ≡ lookup wanted environment
  lookup-filter [] = refl
  lookup-filter (v ∷ environment) = elim (Bool-cases (is_index (index_of v.0))) [
    | inl h ↦ rw (h, other_key v.0 h) (lookup-filter environment)
    | inr h ↦ rw h (ap (λ x. if v.0 == wanted then some v.1 else x) (lookup-filter environment))
  ]

  pub lookup-object_entries :
      (environment : List EnvVariable)
      → lookup wanted (object_entries environment) ≡ lookup wanted environment
  unfolding object_entries
  lookup-object_entries environment =
      lookup-indices environment (filter (λ v. not (is_index (index_of v.0))) environment)
      ∙ lookup-filter environment

module _ (wanted : String) (managed : contains wanted managed_environment_keys ≡ true) where
  -- Custom variables with keys that are not managed leave the managed ones alone.
  pub last_set-custom_entries :
      (variables : List EnvVariable) (old : Option String)
      → All (λ v. contains v.0 managed_environment_keys ≡ false) variables
      → last_set wanted (custom_entries variables) old ≡ old
  last_set-custom_entries [] old h = refl
  last_set-custom_entries ((key, value) ∷ variables) old (h, hs) =
      elim (Bool-cases (key == wanted)) [
        | inl e ↦ cc (h, managed, (eq_iff key wanted).0 e)
        | inr n ↦
            ap
              (λ b.
                last_set wanted (custom_entries variables)
                  (if b then or_old (custom_value key value) old else old))
              n
            ∙ last_set-custom_entries variables old hs
      ]

-- The custom variables of a server are none that the form manages.
pub filter_custom-All :
    (variables : List EnvVariable)
    → All
        (λ v. contains v.0 managed_environment_keys ≡ false)
        (filter_custom_environment_variables variables)
unfolding filter_custom_environment_variables
filter_custom-All [] = tt
filter_custom-All (v ∷ variables) = elim (Bool-cases (contains v.0 managed_environment_keys)) [
  | inl h ↦ rw h (filter_custom-All variables)
  | inr h ↦ rw h ((h, filter_custom-All variables))
]

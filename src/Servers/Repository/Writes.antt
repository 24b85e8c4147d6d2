-- ===== src/Servers/Repository/Writes.antt =====
-- The repositories' writes in several steps.
use minikura.Common.{
  String, true, none, some, List, [], ◌∷◌, ◌≡◌, ◌∙◌, refl, lookup, if◌then◌else◌, pure, arith,
  eq_refl,
}
use minikura.Servers.Entities.{EnvVariable}
use minikura.Servers.Store.{Store, IsStore, Shows, Leaves, vars_set, distinct}
use minikura.Servers.Store.Sequences.{bind-Leaves, Leaves-resp}
use minikura.Servers.Repository.Rows.{replace_env_variables, is_empty}

module _ {Row : Type 0} (id_of key_of : Row → String) (s : Store Row)
    (laws : IsStore id_of key_of s) (name : String) (blank : Row → Row) where
  -- The second step of a replacement, on variables that have been cleared.
  fill_env :
      (i : String) (vs : List EnvVariable) (t u : s.State) (r : Row)
      → s.find_unique i t ≡ some r
      → distinct vs ≡ true
      → Shows s u (λ j. s.find_unique j t) (vars_set s i (λ _. none) t)
      → Leaves s
          ((if is_empty vs then pure tt else s.create_env i vs) u)
          (λ _. tt)
          (λ j. s.find_unique j t)
          (vars_set s i (λ k. lookup k vs) t)
  fill_env i [] t u r e once shows = (refl, shows)
  fill_env i (v ∷ vs) t u r e once (same, kept) =
      Leaves-resp s (s.create_env i (v ∷ vs) u) (λ _. tt) (λ j. s.find_unique j u)
        (λ j. s.find_unique j t) (vars_set s i (λ k. lookup k (v ∷ vs)) u)
        (vars_set s i (λ k. lookup k (v ∷ vs)) t) same (λ j k. ground (arith, kept j k))
        (laws.create_env_found i (v ∷ vs) u r (same i ∙ e)
          (λ k. ground (arith, kept i k, eq_refl i)) once)

  -- Replacing the variables of a row that is there, by keys that are all different.
  pub replace-Leaves :
      (i : String) (vs : List EnvVariable) (t : s.State) (r : Row)
      → s.find_unique i t ≡ some r
      → distinct vs ≡ true
      → Leaves s
          (replace_env_variables s name blank i vs t)
          (λ _. tt)
          (λ j. s.find_unique j t)
          (vars_set s i (λ k. lookup k vs) t)
  unfolding replace_env_variables
  replace-Leaves i vs t r e once =
      bind-Leaves s t (s.clear_env i) (λ _. if is_empty vs then pure tt else s.create_env i vs)
        (λ _. tt) (λ _. tt) (λ j. s.find_unique j t) (λ j. s.find_unique j t)
        (vars_set s i (λ _. none) t) (vars_set s i (λ k. lookup k vs) t) (laws.clear_env_any i t)
        (λ u shows. fill_env i vs t u r e once shows)

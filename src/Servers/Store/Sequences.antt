-- ===== src/Servers/Store/Sequences.antt =====
-- Writes one after the other.
use minikura.Common.{String, Option, ◌≡◌, ◌∙◌, Settled, ok, thrown, ◌>>=◌, subst, sym}
use minikura.Domain.Errors.{Thrown, Action}
use minikura.Servers.Store.{Store, Shows, Leaves}

module _ {Row : Type 0} (s : Store Row) where
  -- A step after a write that came through: it starts from what the write shows.
  pub bind-Leaves :
      {A B : Type 0} (t : s.State) (m : Action s.State A) (f : A → Action s.State B)
      (a : s.State → A) (b : s.State → B) (rows rows' : String → Option Row)
      (vars vars' : String → String → Option String)
      → Leaves s (m t) a rows vars
      → ((u : s.State) → Shows s u rows vars → Leaves s (f (a u) u) b rows' vars')
      → Leaves s ((m >>= f) t) b rows' vars'
  bind-Leaves {A} {B} t m f a b rows rows' vars vars' h k = go (m t) h
    where
      go :
          (r : Settled Thrown A × s.State)
          → Leaves s r a rows vars
          → Leaves s ((◌>>=◌ (λ _. r) f) t) b rows' vars'
      go (ok x, u) (came, shows) =
          subst (λ (r : Settled Thrown A). Leaves s ((◌>>=◌ (λ _. (r, u)) f) t) b rows' vars')
            (sym came) (k u shows)
      go (thrown e, u) (came, shows) = cc came

  -- The same in the terms of an earlier state.
  pub Leaves-resp :
      {A : Type 0} (r : Settled Thrown A × s.State) (a : s.State → A)
      (rows rows' : String → Option Row) (vars vars' : String → String → Option String)
      → ((j : String) → rows j ≡ rows' j)
      → ((j k : String) → vars j k ≡ vars' j k)
      → Leaves s r a rows vars
      → Leaves s r a rows' vars'
  Leaves-resp r a rows rows' vars vars' p q (came, (same, kept)) =
      (came, ((λ j. same j ∙ p j), λ j k. kept j k ∙ q j k))

-- ===== src/Common/Results.antt =====
-- Asynchronous calls over a mutable world: what was written before a throw stays written.
use mathlib.Core.Path.{◌≡◌, refl, ap}
use mathlib.Core.Bool.{Bool, true, false}
use mathlib.Core.Option.{Option, none, some}

-- What an awaited call of the program comes back with; `E` is what it may throw.
pub data Settled {ℓ} (E : Type 0) (A : Type ℓ) : Type ℓ where
  ok : A → Settled E A
  thrown : E → Settled E A

abbrev pub Call : Type 0 → Type 0 → Type 0 → Type 0
Call E W A = W → Settled E A × W

module _ {E W : Type 0} where
  infixl 5 ◌>>=◌ ◌>>◌
  abbrev pub ◌>>=◌ : {A B : Type 0} → Call E W A → (A → Call E W B) → Call E W B
  ◌>>=◌ m f w = let (r, w') = m w in elim r [ ok a ↦ f a w' | thrown e ↦ (thrown e, w') ]

  abbrev pub ◌>>◌ : {B : Type 0} → Call E W (Unit {0}) → Call E W B → Call E W B
  m >> k = m >>= λ _. k

  abbrev pub pure : {A : Type 0} → A → Call E W A
  pure a w = (ok a, w)

  abbrev pub throw : {A : Type 0} → E → Call E W A
  throw e w = (thrown e, w)

  abbrev pub gets : {A : Type 0} → (W → A) → Call E W A
  gets f w = (ok (f w), w)

  abbrev pub modify : (W → W) → Call E W (Unit {0})
  modify f w = (ok tt, f w)

  -- A value that is awaited.
  abbrev pub settle : {A : Type 0} → Settled E A → Call E W A
  settle r w = (r, w)

  -- `if (test) throw e;`
  abbrev pub throw_if : Bool → E → Call E W (Unit {0})
  throw_if true e w = (thrown e, w)
  throw_if false e w = (ok tt, w)

  -- `if (!value) throw e;`
  abbrev pub or_throw : {A : Type 0} → Option A → E → Call E W A
  or_throw none e w = (thrown e, w)
  or_throw (some a) e w = (ok a, w)

  -- All or nothing: a throw restores what was there before.
  abbrev pub atomic : {A : Type 0} → Settled E A × W → W → Settled E A × W
  atomic (ok a, w') w = (ok a, w')
  atomic (thrown e, w') w = (thrown e, w)

module _ {E W A B : Type 0} where
  -- A bind after a call whose outcome is known.
  pub >>=-eq_of_ok :
      (m : Call E W A) (f : A → Call E W B) {a : A} {w w' : W}
      → m w ≡ (ok a, w')
      → (m >>= f) w ≡ f a w'
  >>=-eq_of_ok m f h =
      ap
        (λ p. elim p.0 [
          | ok a ↦ f a p.1
          | thrown e ↦ let r : Settled E B × W = (thrown e, p.1) in r
        ])
        h

  pub >>=-eq_of_thrown :
      (m : Call E W A) (f : A → Call E W B) {e : E} {w w' : W}
      → m w ≡ (thrown e, w')
      → (m >>= f) w ≡ (thrown e, w')
  >>=-eq_of_thrown m f h =
      ap
        (λ p. elim p.0 [
          | ok a ↦ f a p.1
          | thrown e ↦ let r : Settled E B × W = (thrown e, p.1) in r
        ])
        h

-- An outcome by its result.
pub pair_of_result : {X W : Type 0} (p : X × W) {x : X} → p.0 ≡ x → p ≡ (x, p.1)
pair_of_result p h = λ i. (h i, p.1)

module _ {E W A B : Type 0} where
  -- What a chain that comes through has gone through.
  pub >>=-inv :
      (m : Call E W A) (f : A → Call E W B) {b : B} {w v : W}
      → (m >>= f) w ≡ (ok b, v)
      → (a : A) × (u : W) × (m w ≡ (ok a, u)) × (f a u ≡ (ok b, v))
  >>=-inv m f {b} {w} {v} h = go (m w) refl h
    where
      go :
          (r : Settled E A × W)
          → m w ≡ r
          → (◌>>=◌ (λ _. r) f) w ≡ (ok b, v)
          → (a : A) × (u : W) × (m w ≡ (ok a, u)) × (f a u ≡ (ok b, v))
      go (ok a, u) same k = (a, u, same, k)
      go (thrown e, u) same k = cc k

module _ {E W : Type 0} where
  pub throw_if-inv :
      (test : Bool) (e : E) {x : Unit {0}} {w u : W}
      → throw_if test e w ≡ (ok x, u)
      → (test ≡ false) × (u ≡ w)
  throw_if-inv false e h = (refl, cc h)
  throw_if-inv true e h = cc h

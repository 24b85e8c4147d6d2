-- ===== src/Common/Lists.antt =====
-- Lists with the native numbers, searches with Boolean tests, and association lists.
use Prim.Native.Nat.{ℕ, suc}
use Prim.Native.String.{String}
use mathlib.Core.Path.{◌≡◌, refl}
use mathlib.Core.Bool.{Bool, true, false, not, ◌&&◌, ◌||◌}
use mathlib.Core.Option.{Option, none, some}
use mathlib.Core.List.{List, [], ◌∷◌}
use native.Mathlib.Omega.{arith}
use minikura.Common.Tests.{◌==◌, eq_iff, if◌then◌else◌}

module _ {ℓ} {A : Type ℓ} where
  abbrev pub length : List A → ℕ
  length [] = 0
  length (x ∷ xs) = suc (length xs)

  abbrev pub filter : (A → Bool) → List A → List A
  filter p [] = []
  filter p (x ∷ xs) = if p x then x ∷ filter p xs else filter p xs

  abbrev pub all : (A → Bool) → List A → Bool
  all p [] = true
  all p (x ∷ xs) = p x && all p xs

-- What holds of every element.
abbrev pub All {ℓ κ} : {Element : Type ℓ} → (Element → Type κ) → List Element → Type κ
All Holds [] = Unit
All Holds (first ∷ others) = Holds first × All Holds others

-- `xs.includes(x)` and the test of a set of texts.
abbrev pub contains : String → List String → Bool
contains x [] = false
contains x (y ∷ ys) = y == x || contains x ys

-- No text stands twice.
abbrev pub distinct_texts : List String → Bool
distinct_texts [] = true
distinct_texts (x ∷ xs) = not (contains x xs) && distinct_texts xs

-- `[...new Set(xs)]`: each text where it first stands.
abbrev pub unique_from : List String → List String → List String
unique_from seen [] = []
unique_from seen (x ∷ xs) =
    let fresh = unique_from (x ∷ seen) xs in
    if contains x seen then unique_from seen xs else x ∷ fresh

abbrev pub unique : List String → List String
unique xs = unique_from [] xs

-- A map with texts for keys, in the order of insertion.
module _ {ℓ} {Value : Type ℓ} where
  abbrev pub lookup : String → List (String × Value) → Option Value
  lookup wanted [] = none
  lookup wanted (entry ∷ entries) =
      if entry.0 == wanted then some entry.1 else lookup wanted entries

  -- `map.set(key, value)`: a key that is there keeps its place.
  abbrev pub insert : String → Value → List (String × Value) → List (String × Value)
  insert key value [] = (key, value) ∷ []
  insert key value (entry ∷ entries) =
      if entry.0 == key then (entry.0, value) ∷ entries else entry ∷ insert key value entries

  pub lookup-insert :
      (key wanted : String) (value : Value) (entries : List (String × Value))
      → lookup wanted (insert key value entries)
        ≡ (if key == wanted then some value else lookup wanted entries)
  lookup-insert key wanted value [] = refl
  lookup-insert key wanted value (entry ∷ entries) = ground (
    arith,
    eq_iff key wanted,
    eq_iff entry.0 key,
    eq_iff entry.0 wanted,
    lookup-insert key wanted value entries,
  )

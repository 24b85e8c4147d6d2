-- ===== src/Common/Unique.antt =====
-- What a list keeps when each of its texts is kept once, and counts of what a test picks.
use Prim.Native.Nat.{◌≤◌}
use Prim.Native.String.{String}
use mathlib.Core.Path.{◌≡◌, refl, ◌∙◌}
use mathlib.Core.Bool.{Bool, true, not, ◌&&◌}
use mathlib.Core.List.{List, [], ◌∷◌}
use native.Mathlib.Omega.{arith}
use minikura.Common.Tests.{eq_iff, leb}
use minikura.Common.Lists.{length, filter, all, contains, unique, unique_from, distinct_texts}

contains-unique_from :
    (y : String) (seen xs : List String)
    → contains y (unique_from seen xs) ≡ (contains y xs && not (contains y seen))
contains-unique_from y seen [] = refl
contains-unique_from y seen (x ∷ xs) =
    ground (arith, eq_iff x y, contains-unique_from y seen xs, contains-unique_from y (x ∷ seen) xs)

pub contains-unique : (y : String) (xs : List String) → contains y (unique xs) ≡ contains y xs
contains-unique y xs = contains-unique_from y [] xs ∙ ground arith

distinct-unique_from : (seen xs : List String) → distinct_texts (unique_from seen xs) ≡ true
distinct-unique_from seen [] = refl
distinct-unique_from seen (x ∷ xs) = ground (
  arith,
  eq_iff x x,
  distinct-unique_from seen xs,
  distinct-unique_from (x ∷ seen) xs,
  contains-unique_from x (x ∷ seen) xs,
)

pub distinct-unique : (xs : List String) → distinct_texts (unique xs) ≡ true
distinct-unique xs = distinct-unique_from [] xs

module _ (p : String → Bool) where
  all-contains :
      (x : String) (xs : List String) → all p xs ≡ true → contains x xs ≡ true → p x ≡ true
  all-contains x [] h k = ground arith
  all-contains x (y ∷ ys) h k = ground (arith, eq_iff y x, all-contains x ys)

  all-unique_from :
      (seen xs : List String) → all p seen ≡ true → all p (unique_from seen xs) ≡ all p xs
  all-unique_from seen [] h = refl
  all-unique_from seen (x ∷ xs) h =
      ground
        (arith, all-contains x seen h, all-unique_from seen xs h, all-unique_from (x ∷ seen) xs)

  pub all-unique : (xs : List String) → all p (unique xs) ≡ all p xs
  all-unique xs = all-unique_from [] xs refl

  filter_bound : (xs : List String) → length (filter p xs) ≤ length xs
  filter_bound [] = omega arith
  filter_bound (x ∷ xs) = let rest = filter_bound xs in ground arith

  -- Two lengths agree exactly when the test picks all.
  pub length-filter-all :
      (xs : List String)
      → (leb (length (filter p xs)) (length xs) && leb (length xs) (length (filter p xs)))
        ≡ all p xs
  length-filter-all [] = refl
  length-filter-all (x ∷ xs) =
      let rest = filter_bound xs in let later = length-filter-all xs in ground arith

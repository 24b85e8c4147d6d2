-- ===== src/Web/Topology/Known.antt =====
-- Lists of ids and of known backends (apps/web/lib/topology-utils.ts).
use minikura.Common.{
  String, Bool, true, ◌||◌, Option, none, some, List, [], ◌∷◌, ◌++◌, map, ◌==◌, ◌≡◌, ◌∙◌, refl, ap,
  ◌+++◌, All, filter, contains, lookup, insert, arith, eq_iff, lookup-insert, Bool-cases, inl, inr,
}
use minikura.Web.Topology.Data.{Table}
use minikura.Web.Topology.Graph.{get, known_backends, servers_of_proxies}

pub contains-append :
    (x : String) (xs ys : List String) → contains x (xs ++ ys) ≡ (contains x xs || contains x ys)
contains-append x [] ys = refl
contains-append x (y ∷ xs) ys = ground (arith, contains-append x xs ys)

pub append-All :
    {A : Type 0} (P : A → Type 0) (xs ys : List A) → All P xs → All P ys → All P (xs ++ ys)
append-All P [] ys h k = k
append-All P (x ∷ xs) ys (h, hs) k = (h, append-All P xs ys hs k)

-- What stands in a list of names stands with a prefix in that of the prefixed ones.
pub contains-prefixed :
    {A N : Type 0} (prefix : String) (f : A → String) (id : N → String) (g : A → N)
    → ((x : A) → id (g x) ≡ prefix +++ f x)
    → (i : String) (xs : List A) → contains i (map f xs) ≡ true
    → contains (prefix +++ i) (map id (map g xs)) ≡ true
contains-prefixed prefix f id g e i [] h = cc h
contains-prefixed prefix f id g e i (x ∷ xs) h = elim (Bool-cases (f x == i)) [
  | inl same ↦
      let this : id (g x) ≡ prefix +++ i = e x ∙ ap (λ y. prefix +++ y) ((eq_iff (f x) i).0 same) in
      let hit = (eq_iff (id (g x)) (prefix +++ i)).1 this in rw hit refl
  | inr other ↦
      let rest : contains i (map f xs) ≡ true = ground arith in
      let later = contains-prefixed prefix f id g e i xs rest in ground arith
]

pub map-append :
    {A B : Type 0} (f : A → B) (xs ys : List A) → map f (xs ++ ys) ≡ map f xs ++ map f ys
map-append f [] ys = refl
map-append f (x ∷ xs) ys = ap (λ zs. f x ∷ zs) (map-append f xs ys)

pub or_middle : (a b c : Bool) → b ≡ true → (a || (b || c)) ≡ true
or_middle a b c h = ground arith

pub or_last : (a b c : Bool) → c ≡ true → (a || (b || c)) ≡ true
or_last a b c h = ground arith

-- The backends of a proxy that are known.
pub filter-known :
    (known ids : List String)
    → All (λ i. contains i known ≡ true) (filter (λ i. contains i known) ids)
filter-known known [] = tt
filter-known known (id ∷ ids) = elim (Bool-cases (contains id known)) [
  | inl h ↦ rw h (h, filter-known known ids)
  | inr h ↦ rw h (filter-known known ids)
]

pub known-All :
    (known : List String) (backends : Option (List String))
    → All (λ i. contains i known ≡ true) (known_backends known backends)
known-All known none = tt
known-All known (some ids) = filter-known known ids

-- Of every table whose entries are known ids.
abbrev pub IsKnown : List String → Table (List String) → Type 0
IsKnown known table = (key : String) → All (λ i. contains i known ≡ true) (get key table)

pub insert-IsKnown :
    (known : List String) (id : String) (ids : List String) (table : Table (List String))
    → All (λ i. contains i known ≡ true) ids
    → IsKnown known table
    → IsKnown known (insert id ids table)
insert-IsKnown known id ids table h k key =
    rw (lookup-insert id key ids table)
      (elim (Bool-cases (id == key)) [ inl e ↦ rw e h | inr e ↦ rw e (k key) ])

pub servers_of_proxies-IsKnown :
    (known : List String) (backends : Table (List String)) (ids : List String)
    (table : Table (List String))
    → IsKnown known table
    → IsKnown known (servers_of_proxies known backends ids table)
unfolding servers_of_proxies
servers_of_proxies-IsKnown known backends [] table k = k
servers_of_proxies-IsKnown known backends (id ∷ ids) table k =
    servers_of_proxies-IsKnown known backends ids
      (insert id (known_backends known (lookup id backends)) table)
      (insert-IsKnown known id (known_backends known (lookup id backends)) table
        (known-All known (lookup id backends)) k)

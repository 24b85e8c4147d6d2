-- ===== src/Users/Memory.antt =====
-- A table of users in memory, which shows that the laws asked of the database client can hold.
use minikura.Common.{
  ℕ, ◌+◌, String, Bool, true, false, not, ◌&&◌, Option, none, some, List, [], ◌∷◌, ◌==◌, ◌≡◌, ◌≢◌,
  refl, Settled, ok, thrown, atomic, if◌then◌else◌, arith, eq_iff, eq_refl, Bool-cases, inl, inr,
}
use minikura.Domain.Errors.{Thrown}
use minikura.Users.Account.{User}
use minikura.Users.Store.{UserStore, IsUserStore}

abbrev find : String → List User → Option User
find i [] = none
find i (u ∷ t) = if u.id == i then some u else find i t

-- A row that an earlier one hides is no row of the table.
abbrev count : (User → Bool) → List User → ℕ
count p [] = 0
count p (u ∷ t) = (if p u then 1 else 0) + count (λ v. not (v.id == u.id) && p v) t

abbrev replace : String → (User → User) → List User → List User
replace i f [] = []
replace i f (u ∷ t) = if u.id == i then f u ∷ t else u ∷ replace i f t

abbrev remove : String → List User → List User
remove i [] = []
remove i (u ∷ t) = if u.id == i then remove i t else u ∷ remove i t

abbrev no_record : Thrown
no_record = Thrown.error "PrismaClientKnownRequestError" "Record to update not found"

abbrev answer : Option User → List User → List User → Settled Thrown User × List User
answer none t t' = (thrown no_record, t)
answer (some u) t t' = (ok u, t')

abbrev pub memory : UserStore
memory = record {
  State = List User;
  find_unique = find;
  find_many = λ t. t;
  count = count;
  update = λ i f t. answer (find i (replace i f t)) t (replace i f t);
  delete = λ i t. answer (find i t) t (remove i t);
  transaction = λ A m t. atomic (m t) t;
}

found_id : (i : String) (t : List User) (u : User) → find i t ≡ some u → u.id ≡ i
found_id i [] u e = cc
found_id i (v ∷ t) u e = ground (arith, eq_iff v.id i, found_id i t u)

count_zero :
    (p : User → Bool) (t : List User) (i : String) (u : User)
    → count p t ≡ 0
    → find i t ≡ some u
    → p u ≡ false
count_zero p [] i u z e = cc
count_zero p (v ∷ t) i u z e = ground (
  arith,
  eq_iff v.id i,
  eq_iff u.id v.id,
  found_id i t u,
  count_zero (λ w. not (w.id == v.id) && p w) t i u,
)

count_pos :
    (p : User → Bool) (t : List User)
    → count p t ≢ 0
    → (u : User) × (find u.id t ≡ some u) × (p u ≡ true)
count_pos p [] n = absurd (n refl)
count_pos p (v ∷ t) n = elim (Bool-cases (p v)) [
  | inl h ↦ (v, rw (eq_refl v.id), h)
  | inr h ↦
      let (u, found, passed) =
        count_pos (λ w. not (w.id == v.id) && p w) t (λ z. n (rw (h, z) (omega arith))) in
      (u, ground (arith, eq_iff u.id v.id, eq_iff v.id u.id), ground arith)
]

find-replace :
    (i : String) (f : User → User) (t : List User) (u : User)
    → find i t ≡ some u
    → (f u).id ≡ u.id
    → (j : String) → find j (replace i f t) ≡ (if i == j then some (f u) else find j t)
find-replace i f [] u e same j = cc
find-replace i f (v ∷ t) u e same j = elim (Bool-cases (v.id == i)) [
  | inl here ↦ ground (arith, eq_iff v.id i, eq_iff i j, eq_iff v.id j, eq_iff (f v).id j)
  | inr there ↦ rw there (
      ground (
        arith,
        eq_iff v.id i,
        eq_iff i j,
        eq_iff v.id j,
        find-replace i f t u (ground arith) same j,
      ))
]

find-remove :
    (i : String) (t : List User) (j : String)
    → find j (remove i t) ≡ (if i == j then none else find j t)
find-remove i [] j = ground arith
find-remove i (v ∷ t) j =
    ground (arith, eq_iff v.id i, eq_iff i j, eq_iff v.id j, find-remove i t j)

pub memory-IsUserStore : IsUserStore memory
memory-IsUserStore = record {
  found_id = found_id;
  count_zero = count_zero;
  count_pos = count_pos;
  update_found = λ i f t u e same.
      let after = find-replace i f t u e same in
      let there : find i (replace i f t) ≡ some (f u) = rw (after i) (rw (eq_refl i)) in
      rw there (refl, after);
  delete_found = λ i t u e. rw e (refl, find-remove i t);
  transaction_atomic = λ A m t. refl;
}

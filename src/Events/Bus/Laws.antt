-- ===== src/Events/Bus/Laws.antt =====
-- Who is subscribed, and who is called.
use minikura.Common.{
  String, Bool, true, false, ◌&&◌, List, [], ◌∷◌, ◌++◌, ◌==◌, ◌≡◌, refl, if◌then◌else◌, contains,
  lookup, lookup-insert, arith, eq_iff, Option-cases, inl, inr, ap, ◌∙◌,
}
use minikura.Events.Bus.{Handlers, add, discard, handlers_of, subscribe, unsubscribe}

pub data Change : Type 0 where
  subscribed unsubscribed : String → String → Change

abbrev pub apply : Change → Handlers → Handlers
apply (subscribed name h) = subscribe name h
apply (unsubscribed name h) = unsubscribe name h

-- The changes in the order in which they come.
abbrev pub apply_all : List Change → Handlers → Handlers
apply_all [] bus = bus
apply_all (c ∷ cs) bus = apply_all cs (apply c bus)

-- What the last change of this handler for this event says.
abbrev pub concerns : String → String → String → String → Bool
concerns name h name' h' = name' == name && h' == h

abbrev pub stands : String → String → List Change → Bool → Bool
stands name h [] before = before
stands name h (subscribed n k ∷ cs) before =
    stands name h cs (if concerns name h n k then true else before)
stands name h (unsubscribed n k ∷ cs) before =
    stands name h cs (if concerns name h n k then false else before)

contains-append :
    (x y : String) (l : List String)
    → contains x (l ++ y ∷ []) ≡ (if y == x then true else contains x l)
contains-append x y [] = ground arith
contains-append x y (z ∷ l) = ground (arith, contains-append x y l)

pub contains-add :
    (x y : String) (l : List String)
    → contains x (add y l) ≡ (if y == x then true else contains x l)
contains-add x y l = ground (arith, eq_iff y x, contains-append x y l)

pub contains-discard :
    (x y : String) (l : List String)
    → contains x (discard y l) ≡ (if y == x then false else contains x l)
contains-discard x y [] = ground arith
contains-discard x y (z ∷ l) =
    ground (arith, eq_iff z x, eq_iff z y, eq_iff y x, contains-discard x y l)

handlers_of-subscribe :
    (name h n k : String) (bus : Handlers)
    → contains h (handlers_of name (subscribe n k bus))
      ≡ (if concerns name h n k then true else contains h (handlers_of name bus))
unfolding subscribe
handlers_of-subscribe name h n k bus = ground (
  arith,
  lookup-insert n name (add k (handlers_of n bus)) bus,
  contains-add h k (handlers_of n bus),
  eq_iff n name,
)

handlers_of-unsubscribe :
    (name h n k : String) (bus : Handlers)
    → contains h (handlers_of name (unsubscribe n k bus))
      ≡ (if concerns name h n k then false else contains h (handlers_of name bus))
unfolding unsubscribe
handlers_of-unsubscribe name h n k bus = elim (Option-cases (lookup n bus)) [
  | inl e ↦ ground (arith, eq_iff n name)
  | inr (hs, e) ↦
      ground
        (arith, lookup-insert n name (discard k hs) bus, contains-discard h k hs, eq_iff n name)
]

-- After any sequence of subscriptions and their cancellations, a handler is called for an event
-- exactly if the last change about the two was its subscription.
pub apply_all-stands :
    (name h : String) (cs : List Change) (bus : Handlers)
    → contains h (handlers_of name (apply_all cs bus))
      ≡ stands name h cs (contains h (handlers_of name bus))
apply_all-stands name h [] bus = refl
apply_all-stands name h (subscribed n k ∷ cs) bus =
    apply_all-stands name h cs (subscribe n k bus)
    ∙ ap (stands name h cs) (handlers_of-subscribe name h n k bus)
apply_all-stands name h (unsubscribed n k ∷ cs) bus =
    apply_all-stands name h cs (unsubscribe n k bus)
    ∙ ap (stands name h cs) (handlers_of-unsubscribe name h n k bus)

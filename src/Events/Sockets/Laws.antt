-- ===== src/Events/Sockets/Laws.antt =====
-- What a broadcast does to the clients, and what they receive.
use minikura.Common.{
  ℕ, String, Bool, true, false, not, List, [], ◌∷◌, ◌++◌, ◌≡◌, refl, map, filter, contains,
  if◌then◌else◌, arith, ◌&&◌, Bool-cases, inl, inr, eq_iff, ap, ◌∙◌, append_assoc, append-nil, sym,
}
use minikura.Events.Bus.{discard}
use minikura.Events.Bus.Laws.{contains-discard}
use minikura.Events.Sockets.{Message, Sockets, broadcast, for_each, tell}

both : (a b : Bool) → (a && not (b && a)) ≡ (a && not b)
both true true = refl
both true false = refl
both false b = refl

module _ (fails : String → Bool) where
  -- The clients of `l` without the failing ones among `cs`.
  abbrev without : List String → List String → List String
  without [] l = l
  without (c ∷ cs) l = without cs (if fails c then discard c l else l)

  abbrev pub reached : List String → List String
  reached = filter (λ c. not (fails c))

  tell-clients :
      (m : Message) (c : String) (s : Sockets)
      → (tell fails m c s).clients ≡ (if fails c then discard c s.clients else s.clients)
  unfolding tell
  tell-clients m c s = elim (Bool-cases (fails c)) [ inl h ↦ rw h refl | inr h ↦ rw h refl ]

  tell-sent :
      (m : Message) (c : String) (cs : List String) (s : Sockets)
      → (tell fails m c s).sent ++ map (λ k. (k, m)) (reached cs)
        ≡ s.sent ++ map (λ k. (k, m)) (reached (c ∷ cs))
  unfolding tell
  tell-sent m c cs s = elim (Bool-cases (fails c)) [
    | inl h ↦ rw h refl
    | inr h ↦ rw h (append_assoc s.sent ((c, m) ∷ []) (map (λ k. (k, m)) (reached cs)))
  ]

  for_each-clients :
      (m : Message) (cs : List String) (s : Sockets)
      → (for_each fails m cs s).clients ≡ without cs s.clients
  unfolding for_each
  for_each-clients m [] s = refl
  for_each-clients m (c ∷ cs) s =
      for_each-clients m cs (tell fails m c s) ∙ ap (without cs) (tell-clients m c s)

  for_each-sent :
      (m : Message) (cs : List String) (s : Sockets)
      → (for_each fails m cs s).sent ≡ s.sent ++ map (λ c. (c, m)) (reached cs)
  unfolding for_each
  for_each-sent m [] s = sym (append-nil s.sent)
  for_each-sent m (c ∷ cs) s = for_each-sent m cs (tell fails m c s) ∙ tell-sent m c cs s

  contains-without :
      (x : String) (cs l : List String)
      → contains x (without cs l) ≡ (contains x l && not (fails x && contains x cs))
  contains-without x [] l = ground arith
  contains-without x (c ∷ cs) l = ground (
    arith,
    contains-without x cs l,
    contains-without x cs (discard c l),
    contains-discard x c l,
    eq_iff c x,
  )

  -- A broadcast reaches each client once, in order, except for those whose send fails; these, and
  -- no others, are clients no longer.
  pub broadcast_reaches :
      (now : ℕ) (action server_type server_id : String) (s : Sockets)
      → let s' = broadcast fails now action server_type server_id s in
        let m : Message = record {
          action = action;
          server_type = server_type;
          server_id = server_id;
          timestamp = now;
        } in
        (s'.sent ≡ s.sent ++ map (λ c. (c, m)) (reached s.clients))
        × ((c : String) → contains c s'.clients ≡ (contains c s.clients && not (fails c)))
  unfolding broadcast
  broadcast_reaches now action server_type server_id s =
      let m : Message = record {
        action = action;
        server_type = server_type;
        server_id = server_id;
        timestamp = now;
      } in
      (
        for_each-sent m s.clients s,
        λ c.
            ap (contains c) (for_each-clients m s.clients s)
            ∙ contains-without c s.clients s.clients
            ∙ both (contains c s.clients) (fails c),
      )

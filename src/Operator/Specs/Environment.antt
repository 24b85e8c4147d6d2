-- ===== src/Operator/Specs/Environment.antt =====
-- The environment that a server's resource gets.
use Prim.Native.String.{count}
use text.Mathlib.TextLemmas.{length-append, append-nil}
use minikura.Common.{
  false, not, filter, Bool, ◌+++◌, sym, String, true, Option, none, some, List, [], ◌∷◌, ◌==◌, ◌≡◌,
  ◌∙◌, refl, ap, lookup, insert, lookup-insert, or_option, if◌then◌else◌, arith, eq_iff, Bool-cases,
  inl, inr,
}
use minikura.Servers.Entities.{EnvVariable}
use minikura.Servers.Store.{distinct}
use minikura.Operator.Specs.{
  Settings, SyncedServer, artifact_url, without_slash, insert_all, with_plugins, enabled_urls,
  filled, join, server_environment,
}

lookup-insert_all :
    (k : String) (vs m : List EnvVariable)
    → distinct vs ≡ true
    → lookup k (insert_all vs m) ≡ or_option (lookup k vs) (lookup k m)
unfolding insert_all
lookup-insert_all k [] m once = refl
lookup-insert_all k ((j, v) ∷ vs) m once =
    ground (arith, lookup-insert_all k vs (insert j v m), lookup-insert j k v m, eq_iff j k)

or-none : {A : Type 0} (o : Option A) → or_option o none ≡ o
or-none none = refl
or-none (some a) = refl

-- The addresses of the plugins that are enabled, in order.
abbrev pub addresses : String → List (Bool × String) → List String
addresses base [] = []
addresses base ((false, token) ∷ plugins) = addresses base plugins
addresses base ((true, token) ∷ plugins) = artifact_url base token ∷ addresses base plugins

-- Each text after a comma.
abbrev pub after_commas : List String → String
after_commas [] = ""
after_commas (u ∷ us) = "," +++ (u +++ after_commas us)

-- The old value, where there is one that is not empty, and the addresses.
abbrev pub listed : Option String → String → List String → String
listed none u us = u +++ after_commas us
listed (some old) u us = if old == "" then u +++ after_commas us else old +++ after_commas (u ∷ us)

-- The value of a variable with the addresses put in.
abbrev pub with_urls : List String → String → Option String → Option String
with_urls [] k old = old
with_urls (u ∷ us) k old = if "PLUGINS" == k then some (listed old u us) else old

-- No address is empty.
artifact_url-filled : (base token : String) → (artifact_url base token == "") ≡ false
unfolding artifact_url
artifact_url-filled base token = elim (Bool-cases (artifact_url base token == "")) [
  | inr h ↦ h
  | inl h ↦
      let empty : artifact_url base token ≡ "" = (eq_iff (artifact_url base token) "").0 h in
      let long =
        length-append (without_slash base) ("/registry/artifacts/" +++ token +++ "/download") in
      let rest = length-append "/registry/artifacts/" (token +++ "/download") in
      let none_left : count (artifact_url base token) ≡ 0 = ap count empty in absurd (omega arith)
]

join-after_commas : (u : String) (us : List String) → join (u ∷ us) ≡ u +++ after_commas us
join-after_commas u [] = sym (append-nil u)
join-after_commas u (v ∷ us) = ap (λ x. u +++ "," +++ x) (join-after_commas v us)

module _ (base : String) where
  enabled_urls-addresses :
      (plugins : List (Bool × String)) → enabled_urls base plugins ≡ addresses base plugins
  enabled_urls-addresses [] = refl
  enabled_urls-addresses ((false, token) ∷ plugins) = enabled_urls-addresses plugins
  enabled_urls-addresses ((true, token) ∷ plugins) =
      ap (λ us. artifact_url base token ∷ us) (enabled_urls-addresses plugins)

  addresses-filled :
      (plugins : List (Bool × String))
      → filter (λ u. not (u == "")) (addresses base plugins) ≡ addresses base plugins
  addresses-filled [] = refl
  addresses-filled ((false, token) ∷ plugins) = addresses-filled plugins
  addresses-filled ((true, token) ∷ plugins) =
      rw (artifact_url-filled base token, addresses-filled plugins) refl

joined-listed :
    (old : Option String) (u : String) (us : List String)
    → filter (λ x. not (x == "")) (u ∷ us) ≡ u ∷ us
    → join (filled old (u ∷ us)) ≡ listed old u us
joined-listed none u us full = ap join full ∙ join-after_commas u us
joined-listed (some old) u us full = elim (Bool-cases (old == "")) [
  | inl h ↦ rw h (ap join full ∙ join-after_commas u us)
  | inr h ↦ rw h (ap (λ xs. join (old ∷ xs)) full ∙ join-after_commas old (u ∷ us))
]

lookup-with_plugins :
    (urls : List String) (k : String) (m : List EnvVariable)
    → filter (λ u. not (u == "")) urls ≡ urls
    → lookup k (with_plugins urls m) ≡ with_urls urls k (lookup k m)
lookup-with_plugins [] k m full = refl
lookup-with_plugins (u ∷ us) k m full =
    let joined : String → String = λ x. join (filled (lookup x m) (u ∷ us)) in
    lookup-insert "PLUGINS" k (joined "PLUGINS") m ∙ elim (Bool-cases ("PLUGINS" == k)) [
      | inl h ↦ rw h (
          ap (λ x. some (joined x)) ((eq_iff "PLUGINS" k).0 h)
          ∙ ap some (joined-listed (lookup k m) u us full))
      | inr h ↦ rw h refl
    ]

-- The environment of a server has each of its variables, none of them given twice, with its value.
-- Only the variable PLUGINS is another, if some plugin is enabled: its value, where it has one
-- that is not empty, and the download addresses of the plugins that are enabled, and of no others,
-- in order, with commas between them.
pub lookup-server_environment :
    (settings : Settings) (s : SyncedServer) (k : String)
    → distinct s.server.env_variables ≡ true
    → lookup k (server_environment settings s)
      ≡ with_urls
          (addresses settings.download_base_url s.plugins)
          k
          (lookup k s.server.env_variables)
unfolding server_environment
lookup-server_environment settings s k once =
    let urls = addresses settings.download_base_url s.plugins in
    ap (λ us. lookup k (with_plugins us (insert_all s.server.env_variables [])))
      (enabled_urls-addresses settings.download_base_url s.plugins)
    ∙ lookup-with_plugins urls k (insert_all s.server.env_variables [])
        (addresses-filled settings.download_base_url s.plugins)
    ∙ ap (with_urls urls k) (
        lookup-insert_all k s.server.env_variables [] once
        ∙ or-none (lookup k s.server.env_variables))

-- ===== src/Plugins/Registry.antt =====
-- The registry's calls on the tables (apps/backend/src/services/plugin-registry.ts): registering,
-- installing, listing and removing plugins. An array of calls in a transaction runs in order, all
-- or nothing.
pub mod Installing
pub mod Deployment
use minikura.Common.{
  true, ℕ, String, Bool, not, ◌&&◌, Option, none, some, List, [], ◌∷◌, map, leb, ltb, ◌==◌, Settled,
  thrown, Call, ◌>>=◌, ◌>>◌, pure, gets, throw_if, or_throw, atomic, contains, length, unique,
}
use minikura.Domain.Errors.{DomainError, Thrown, Action}
use minikura.Plugins.Entities.{Provider, same_provider, PluginArtifact, ServerPlugin}
use minikura.Plugins.Store.{Where, PluginStore}

abbrev pub not_found : String → Option String → Thrown
not_found resource id = Thrown.domain (DomainError.not_found resource id)

abbrev pub invalid : String → Thrown
invalid text = Thrown.domain (DomainError.validation text)

-- `a !== b` on lengths.
abbrev pub differ : ℕ → ℕ → Bool
differ a b = not (leb a b && leb b a)

module _ {S : Type 0} where
  abbrev pub run_all : List (Action S (Unit {0})) → Action S (Unit {0})
  run_all [] = pure tt
  run_all (call ∷ calls) = call >> run_all calls

  unfoldable pub transaction : List (Action S (Unit {0})) → Action S (Unit {0})
  transaction calls t = atomic (run_all calls t) t

  -- A call whose value is not looked at.
  abbrev pub silently : {A : Type 0} → Action S A → Action S (Unit {0})
  silently call = call >>= λ _. pure tt

-- The other versions of an artifact's plugin on a server.
abbrev pub other_versions : String → PluginArtifact → Where
other_versions server_id artifact x r =
    x.server_id == server_id
    && (same_provider r.provider artifact.provider
        && r.provider_project_id == artifact.provider_project_id
        && not (r.id == artifact.id))

-- The plugins of a server that are not asked for.
abbrev pub not_in : String → List String → Where
not_in server_id ids x _ = x.server_id == server_id && not (contains x.artifact_id ids)

abbrev pub of_artifact : String → Where
of_artifact artifact_id x _ = x.artifact_id == artifact_id

abbrev pub of_installation : String → String → Where
of_installation server_id installation_id x _ = x.id == installation_id && x.server_id == server_id

module _ (s : PluginStore) where
  -- The installation of an artifact, enabled from then on.
  abbrev pub enable : String → String → Action s.State (Unit {0})
  enable server_id artifact_id =
      s.upsert_plugin server_id artifact_id true
        (record { server_id = server_id; artifact_id = artifact_id })

  abbrev pub install : String → PluginArtifact → Action s.State (Unit {0})
  install server_id artifact = transaction (
      silently (s.delete_plugins (other_versions server_id artifact))
      ∷ enable server_id artifact.id
      ∷ [])

  unfoldable pub deploy : String → String → Action s.State PluginArtifact
  unfolding transaction
  deploy server_id artifact_id = do
    exists ← gets (s.server_exists server_id)
    found ← gets (s.artifact artifact_id)
    throw_if (not exists) (not_found "Server" (some server_id))
    artifact ← or_throw found (not_found "Plugin artifact" (some artifact_id))
    install server_id artifact
    pure artifact

  abbrev pub replace_plugins : String → List String → Action s.State (Unit {0})
  replace_plugins server_id ids =
      transaction (silently (s.delete_plugins (not_in server_id ids)) ∷ map (enable server_id) ids)

  unfoldable pub reconcile : String → List String → Action s.State (Unit {0})
  unfolding transaction
  reconcile server_id artifact_ids = do
    exists ← gets (s.server_exists server_id)
    throw_if (not exists) (not_found "Server" (some server_id))
    artifacts ← gets (s.artifacts_in (unique artifact_ids))
    throw_if (differ (length artifacts) (length (unique artifact_ids)))
        (invalid "One or more plugin artifacts do not exist")
    replace_plugins server_id (unique artifact_ids)

  unfoldable pub remove : String → String → Action s.State (Unit {0})
  remove server_id installation_id = do
    count ← s.delete_plugins (of_installation server_id installation_id)
    throw_if (leb count 0) (not_found "Server plugin" (some installation_id))

  unfoldable pub list : String → Action s.State (List (ServerPlugin × PluginArtifact))
  list server_id = gets (s.plugins_of server_id)

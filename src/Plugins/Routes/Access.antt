-- ===== src/Plugins/Routes/Access.antt =====
-- Who reaches the registry.
use minikura.Common.{
  String, Option, List, ◌≡◌, thrown, pure, ◌>>=◌, ◌>>◌, or_else, >>=-eq_of_thrown,
}
use minikura.Domain.Errors.{Thrown, Action}
use minikura.Users.Guards.{AuthContext, require_admin}
use minikura.Servers.Routes.Admission.{admit}
use minikura.Servers.Routes.Access.{admit-refuses}
use minikura.Plugins.Entities.{Provider, RegistryVersion}
use minikura.Plugins.Artifacts.{File}
use minikura.Plugins.Routes.{
  PluginRegistry, sync_all, get_search, get_versions, get_artifacts, post_artifact, post_upload,
  delete_from_library, get_plugins, put_plugins, post_plugin, post_deployment, delete_installation,
}

module _ {W : Type 0} (registry : PluginRegistry W) (sync : String → Action W (Unit {0}))
    (ctx : AuthContext) (w : W) where
  -- Whom the guard of the administrators' routes refuses, every route of the registry but the
  -- download of a file refuses, with the same answer, and nothing is changed or asked for.
  pub registry_needs_admin :
      (e : Thrown) (id other platform : String) (text version : Option String) (provider : Provider)
      (body : RegistryVersion) (file : File) (ids : List String)
      → require_admin ctx ≡ thrown e
      → (get_search registry sync ctx text platform version w ≡ (thrown e, w))
        × (get_versions registry sync ctx provider id platform version w ≡ (thrown e, w))
        × (get_artifacts registry sync ctx w ≡ (thrown e, w))
        × (post_artifact registry sync ctx body w ≡ (thrown e, w))
        × (post_upload registry sync ctx file w ≡ (thrown e, w))
        × (delete_from_library registry sync ctx id w ≡ (thrown e, w))
        × (get_plugins registry sync ctx id w ≡ (thrown e, w))
        × (put_plugins registry sync ctx id ids w ≡ (thrown e, w))
        × (post_plugin registry sync ctx id body w ≡ (thrown e, w))
        × (post_deployment registry sync ctx id other w ≡ (thrown e, w))
        × (delete_installation registry sync ctx id other w ≡ (thrown e, w))
  unfolding get_search get_versions get_artifacts post_artifact post_upload delete_from_library
      get_plugins put_plugins post_plugin post_deployment delete_installation
  registry_needs_admin e id other platform text version provider body file ids refused =
      let h : admit ctx w ≡ (thrown e, w) = admit-refuses ctx w e refused in
      (
        >>=-eq_of_thrown (admit ctx) (λ _. registry.search (or_else text "") platform version) h,
        >>=-eq_of_thrown (admit ctx) (λ _. registry.versions provider id platform version) h,
        >>=-eq_of_thrown (admit ctx) (λ _. registry.list_artifacts) h,
        >>=-eq_of_thrown (admit ctx) (λ _. registry.register body) h,
        >>=-eq_of_thrown (admit ctx) (λ _. registry.upload file) h,
        >>=-eq_of_thrown (admit ctx) (λ _. registry.delete_artifact id >>= sync_all sync) h,
        >>=-eq_of_thrown (admit ctx) (λ _. registry.list id) h,
        >>=-eq_of_thrown (admit ctx) (λ _. registry.reconcile id ids >> sync id) h,
        >>=-eq_of_thrown (admit ctx)
            (λ _.
              registry.register body >>= λ r. registry.deploy id r.id >>= λ a. sync id >> pure a)
            h,
        >>=-eq_of_thrown (admit ctx) (λ _. registry.deploy id other >>= λ a. sync id >> pure a) h,
        >>=-eq_of_thrown (admit ctx) (λ _. registry.remove id other >> sync id) h,
      )

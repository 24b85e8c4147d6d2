-- ===== src/Servers/Routes/PluginAccess.antt =====
-- What the plugins of reverse proxies are told (apps/backend/src/routes/plugin.ts).
use minikura.Common.{
  String, true, Option, List, [], ◌∷◌, ◌≡◌, refl, ap, map, All, Settled, ok, thrown, settle, ◌>>=◌,
  or_else, ◌+++◌, ◌∙◌, none, some, filled,
}
use minikura.Domain.Errors.{Thrown}
use minikura.Operator.Names.{operator_resource_name}
use minikura.Servers.Entities.{Server}
use minikura.Servers.PluginKeys.{OwnerKind, Owner, require_plugin_kind}
use minikura.Servers.Store.{Store}
use minikura.Servers.Crud
use minikura.Servers.Repository.Rows
use minikura.Servers.Repository.ServerRows
use minikura.Servers.Service.ServerCalls
use minikura.Servers.Service.ServerCalls.{ServerWorld}
use minikura.Servers.Routes.PluginRoutes.{ConnectedServer, connect_all, namespace_of, get_servers}

-- A server without its key and its variables, and the address of its resource.
abbrev pub told : String → Server → ConnectedServer
told namespace r = record {
  server = record { row = record r { api_key = "" }; env_variables = [] };
  connection_address = "minecraft-" +++ r.id +++ "." +++ namespace +++ ".svc.cluster.local";
}

namespace_of-or_else : (given : Option String) → namespace_of given ≡ or_else given "minikura"
namespace_of-or_else none = refl
namespace_of-or_else (some namespace) = refl

connect_all-ok :
    (namespace : String) (rows : List Server)
    → All (λ r. operator_resource_name r.id ≡ ok r.id) rows
    → connect_all namespace
        (map (λ r. record { row = record r { api_key = "" }; env_variables = [] }) rows)
      ≡ ok (map (told namespace) rows)
unfolding connect_all
connect_all-ok namespace [] h = refl
connect_all-ok namespace (r ∷ rows) (h, hs) = rw (h, connect_all-ok namespace rows hs) refl

module _ (server_of proxy_of : String → Option String) (s : Store Server)
    (namespace : Option String) (key : String) (w : ServerWorld s) where
  -- Where all ids are names of resources: whom the guard of the proxies' plugins refuses, is refused
  -- the list of servers with the same answer; whom it admits, is told each server with the address of
  -- its resource, without its key and without its variables. Nothing changes.
  pub get_servers_lem :
      All (λ r. operator_resource_name r.id ≡ ok r.id) (s.find_many w.db)
      → get_servers server_of proxy_of s namespace key w ≡ (
        elim (require_plugin_kind server_of proxy_of OwnerKind.reverse_proxy key) [
          | thrown e ↦ thrown e
          | ok owner ↦ ok (map (told (or_else (filled namespace) "minikura")) (s.find_many w.db))
        ],
        w,
      )
  unfolding get_servers ServerCalls.get_all_servers ServerRows.find_all Rows.find_all Crud.get_all
  get_servers_lem valid = go (require_plugin_kind server_of proxy_of OwnerKind.reverse_proxy key)
    where
      go :
          (guard : Settled Thrown Owner)
          → ◌>>=◌ {A = Owner}
              (settle guard)
              (λ owner. ServerCalls.get_all_servers s true >>= λ servers.
                settle (connect_all (namespace_of (filled namespace)) servers))
              w
            ≡ (
              elim guard [
                | thrown e ↦ thrown e
                | ok owner ↦
                    ok (map (told (or_else (filled namespace) "minikura")) (s.find_many w.db))
              ],
              w,
            )
      go (thrown e) = refl
      go (ok owner) =
          ap (λ r. (r, w))
            (connect_all-ok (namespace_of (filled namespace)) (s.find_many w.db) valid
              ∙ ap (λ n. ok (map (told n) (s.find_many w.db)))
                  (namespace_of-or_else (filled namespace)))

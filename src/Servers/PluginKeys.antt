-- ===== src/Servers/PluginKeys.antt =====
-- Who calls with an API key (apps/backend/src/middleware/api-key.ts) and the guards on such calls
-- (auth-guards.ts beside it). The two tables are asked for the row of a key; what they answer is
-- an argument.
use Prim.Native.String.{String}
use minikura.Common.{
  Bool, true, false, not, Option, none, some, ◌==◌, ◌≡◌, ◌+++◌, Settled, ok, thrown, if◌then◌else◌,
  arith,
}
use minikura.Domain.Errors.{DomainError, Thrown}

pub data OwnerKind : Type 0 where
  server reverse_proxy : OwnerKind

pub record Owner : Type 0 where
  pub kind : OwnerKind
  pub id : String

abbrev pub kind_text : OwnerKind → String
kind_text server = "server"
kind_text reverse_proxy = "reverse-proxy"

abbrev pub same_kind : OwnerKind → OwnerKind → Bool
same_kind server server = true
same_kind reverse_proxy reverse_proxy = true
same_kind _ _ = false

-- The ids that the two tables have for a key.
module _ (server_of proxy_of : String → Option String) where
  abbrev first_owner : Option String → Option String → Option Owner
  first_owner (some id) _ = some (record { kind = server; id = id })
  first_owner none (some id) = some (record { kind = reverse_proxy; id = id })
  first_owner none none = none

  unfoldable pub find_api_key_owner : String → Option Owner
  find_api_key_owner key = if key == "" then none else first_owner (server_of key) (proxy_of key)

  abbrev owner_or_refusal : Option Owner → Settled Thrown Owner
  owner_or_refusal none = thrown (Thrown.domain (DomainError.unauthorized none))
  owner_or_refusal (some o) = ok o

  -- `key` is what the header's bearer token holds, and empty without one.
  unfoldable pub require_plugin_api_key : String → Settled Thrown Owner
  unfolding find_api_key_owner
  require_plugin_api_key key = owner_or_refusal (find_api_key_owner key)

  abbrev of_kind : OwnerKind → Settled Thrown Owner → Settled Thrown Owner
  of_kind kind (thrown e) = thrown e
  of_kind kind (ok o) =
      if not (same_kind o.kind kind)
      then thrown (
          Thrown.domain (
            DomainError.forbidden
              (some ("API key is not authorized for " +++ kind_text kind +++ " resources"))))
      else ok o

  unfoldable pub require_plugin_kind : OwnerKind → String → Settled Thrown Owner
  unfolding require_plugin_api_key
  require_plugin_kind kind key = of_kind kind (require_plugin_api_key key)

  abbrev pub table_of : OwnerKind → String → Option String
  table_of server = server_of
  table_of reverse_proxy = proxy_of

  -- A caller that the guard of a kind admits is of that kind, has a key that is not empty, and is
  -- the row of that kind's table that has the key.
  pub require_plugin_kind_lem :
      (kind : OwnerKind) (key : String) (o : Owner)
      → require_plugin_kind kind key ≡ ok o
      → (o.kind ≡ kind) × ((key == "") ≡ false) × (table_of kind key ≡ some o.id)
  unfolding require_plugin_kind require_plugin_api_key find_api_key_owner
  require_plugin_kind_lem server key o h = ground arith
  require_plugin_kind_lem reverse_proxy key o h = ground arith

-- ===== src/Operator/Names.antt =====
-- The names of resources: the check of an id and the names made from it
-- (apps/backend/src/services/operator-resource-sync.ts), and the schema that a new id has passed
-- (apps/backend/src/schemas/server.schema.ts).
use Prim.Native.Char.{code}
use Prim.Native.String.{String, count}
use minikura.Common.{
  ℕ, Bool, true, false, not, ◌&&◌, ◌||◌, leb, ltb, if◌then◌else◌, ◌+++◌, ◌≡◌, ◌↔◌, Settled, ok,
  thrown, arith,
}
use text.Mathlib.TextLemmas.{length-cons}
use minikura.Domain.Errors.{Thrown}

-- `[a-z0-9]`
unfoldable pub is_alphanumeric : ℕ → Bool
is_alphanumeric c = (leb b'a' c && leb c b'z') || (leb b'0' c && leb c b'9')

-- `[a-z0-9-]`
unfoldable pub is_label_char : ℕ → Bool
unfolding is_alphanumeric
is_label_char c = is_alphanumeric c || (leb b'-' c && leb c b'-')

-- The rest of a label; `may_end` says whether the character before was a letter or a digit.
label_from : Bool → String → Bool
label_from may_end String.[] = may_end
label_from may_end (String.◌∷◌ c s) =
    is_label_char (code c) && label_from (is_alphanumeric (code c)) s

-- `/^[a-z0-9](?:[a-z0-9-]*[a-z0-9])?$/.test(id)`
unfoldable pub is_dns_label : String → Bool
unfolding label_from
is_dns_label String.[] = false
is_dns_label (String.◌∷◌ c s) = is_alphanumeric (code c) && label_from true s

unfoldable pub operator_resource_name : String → Settled Thrown String
unfolding is_dns_label
operator_resource_name id =
    if not (is_dns_label id) || ltb 51 (count id)
    then thrown (Thrown.error "Error" ("Invalid Kubernetes resource ID: " +++ id))
    else ok id

-- `resourceIdSchema`: at least one character, at most 51, and a label.
unfoldable pub resource_id_schema : String → Bool
unfolding is_dns_label
resource_id_schema id = leb 1 (count id) && leb (count id) 51 && is_dns_label id

-- The schema admits exactly the ids that the synchronization takes, and it takes them as they are.
pub resource_id_schema-iff-operator_resource_name :
    (id : String) → (resource_id_schema id ≡ true) ↔ (operator_resource_name id ≡ ok id)
unfolding resource_id_schema operator_resource_name
resource_id_schema-iff-operator_resource_name String.[] = ground arith
resource_id_schema-iff-operator_resource_name (String.◌∷◌ c s) = ground (arith, length-cons c s)

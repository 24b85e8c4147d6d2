-- ===== src/Operator/Tests.antt =====
-- The names of resources at concrete ids.
use minikura.Common.{true, false, ◌≡◌, ◌↔◌, refl, ok}
use minikura.Operator.Names.{
  is_alphanumeric, is_label_char, is_dns_label, operator_resource_name, resource_id_schema,
  resource_id_schema-iff-operator_resource_name,
}

inner_dash : is_dns_label "mc-lobby-2" ≡ true
unfolding is_dns_label is_alphanumeric is_label_char
inner_dash = refl

last_dash : is_dns_label "lobby-" ≡ false
unfolding is_dns_label is_alphanumeric is_label_char
last_dash = refl

resource_id_schema-iff-operator_resource_name_example :
    (resource_id_schema "lobby" ≡ true) ↔ (operator_resource_name "lobby" ≡ ok "lobby")
resource_id_schema-iff-operator_resource_name_example =
    resource_id_schema-iff-operator_resource_name "lobby"

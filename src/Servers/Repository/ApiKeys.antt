-- ===== src/Servers/Repository/ApiKeys.antt =====
-- The keys that the repositories generate (apps/backend/src/infrastructure/api-key-generator.ts).
-- The base64 text of a random identifier is the argument `encoded`.
use Prim.Native.Char.{code}
use Prim.Native.String.{String}
use text.Mathlib.TextLemmas.{append_assoc, append_cancel_left, cons-append, head-eq_of_cons-eq}
use minikura.Common.{
  ℕ, zero, suc, Bool, ◌&&◌, ◌||◌, leb, if◌then◌else◌, ◌+++◌, ◌≢◌, ◌∙◌, sym, ap, arith,
}

is_alphanumeric : ℕ → Bool
is_alphanumeric c =
    (leb b'a' c && leb c b'z') || (leb b'A' c && leb c b'Z') || (leb b'0' c && leb c b'9')

-- `.replace(/[^a-zA-Z0-9]/g, "")`
keep_alphanumeric : String → String
keep_alphanumeric String.[] = ""
keep_alphanumeric (String.◌∷◌ c s) =
    if is_alphanumeric (code c) then String.◌∷◌ c (keep_alphanumeric s) else keep_alphanumeric s

-- `.substring(0, n)`
substring : ℕ → String → String
substring zero s = ""
substring (suc n) String.[] = ""
substring (suc n) (String.◌∷◌ c s) = String.◌∷◌ c (substring n s)

unfoldable pub generate_server_api_key : String → String
unfolding keep_alphanumeric is_alphanumeric substring
generate_server_api_key encoded = "minikura_srv_" +++ substring 32 (keep_alphanumeric encoded)

unfoldable pub generate_reverse_proxy_api_key : String → String
unfolding keep_alphanumeric is_alphanumeric substring
generate_reverse_proxy_api_key encoded =
    "minikura_proxy_" +++ substring 32 (keep_alphanumeric encoded)

-- No key that is generated for a server is one that is generated for a reverse proxy.
pub server_key-ne-proxy_key :
    (a b : String) → generate_server_api_key a ≢ generate_reverse_proxy_api_key b
unfolding generate_server_api_key generate_reverse_proxy_api_key
server_key-ne-proxy_key a b e =
    let x : String = substring 32 (keep_alphanumeric a) in
    let y : String = substring 32 (keep_alphanumeric b) in
    let rest =
      append_cancel_left "minikura_" ("srv_" +++ x) ("proxy_" +++ y)
        (sym (append_assoc "minikura_" "srv_" x) ∙ e ∙ append_assoc "minikura_" "proxy_" y) in
    let first =
      head-eq_of_cons-eq (sym (cons-append "s" "rv_" x) ∙ rest ∙ cons-append "p" "roxy_" y) in
    let codes : Path ℕ 115 112 = ap code first in omega arith

-- ===== src/Domain/Tests.antt =====
-- The answers to errors at concrete errors.
use minikura.Common.{◌≡◌, some, refl, arith, eq_iff}
use minikura.Domain.Errors
use minikura.Domain.Errors.{DomainError, Thrown}
use minikura.Domain.Handler.{error_handler, IsUnexpected}

abbrev refused : Thrown
refused = Thrown.error "TypeError" "x is undefined"

refused-IsUnexpected : IsUnexpected refused
refused-IsUnexpected =
    ground (arith, eq_iff "TypeError" "ValidationError", eq_iff "TypeError" "ZodError")

not_found_message :
    (error_handler (Thrown.domain (DomainError.not_found "Server" (some "lobby")))).message
    ≡ "Server not found: lobby"
unfolding error_handler Errors.message
not_found_message = refl

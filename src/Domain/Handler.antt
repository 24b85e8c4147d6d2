-- ===== src/Domain/Handler.antt =====
-- The answer to an error (apps/backend/src/middleware/error-handler.ts).
use minikura.Common.{
  ℕ, String, Bool, false, ◌||◌, ◌==◌, if◌then◌else◌, ◌≡◌, ◌≢◌, ◌↔◌, refl, arith, eq_iff,
}
use minikura.Domain.Errors
use minikura.Domain.Errors.{DomainError, Thrown}

pub record Response : Type 0 where
  pub status : ℕ
  pub success : Bool
  pub code : String
  pub message : String

unfoldable pub error_handler : Thrown → Response
unfolding Errors.code Errors.status_code
error_handler (Thrown.domain e) = record {
  status = Errors.status_code e;
  success = false;
  code = Errors.code e;
  message = Errors.message e;
}
error_handler (Thrown.error name message) =
    if name == "ValidationError" || name == "ZodError"
    then record { status = 400; success = false; code = "VALIDATION_ERROR"; message = message }
    else record {
      status = 500;
      success = false;
      code = "INTERNAL_SERVER_ERROR";
      message = "An unexpected error occurred";
    }
error_handler (Thrown.value _) = record {
  status = 500;
  success = false;
  code = "INTERNAL_SERVER_ERROR";
  message = "An unexpected error occurred";
}

-- Errors that the program did not raise on purpose: no domain error, and no error by the name of a
-- validation error.
abbrev pub IsUnexpected : Thrown → Type 0
IsUnexpected (Thrown.domain e) = ⊥
IsUnexpected (Thrown.error name _) = (name ≢ "ValidationError") × (name ≢ "ZodError")
IsUnexpected (Thrown.value _) = Unit

-- The answer has status 500 exactly for an unexpected error.
pub error_handler-500_iff : (e : Thrown) → ((error_handler e).status ≡ 500) ↔ IsUnexpected e
unfolding error_handler
error_handler-500_iff (Thrown.domain (DomainError.not_found r i)) = ground arith
error_handler-500_iff (Thrown.domain e) = ground arith
error_handler-500_iff (Thrown.error name message) =
    ground (arith, eq_iff name "ValidationError", eq_iff name "ZodError")
error_handler-500_iff (Thrown.value v) = (λ _. tt, λ _. refl)

-- The answer to an unexpected error shows nothing of it: two such errors are answered alike.
pub error_handler_hides :
    (e e' : Thrown) → IsUnexpected e → IsUnexpected e' → error_handler e ≡ error_handler e'
unfolding error_handler
error_handler_hides (Thrown.domain d) e' h h' = absurd h
error_handler_hides (Thrown.error n m) (Thrown.domain d) h h' = absurd h'
error_handler_hides (Thrown.error n m) (Thrown.error n' m') h h' = ground (
  arith,
  eq_iff n "ValidationError",
  eq_iff n "ZodError",
  eq_iff n' "ValidationError",
  eq_iff n' "ZodError",
)
error_handler_hides (Thrown.error n m) (Thrown.value v) h h' =
    ground (arith, eq_iff n "ValidationError", eq_iff n "ZodError")
error_handler_hides (Thrown.value v) (Thrown.domain d) h h' = absurd h'
error_handler_hides (Thrown.value v) (Thrown.error n m) h h' =
    ground (arith, eq_iff n "ValidationError", eq_iff n "ZodError")
error_handler_hides (Thrown.value v) (Thrown.value v') h h' = refl

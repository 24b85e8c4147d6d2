-- ===== src/Domain/Errors.antt =====
-- The domain errors (apps/backend/src/domain/errors/base.error.ts).
use minikura.Common.{ℕ, String, Option, none, some, ◌==◌, ◌+++◌, if◌then◌else◌, Call}

-- One constructor for each concrete class, with its constructor's arguments.
pub data DomainError : Type 0 where
  not_found conflict : String → Option String → DomainError
  unauthorized forbidden : Option String → DomainError
  validation business_rule : String → DomainError

-- `this.constructor.name`
unfoldable pub name : DomainError → String
name (DomainError.not_found _ _) = "NotFoundError"
name (DomainError.conflict _ _) = "ConflictError"
name (DomainError.unauthorized _) = "UnauthorizedError"
name (DomainError.forbidden _) = "ForbiddenError"
name (DomainError.validation _) = "ValidationError"
name (DomainError.business_rule _) = "BusinessRuleError"

unfoldable pub code : DomainError → String
code (DomainError.not_found _ _) = "NOT_FOUND"
code (DomainError.conflict _ _) = "CONFLICT"
code (DomainError.unauthorized _) = "UNAUTHORIZED"
code (DomainError.forbidden _) = "FORBIDDEN"
code (DomainError.validation _) = "VALIDATION_ERROR"
code (DomainError.business_rule _) = "BUSINESS_RULE_VIOLATION"

unfoldable pub status_code : DomainError → ℕ
status_code (DomainError.not_found _ _) = 404
status_code (DomainError.conflict _ _) = 409
status_code (DomainError.unauthorized _) = 401
status_code (DomainError.forbidden _) = 403
status_code (DomainError.validation _) = 400
status_code (DomainError.business_rule _) = 422

-- A message about a resource: an empty identifier counts as none.
named : String → String → Option String → String
named resource text none = resource +++ text
named resource text (some identifier) =
    if identifier == "" then resource +++ text else resource +++ text +++ ": " +++ identifier

unfoldable pub message : DomainError → String
unfolding named
message (DomainError.not_found resource identifier) = named resource " not found" identifier
message (DomainError.conflict resource identifier) = named resource " already exists" identifier
message (DomainError.unauthorized none) = "Unauthorized access"
message (DomainError.unauthorized (some text)) = text
message (DomainError.forbidden none) = "Forbidden access"
message (DomainError.forbidden (some text)) = text
message (DomainError.validation text) = text
message (DomainError.business_rule text) = text

pub record ErrorJson : Type 0 where
  pub name : String
  pub code : String
  pub message : String
  pub status_code : ℕ

unfoldable pub to_json : DomainError → ErrorJson
unfolding name code message status_code
to_json e = record {
  name = name e;
  code = code e;
  message = message e;
  status_code = status_code e;
}

-- Whatever a handler may throw: a domain error, another `Error` with its name and message, or a
-- value that is no `Error`.
pub data Thrown : Type 0 where
  domain : DomainError → Thrown
  error : String → String → Thrown
  value : String → Thrown

abbrev pub Action : Type 0 → Type 0 → Type 0
Action = Call Thrown

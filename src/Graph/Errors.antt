-- ===== src/Graph/Errors.antt =====
-- internal/graph/errors.go and logging.go: what a client sees of an error, and what is logged of an error
-- and of an operation.
pub mod Laws
mod Tests
use lite_end_go.Base.{
  ℕ, ◌≡◌, Bool, true, false, ◌&&◌, Option, none, some, List, [], ◌∷◌, is_empty, if◌then◌else◌,
}
use lite_end_go.Strings.{Text, codes, same}
use lite_end_go.Logger.{
  Level, warn_level, error_level, Value, null, scalar, object, Fields, redacted, redact_fields,
  AttrValue, any,
}
use lite_end_go.Auth.Guards.{AuthError, unauthenticated, forbidden}
use lite_end_go.Graph.Avatar.{GraphError, not_allowed, client_error, failed}

abbrev pub generic_internal_message : Text
generic_internal_message = codes "Internal server error"

abbrev pub code_internal : Text
code_internal = codes "INTERNAL_SERVER_ERROR"

abbrev pub fallback_request_id : Text
fallback_request_id = codes "unknown"

-- `code` and `statusCode` of an error's extensions.
pub record Coded : Type 0 where
  pub code : Text
  pub status_code : ℕ

-- An error as it reaches the presenter: the guard's error that it wraps, its text, and its extensions.
pub record Raised : Type 0 where
  pub guard : Option AuthError
  pub message : Text
  pub extensions : Option Coded

-- What the client gets.
pub record Presented : Type 0 where
  pub message : Text
  pub coded : Coded
  pub request_id : Text

-- The line `graphql_error`.
pub record ErrorLine : Type 0 where
  pub level : Level
  pub error : Text
  pub code : Text
  pub request_id : Text

abbrev pub coded : Text → ℕ → Coded
coded code status = record { code = code; status_code = status }

abbrev pub own_code : Option Coded → Coded
own_code none = coded code_internal 500
own_code (some c) = c

-- The `switch` of the presenter.
abbrev pub code_of : Option AuthError → Option Coded → Coded
code_of (some unauthenticated) extensions = coded (codes "UNAUTHENTICATED") 401
code_of (some forbidden) extensions = coded (codes "FORBIDDEN") 403
code_of none extensions = own_code extensions

unfoldable pub is_internal : Raised → Bool
is_internal e = same (code_of e.guard e.extensions).code code_internal

abbrev pub known_id : Text → Text
known_id id = if is_empty id then fallback_request_id else id

-- `newErrorPresenter`: the line and the presented error.
unfoldable pub present_error : Bool → Text → Raised → ErrorLine × Presented
unfolding is_internal
present_error is_prod id e =
    let c = code_of e.guard e.extensions in
    (
      record {
        level = if is_internal e then error_level else warn_level;
        error = e.message;
        code = c.code;
        request_id = known_id id;
      },
      record {
        message = if is_prod && is_internal e then generic_internal_message else e.message;
        coded = c;
        request_id = known_id id;
      },
    )

-- A resolver's error as it is raised, with the text of the one that is masked.
unfoldable pub raised : GraphError → Text → Raised
raised (not_allowed e) text = record { guard = some e; message = text; extensions = none }
raised (client_error message code status) text = record {
  guard = none;
  message = message;
  extensions = some (coded code status);
}
raised failed text = record { guard = none; message = text; extensions = none }

-- `clientError` of handler.go.
abbrev pub mutation : Text
mutation = codes "mutation"

-- `loggableVariables`, with `redactVariables`; a missing map is nil.
unfoldable pub loggable_variables : Text → Option Fields → Value
unfolding redact_fields
loggable_variables op_type none = null
loggable_variables op_type (some vars) =
    if same op_type mutation then scalar redacted else object (redact_fields vars)

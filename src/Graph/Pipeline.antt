-- ===== src/Graph/Pipeline.antt =====
-- `newHandler` of internal/graph/handler.go: the order of what an operation meets before its resolver. The
-- extensions that are gqlgen's own are in the list, and refuse nothing here.
pub mod Laws
mod Tests
use lite_end_go.Base.{
  ℕ, ◌≡◌, Bool, true, false, Option, none, some, List, [], ◌∷◌, ◌++◌, if◌then◌else◌, Result, ok,
  err,
}
use lite_end_go.Strings.{Text, codes}
use lite_end_go.Middleware.RateLimit.{Reply}
use lite_end_go.Profile.Store.{Profile}
use lite_end_go.Profile.Service.{Codec}
use lite_end_go.Auth.KeySet.{Library}
use lite_end_go.Auth.Resolve.{State, Moment}
use lite_end_go.Graph.Avatar.{GraphError}
use lite_end_go.Graph.Transport.{
  Document, query_shape_limit, ws_operation_charge, refresh_websocket_user,
}

pub data Extension : Type 0 where
  ws_charge shape_limit introspection persisted_query complexity_limit operation_log : Extension

abbrev pub when : Bool → Extension → List Extension
when true x = x ∷ []
when false x = []

-- The `srv.Use` calls, in order; the charge is left out without a limiter, introspection in production.
unfoldable pub extensions : (has_limiter is_prod : Bool) → List Extension
extensions has_limiter true =
    when has_limiter ws_charge
    ++ shape_limit ∷ persisted_query ∷ complexity_limit ∷ operation_log ∷ []
extensions has_limiter false =
    when has_limiter ws_charge
    ++ shape_limit ∷ introspection ∷ persisted_query ∷ complexity_limit ∷ operation_log ∷ []

-- An operation as it arrives: whether over a WebSocket, the rate key and the credentials of its connection,
-- the user of its request, and its query.
pub record Operation : Type 0 where
  pub is_ws : Bool
  pub key : Text
  pub creds : Option (Text × Text)
  pub user : Option Profile
  pub query : Text

abbrev pub graphql_max_query_bytes : ℕ
graphql_max_query_bytes = 131_072

abbrev pub graphql_max_fields : ℕ
graphql_max_fields = 500

module _ (number_text : ℕ → Text) (parse : Text → Option Document) (limiter : Text → Reply) where
  -- What an extension says to the parameters of an operation.
  unfoldable pub mutate_parameters : Extension → Operation → Option GraphError
  unfolding query_shape_limit ws_operation_charge
  mutate_parameters ws_charge op = ws_operation_charge limiter op.is_ws op.key
  mutate_parameters shape_limit op =
      query_shape_limit number_text parse graphql_max_query_bytes graphql_max_fields op.query
  mutate_parameters _ op = none

  -- The first refusal stands, and what comes after it is not asked.
  unfoldable pub first_refusal : List Extension → Operation → Option GraphError
  unfolding mutate_parameters
  first_refusal [] op = none
  first_refusal (x ∷ xs) op = elim (mutate_parameters x op) [
    | some e ↦ some e
    | none ↦ first_refusal xs op
  ]

  abbrev pub admitted_as :
      Codec
      → Library
      → Bool
      → State
      → Moment
      → Operation
      → Option GraphError
      → State × Result GraphError (Option Profile)
  unfolding refresh_websocket_user
  admitted_as codec lib mock_enabled st m op (some e) = (st, err e)
  admitted_as codec lib mock_enabled st m op none =
      refresh_websocket_user codec lib mock_enabled st m op.creds op.user

  -- What the resolver of an operation runs with, or why it does not run.
  unfoldable pub admit :
      Codec
      → Library
      → (mock_enabled has_limiter is_prod : Bool) → State
      → Moment
      → Operation
      → State × Result GraphError (Option Profile)
  unfolding first_refusal extensions admitted_as
  admit codec lib mock_enabled has_limiter is_prod st m op =
      admitted_as codec lib mock_enabled st m op (first_refusal (extensions has_limiter is_prod) op)

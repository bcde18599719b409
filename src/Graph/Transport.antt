-- ===== src/Graph/Transport.antt =====
-- internal/graph/handler.go: what stands between an operation and its resolver. Parsing a query is the parameter
-- `parse`; an operation of a WebSocket has the key and the credentials that its connection was opened with.
pub mod Laws
mod Tests
use lite_end_go.Base.{
  ℕ, suc, ◌+◌, Bool, true, false, not, ◌||◌, Option, none, some, List, [], ◌∷◌, ◌++◌, ltb, length,
  is_empty, if◌then◌else◌, Result, ok, err,
}
use lite_end_go.Strings.{Text, codes}
use lite_end_go.Middleware.RateLimit.{Reply, allow}
use lite_end_go.Profile.Store.{Profile}
use lite_end_go.Profile.Service.{Codec}
use lite_end_go.Auth.KeySet.{Library}
use lite_end_go.Auth.Resolve.{Resolved, State, Moment, resolve}
use lite_end_go.Graph.Avatar.{GraphError, client_error}
use lite_end_go.Graph.Operations.{too_many_requests}

-- The selections of a parsed query: a field with its own selections, a fragment in place, or the name of one.
mutual
  pub data Selection : Type 0 where
    field : (name : Text) → Selections → Selection
    inline_fragment : Selections → Selection
    fragment_spread : (name : Text) → Selection

  pub data Selections : Type 0 where
    no_more : Selections
    select : Selection → Selections → Selections

pub record Document : Type 0 where
  pub operations : List Selections
  pub fragments : List Selections

-- `countFields`: every field of the document, as written.
unfoldable mutual
  pub count_selections : Selections → ℕ
  count_selections no_more = 0
  count_selections (select s rest) = count_selection s + count_selections rest

  pub count_selection : Selection → ℕ
  count_selection (field name set) = suc (count_selections set)
  count_selection (inline_fragment set) = count_selections set
  count_selection (fragment_spread name) = 0

abbrev pub count_all : List Selections → ℕ
count_all [] = 0
count_all (set ∷ sets) = count_selections set + count_all sets

unfoldable pub count_fields : Document → ℕ
unfolding count_selections count_selection
count_fields doc = count_all doc.operations + count_all doc.fragments

module _ (number_text : ℕ → Text) (parse : Text → Option Document) where
  -- `queryShapeLimit.MutateOperationParameters`; a query that does not parse is left to the server.
  unfoldable pub query_shape_limit : (max_bytes max_fields : ℕ) → Text → Option GraphError
  query_shape_limit max_bytes max_fields query =
      if ltb max_bytes (length query)
      then some (
          client_error (codes "query exceeds " ++ (number_text max_bytes ++ codes " bytes"))
            (codes "QUERY_TOO_LARGE") 413)
      else elim (parse query) [
        | none ↦ none
        | some doc ↦
            if ltb max_fields (count_fields doc)
            then some (
                client_error
                  (codes "query selects "
                    ++ (number_text (count_fields doc)
                        ++ (codes " fields, more than " ++ number_text max_fields)))
                  (codes "QUERY_TOO_COMPLEX") 400)
            else none
      ]

-- `wsOperationCharge.MutateOperationParameters`: whether the operation came over a WebSocket, and the key.
unfoldable pub ws_operation_charge : (Text → Reply) → Bool → Text → Option GraphError
ws_operation_charge limiter is_ws key =
    if not is_ws || is_empty key
    then none
    else if (allow (limiter key)).0
    then none
    else some too_many_requests

abbrev pub unauthenticated_answer : GraphError
unauthenticated_answer = client_error (codes "unauthenticated") (codes "UNAUTHENTICATED") 401

abbrev pub run_as : State × Resolved → State × Result GraphError (Option Profile)
run_as (st, x) = elim x.user [
  | none ↦ (st, err unauthenticated_answer)
  | some p ↦ (st, ok (some p))
]

-- `refreshWebsocketUser`: the user that the operation runs with. The credentials, a token and a mock subject, are
-- there on a WebSocket.
unfoldable pub refresh_websocket_user :
    Codec
    → Library
    → Bool
    → State
    → Moment
    → Option (Text × Text)
    → Option Profile
    → State × Result GraphError (Option Profile)
unfolding resolve
refresh_websocket_user codec lib mock_enabled st m none user = (st, ok user)
refresh_websocket_user codec lib mock_enabled st m (some (bearer, mock_sub)) user =
    run_as (resolve codec lib mock_enabled st m bearer mock_sub)

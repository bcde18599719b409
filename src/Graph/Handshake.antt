-- ===== src/Graph/Handshake.antt =====
-- `InitFunc` of internal/graph/handler.go: what a WebSocket is given at its `connection_init`.
pub mod Laws
mod Tests
use lite_end_go.Base.{ℕ, ◌+◌, ◌≡◌, Bool, Option, none, some, List, [], ◌∷◌, Result, ok, err}
use lite_end_go.Strings.{Text, codes}
use lite_end_go.Profile.Store.{Profile}
use lite_end_go.Profile.Service.{Codec}
use lite_end_go.Auth.KeySet.{Library}
use lite_end_go.Auth.Resolve.{strip_bearer, Resolved, State, Moment, resolve}
use lite_end_go.Graph.Subscriptions.{Slots, with_subscription_budget}

abbrev pub ws_close_unauthorized : ℕ
ws_close_unauthorized = 4403

abbrev pub ws_max_subscriptions_per_conn : ℕ
ws_max_subscriptions_per_conn = 10

-- The context of a connection: its user, the credentials that each operation is checked with again, its
-- subscriptions, and the time at which it is closed.
pub record Socket : Type 0 where
  pub user : Profile
  pub creds : Text × Text
  pub slots : Slots
  pub deadline : Option ℕ

-- The code and the reason that a socket is refused with.
pub record Refusal : Type 0 where
  pub close_code : ℕ
  pub reason : Text

abbrev pub deadline_of : ℕ → Option ℕ → Option ℕ
deadline_of token_grace none = none
deadline_of token_grace (some expires_at) = some (expires_at + token_grace)

abbrev pub socket_of : ℕ → Text × Text → Option ℕ → Profile → Socket
unfolding with_subscription_budget
socket_of token_grace creds expires_at p = record {
  user = p;
  creds = creds;
  slots = with_subscription_budget ws_max_subscriptions_per_conn;
  deadline = deadline_of token_grace expires_at;
}

-- An anonymous socket is refused.
abbrev pub admitted : ℕ → Text × Text → Option ℕ → Option Profile → Result Refusal Socket
unfolding socket_of
admitted token_grace creds expires_at none =
    err (record { close_code = ws_close_unauthorized; reason = codes "unauthorized" })
admitted token_grace creds expires_at (some p) = ok (socket_of token_grace creds expires_at p)

abbrev pub opened_as : ℕ → Text × Text → State × Resolved → State × Result Refusal Socket
unfolding admitted
opened_as token_grace creds (st, x) = (st, admitted token_grace creds x.expires_at x.user)

-- `InitFunc`, with the `Authorization` and the `x-mock-sub` of the payload.
unfoldable pub init_socket :
    Codec
    → Library
    → Bool
    → State
    → Moment
    → (token_grace : ℕ) → (authorization mock_sub : Text) → State × Result Refusal Socket
unfolding resolve strip_bearer opened_as
init_socket codec lib mock_enabled st m token_grace authorization mock_sub =
    let bearer = strip_bearer authorization in
    opened_as token_grace (bearer, mock_sub) (resolve codec lib mock_enabled st m bearer mock_sub)

-- ===== src/Graph/Subscriptions.antt =====
-- internal/graph/resolver/resolver.go: the budget of live subscriptions of one WebSocket.
pub mod Laws
use lite_end_go.Base.{
  ℕ, suc, ◌-◌, Bool, true, false, Option, none, some, List, [], ◌∷◌, ltb, if◌then◌else◌, Result, ok,
  err,
}
use lite_end_go.Strings.{Text, codes}
use lite_end_go.Auth.Guards.{require}
use lite_end_go.Profile.Store.{Profile}
use lite_end_go.Graph.Avatar.{GraphError, not_allowed, client_error, failed}
use lite_end_go.Graph.Operations.{guarded}

-- The buffered channel of the connection: how many slots it has, and how many are taken.
pub record Slots : Type 0 where
  pub capacity : ℕ
  pub taken : ℕ

-- `WithSubscriptionBudget`.
unfoldable pub with_subscription_budget : ℕ → Slots
with_subscription_budget n = record { capacity = n; taken = 0 }

-- `acquireSubscription`; a context that is not of a WebSocket has no slots.
unfoldable pub acquire_subscription : Option Slots → Option Slots × Result GraphError (Unit {0})
acquire_subscription none = (
  none,
  err (
      client_error (codes "subscriptions are served over WebSocket only")
        (codes "SUBSCRIPTIONS_REQUIRE_WEBSOCKET") 400),
)
acquire_subscription (some s) =
    if ltb s.taken s.capacity then (some (record s { taken = suc s.taken }), ok tt) else (
      some s,
      err (
          client_error (codes "too many active subscriptions on this connection")
            (codes "TOO_MANY_SUBSCRIPTIONS") 429),
    )

-- `release`: a receive from the channel, which holds the slot that was taken.
unfoldable pub release : Slots → Slots
release s = record s { taken = s.taken - 1 }

-- `ProfileUpdated`, up to the start of its bridge.
unfoldable pub profile_updated :
    Option Profile → Bool → Option Slots → Option Slots × Result GraphError (Unit {0})
unfolding acquire_subscription
profile_updated user has_pub_sub slots = elim (guarded (require user)) [
  | err e ↦ (slots, err e)
  | ok u ↦ if has_pub_sub then acquire_subscription slots else (slots, err failed)
]

-- ===== src/Graph/Jobs.antt =====
-- `AddTestJob` of internal/graph/resolver/schema.resolvers.go, over the client of the queue.
pub mod Laws
mod Tests
use lite_end_go.Base.{
  ℕ, Bool, true, false, not, Option, none, some, ltb, if◌then◌else◌, Result, ok, err,
}
use lite_end_go.Strings.{Text, codes, rune_count}
use lite_end_go.Middleware.RateLimit.{Reply, allow}
use lite_end_go.Profile.Store.{Profile}
use lite_end_go.Auth.Guards.{require}
use lite_end_go.Queue.{JobJson, Broker}
use lite_end_go.Queue.Client.{add_job}
use lite_end_go.Graph.Avatar.{GraphError, client_error, failed}
use lite_end_go.Graph.Operations.{guarded, too_many_requests}

-- What a call leaves: the queue, whether it spent an event of the quota, and its answer.
pub record JobOutcome (Tasks : Type 0) : Type 0 where
  pub jobs : Tasks
  pub charged : Bool
  pub result : Result GraphError Bool

abbrev pub no_job : {Tasks : Type 0} → Tasks → Bool → GraphError → JobOutcome Tasks
no_job jobs charged e = record { jobs = jobs; charged = charged; result = err e }

abbrev pub over_budget : Option Reply → Bool
over_budget none = false
over_budget (some reply) = not (allow reply).0

abbrev pub is_some_reply : Option Reply → Bool
is_some_reply none = false
is_some_reply (some reply) = true

-- The end of a call, from what the client of the queue answers.
abbrev pub enqueued_as : {Tasks : Type 0} → Bool → Tasks × Result Text (Unit {0}) → JobOutcome Tasks
enqueued_as charged (tasks, ok done) = record { jobs = tasks; charged = charged; result = ok true }
enqueued_as charged (tasks, err e) = no_job tasks charged failed

-- What a call meets: whether there is a queue, the reply of the quota if there is one, the date, and the id of
-- its request.
pub record JobMoment : Type 0 where
  pub has_queue : Bool
  pub quota : Option Reply
  pub date : Text
  pub request_id : Text

module _ (digest : Text → Text) (json : JobJson) (broker : Broker) where
  -- `AddTestJob`.
  unfoldable pub add_test_job :
      JobMoment → broker.Tasks → Option Profile → Text → JobOutcome broker.Tasks
  add_test_job m jobs user message = elim (guarded (require user)) [
    | err e ↦ no_job jobs false e
    | ok u ↦
        if ltb 512 (rune_count message)
        then no_job jobs false (
            client_error (codes "message must be at most 512 characters") (codes "BAD_USER_INPUT")
              400)
        else if not m.has_queue
        then no_job jobs false failed
        else if over_budget m.quota
        then no_job jobs (is_some_reply m.quota) too_many_requests
        else enqueued_as (is_some_reply m.quota)
            (add_job digest json broker jobs m.date m.request_id u.id message)
  ]

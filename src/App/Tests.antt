-- ===== src/App/Tests.antt =====
-- The assembly at concrete inputs.
use lite_end_go.Base.{ℕ, ◌≡◌, ◌↔◌, ok, refl, true, false, Option, none, some, [], ◌∷◌, err}
use lite_end_go.Strings.{Text, codes, contains, has_prefix}
use lite_end_go.Http.{Request}
use lite_end_go.Samples.{sample_ip_text, sample_request}
use lite_end_go.Middleware.RateLimit.{Reply, counted, passed, answered}
use lite_end_go.App.Routes.{dev_gate, dev_allowed, too_many, dev_gate-passed}
use lite_end_go.App.Process.{signalled, run, healthcheck, all_succeed, run-IsClosed}
use lite_end_go.App.Build.{
  Steps, build, Leaves, worker_error, redis_error, database, redis_client, event_pump, queue_client,
  opened, closed,
}

abbrev no_worker : Steps
no_worker = record {
  migrates = true;
  database_opens = true;
  redis_pings = true;
  worker_starts = false;
  translator_loads = true;
  uploads_open = true;
}

build-no_worker : build no_worker ≡ (
  opened database
      ∷ opened redis_client
      ∷ opened event_pump
      ∷ opened queue_client
      ∷ closed queue_client
      ∷ closed event_pump
      ∷ closed redis_client
      ∷ closed database
      ∷ [],
  err worker_error,
)
unfolding build
build-no_worker = refl

abbrev no_redis : Steps
no_redis = record no_worker { redis_pings = false }

-- The client that gets no answer stays open.
build-no_redis :
    build no_redis ≡ (opened database ∷ opened redis_client ∷ closed database ∷ [], err redis_error)
unfolding build
build-no_redis = refl

run-IsClosed_example :
    Leaves (redis_client ∷ []) (run true no_redis (signalled true)).0
    × (((run true no_redis (signalled true)).1 ≡ ok tt)
        ↔ ((true ≡ true) × (all_succeed no_redis ≡ true) × (signalled true ≡ signalled true)))
run-IsClosed_example = run-IsClosed true no_redis (signalled true)

-- The probe of a live process.
healthcheck_alive : healthcheck true (some (200, codes "{\"status\":\"ok\"}")) ≡ 0
unfolding healthcheck contains has_prefix
healthcheck_alive = refl

abbrev plain : Text → Text
plain s = s

-- The header carries the name alone.
abbrev name_only : Text → Option (Text × Text)
name_only [] = none
name_only (c ∷ s) = some (c ∷ s, codes "secret")

abbrev open_budget : Text → Reply
open_budget key = counted 1 0

abbrev a_request : Request
a_request = record (sample_request [] (codes "10.0.0.1:80")) { authorization = codes "admin" }

abbrev no_text : ℕ → Text
no_text n = []

dev_gate-passed_example :
    ((dev_gate no_text sample_ip_text plain name_only open_budget
          (codes "admin")
          (codes "secret")
          a_request
        ≡ passed a_request)
      ↔ ((dev_allowed sample_ip_text open_budget a_request ≡ true)
          × (name_only (codes "admin") ≡ some (codes "admin", codes "secret"))))
    × (dev_allowed sample_ip_text open_budget a_request ≡ false
        → dev_gate no_text sample_ip_text plain name_only open_budget
            (codes "admin")
            (codes "secret")
            a_request
          ≡ answered (too_many sample_ip_text no_text open_budget a_request))
dev_gate-passed_example =
    dev_gate-passed no_text sample_ip_text plain name_only (λ s t h. h) open_budget (codes "admin")
      (codes "secret") a_request

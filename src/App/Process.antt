-- ===== src/App/Process.antt =====
-- cmd/server/main.go and `Server.Run`: the life of the process, and the probe of its container.
use lite_end_go.Base.{
  ℕ, ◌≡◌, ◌↔◌, refl, Bool, true, false, ◌&&◌, Option, none, some, List, [], ◌==◌, if◌then◌else◌,
  is_empty, Result, ok, err,
}
use lite_end_go.Strings.{Text, codes, contains}
use lite_end_go.App.Build.{
  Resource, Event, BuildError, Steps, App, build, close_app, open_after, opened_of, closed_of,
  left_open, Leaves, IsClean, build-IsClean,
}

-- How the server stops: its listener fails, or a signal ends the context and the shutdown succeeds or not.
pub data Stop : Type 0 where
  listen_failed : Stop
  signalled : (shut_down : Bool) → Stop

pub data RunError : Type 0 where
  load_error listen_error shutdown_error : RunError
  build_error : BuildError → RunError

-- `Server.Run`.
unfoldable pub run_server : Stop → Result RunError (Unit {0})
run_server listen_failed = err listen_error
run_server (signalled true) = ok tt
run_server (signalled false) = err shutdown_error

abbrev pub run_built :
    Stop → List Event × Result BuildError App → List Event × Result RunError (Unit {0})
unfolding run_server close_app
run_built stop (events, err e) = (events, err (build_error e))
run_built stop (events, ok app) = (close_app app, run_server stop)

-- `run`: what has happened to the application's resources, and the error; `Close` is deferred, so it comes
-- after the server whatever the server returns.
unfoldable pub run : Bool → Steps → Stop → List Event × Result RunError (Unit {0})
unfolding run_built build
run loads steps stop = if loads then run_built stop (build steps) else ([], err load_error)

abbrev pub exit_code : Result RunError (Unit {0}) → ℕ
exit_code (ok u) = 0
exit_code (err e) = 1

-- `healthcheck`: whether the request can be made, and the answer, if there is one.
unfoldable pub healthcheck : Bool → Option (ℕ × Text) → ℕ
healthcheck builds none = 1
healthcheck builds (some (status, body)) =
    if builds && (status == 200 && contains body (codes "\"status\":\"ok\"")) then 0 else 1

-- `main`, from whether the flag is given.
unfoldable pub main : Bool → Bool → Option (ℕ × Text) → Bool → Steps → Stop → List Event × ℕ
unfolding healthcheck run
main health_flag builds probe loads steps stop =
    if health_flag
    then ([], healthcheck builds probe)
    else let (events, result) = run loads steps stop in (events, exit_code result)

-- The port of the probe.
unfoldable pub probe_port : Text → Text
probe_port port = if is_empty port then codes "4000" else port

run_built-Leaves :
    (stop : Stop) (left : List Resource) (b : List Event × Result BuildError App)
    → IsClean left b
    → Leaves left (run_built stop b).0
unfolding run_built close_app
run_built-Leaves stop left (events, err e) h = h
run_built-Leaves stop left (events, ok app) (before, after) = after

-- Every step of `Build` succeeds.
abbrev pub all_succeed : Steps → Bool
all_succeed s =
    s.migrates && s.database_opens && s.redis_pings && s.worker_starts && s.translator_loads
    && s.uploads_open

abbrev Agrees : List Event × Result BuildError App → Bool → Type 0
Agrees (events, ok app) b = b ≡ true
Agrees (events, err e) b = b ≡ false

Agrees-steps :
    (migrates database_opens redis_pings worker_starts translator_loads uploads_open : Bool)
    → let s : Steps = record {
      migrates = migrates;
      database_opens = database_opens;
      redis_pings = redis_pings;
      worker_starts = worker_starts;
      translator_loads = translator_loads;
      uploads_open = uploads_open;
    } in
      Agrees (build s) (all_succeed s)
unfolding build
Agrees-steps false b c d e f = refl
Agrees-steps true false c d e f = refl
Agrees-steps true true false d e f = refl
Agrees-steps true true true false e f = refl
Agrees-steps true true true true false f = refl
Agrees-steps true true true true true false = refl
Agrees-steps true true true true true true = refl

run_server-ok : (stop : Stop) → (run_server stop ≡ ok tt) ↔ (stop ≡ signalled true)
unfolding run_server
run_server-ok listen_failed = (λ h. cc, λ h. cc)
run_server-ok (signalled true) = (λ h. refl, λ h. refl)
run_server-ok (signalled false) = (λ h. cc, λ h. cc)

run_built-ok :
    (stop : Stop) (b : List Event × Result BuildError App) (good : Bool)
    → Agrees b good
    → ((run_built stop b).1 ≡ ok tt) ↔ ((good ≡ true) × (stop ≡ signalled true))
unfolding run_built
run_built-ok stop (events, err e) good a = (λ h. cc, λ (h, k). cc)
run_built-ok stop (events, ok app) good a =
    (λ h. (a, (run_server-ok stop).0 h), λ (h, k). (run_server-ok stop).1 k)

abbrev pub leak : Bool → Steps → List Resource
leak loads s = if loads then left_open s else []

-- However the start and the server go, when `run` returns every resource that was opened is closed, in
-- reverse order, except that the Redis client stays open exactly if its ping failed, after the
-- migrations and the opening of the database; and it returns without an error exactly if the configuration
-- is loaded, every step of `Build` succeeds, and a signal led to a clean shutdown.
pub run-IsClosed :
    (loads : Bool) (s : Steps) (stop : Stop)
    → Leaves (leak loads s) (run loads s stop).0
      × (((run loads s stop).1 ≡ ok tt)
          ↔ ((loads ≡ true) × (all_succeed s ≡ true) × (stop ≡ signalled true)))
unfolding run open_after opened_of closed_of
run-IsClosed false s stop = ((refl, refl), (λ h. cc, λ (l, a, k). cc))
run-IsClosed true s stop =
    let (there, back) = run_built-ok stop (build s) (all_succeed s) (
      Agrees-steps s.migrates s.database_opens s.redis_pings s.worker_starts s.translator_loads
        s.uploads_open) in
    (
      run_built-Leaves stop (left_open s) (build s) (build-IsClean s),
      (λ h. let (a, k) = there h in (refl, a, k), λ (l, a, k). back (a, k)),
    )

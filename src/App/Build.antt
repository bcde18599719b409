-- ===== src/App/Build.antt =====
-- `Build` and `Close`: what is opened, in order, and what is closed when a step fails or the process
-- ends. What the steps answer is the argument.
use lite_end_go.Base.{
  ◌≡◌, refl, Bool, true, false, not, ◌&&◌, Option, none, some, List, [], ◌∷◌, ◌++◌, if◌then◌else◌,
  Result, ok, err,
}
use mathlib.Core.List.{reverse}

pub data Resource : Type 0 where
  database redis_client event_pump queue_client worker : Resource

pub data Event : Type 0 where
  opened closed : Resource → Event

pub data BuildError : Type 0 where
  migrate_error database_error redis_error worker_error translator_error upload_error : BuildError

-- Which steps succeed. `db.New` closes its pool when it fails, and `redis.New` does not close its client.
pub record Steps : Type 0 where
  pub migrates : Bool
  pub database_opens : Bool
  pub redis_pings : Bool
  pub worker_starts : Bool
  pub translator_loads : Bool
  pub uploads_open : Bool

-- `App`, as its clean-ups, the one registered last first, with what has happened so far.
pub record App : Type 0 where
  pub cleanup : List Resource
  pub events : List Event

abbrev pub closings : List Resource → List Event
closings [] = []
closings (r ∷ rs) = closed r ∷ closings rs

-- `Close`: the clean-ups in reverse order of their registration.
unfoldable pub close_app : App → List Event
close_app app = app.events ++ closings app.cleanup

abbrev pub opens : Resource → App → App
opens r app = record { cleanup = r ∷ app.cleanup; events = app.events ++ opened r ∷ [] }

-- The client of `redis.New`, before its ping: no clean-up knows it yet.
abbrev pub dials_redis : App → App
dials_redis app = record app { events = app.events ++ opened redis_client ∷ [] }

abbrev pub registers : Resource → App → App
registers r app = record app { cleanup = r ∷ app.cleanup }

-- A step of `Build` that gives up by closing what there is.
abbrev pub or_close :
    Bool
    → BuildError
    → App
    → (App → List Event × Result BuildError App)
    → List Event × Result BuildError App
or_close true e app next = next app
or_close false e app next = (close_app app, err e)

abbrev pub no_app : App
no_app = record { cleanup = []; events = [] }

abbrev pub with_services : Steps → App → List Event × Result BuildError App
unfolding close_app
with_services s app =
    or_close s.worker_starts worker_error (opens queue_client (opens event_pump app)) λ app'.
      or_close s.translator_loads translator_error (opens worker app')
        λ app''. or_close s.uploads_open upload_error app'' λ built. (built.events, ok built)

-- `Build`: what has happened, and the application or the error.
unfoldable pub build : Steps → List Event × Result BuildError App
unfolding close_app with_services
build s =
    if s.migrates
    then (if s.database_opens
        then or_close s.redis_pings redis_error (dials_redis (opens database no_app))
            (λ app. with_services s (registers redis_client app))
        else ([], err database_error))
    else ([], err migrate_error)

abbrev same_resource : Resource → Resource → Bool
same_resource database database = true
same_resource redis_client redis_client = true
same_resource event_pump event_pump = true
same_resource queue_client queue_client = true
same_resource worker worker = true
same_resource _ _ = false

abbrev and_open : Resource → Option (List Resource) → Option (List Resource)
and_open o none = none
and_open o (some os) = some (o ∷ os)

abbrev closes : Resource → List Resource → Option (List Resource)
closes r [] = none
closes r (o ∷ os) = let rest = closes r os in if same_resource r o then some os else and_open o rest

-- What is open after the events, the latest first; `none` if something is closed that is not open.
unfoldable pub open_after : List Event → List Resource → Option (List Resource)
open_after [] os = some os
open_after (opened r ∷ es) os = open_after es (r ∷ os)
open_after (closed r ∷ es) os = elim (closes r os) [ none ↦ none | some left ↦ open_after es left ]

-- The resources in the order in which they were opened, and in which they were closed.
unfoldable pub opened_of : List Event → List Resource
opened_of [] = []
opened_of (opened r ∷ es) = r ∷ opened_of es
opened_of (closed r ∷ es) = opened_of es

unfoldable pub closed_of : List Event → List Resource
closed_of [] = []
closed_of (opened r ∷ es) = closed_of es
closed_of (closed r ∷ es) = r ∷ closed_of es

-- What a start leaves open for good: the client of a Redis that does not answer its ping.
abbrev pub left_open : Steps → List Resource
left_open s = if s.migrates && s.database_opens && not s.redis_pings then redis_client ∷ [] else []

-- After the events these are open, and the others were closed in the reverse order of their opening.
abbrev pub Leaves : List Resource → List Event → Type 0
Leaves left events =
    (open_after events [] ≡ some left) × (opened_of events ≡ reverse (closed_of events) ++ left)

-- What is open once `Build` has returned, and what after the clean-up of an application.
abbrev pub IsClean : List Resource → List Event × Result BuildError App → Type 0
IsClean left (events, err e) = Leaves left events
IsClean left (events, ok app) =
    (open_after events [] ≡ some app.cleanup) × Leaves left (close_app app)

IsClean-steps :
    (migrates database_opens redis_pings worker_starts translator_loads uploads_open : Bool)
    → let s : Steps = record {
      migrates = migrates;
      database_opens = database_opens;
      redis_pings = redis_pings;
      worker_starts = worker_starts;
      translator_loads = translator_loads;
      uploads_open = uploads_open;
    } in
      IsClean (left_open s) (build s)
unfolding build close_app open_after opened_of closed_of with_services
IsClean-steps false b c d e f = (refl, refl)
IsClean-steps true false c d e f = (refl, refl)
IsClean-steps true true false d e f = (refl, refl)
IsClean-steps true true true false e f = (refl, refl)
IsClean-steps true true true true false f = (refl, refl)
IsClean-steps true true true true true false = (refl, refl)
IsClean-steps true true true true true true = (refl, (refl, refl))

-- However the steps answer: if `Build` fails then what it opened is closed in the reverse order, but for the
-- client of a Redis that does not answer; if it succeeds then what is open is what the application cleans
-- up, and `Close` closes all of it in the reverse order.
pub build-IsClean : (s : Steps) → IsClean (left_open s) (build s)
build-IsClean s =
    IsClean-steps s.migrates s.database_opens s.redis_pings s.worker_starts s.translator_loads
      s.uploads_open

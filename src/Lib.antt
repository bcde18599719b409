-- ===== src/Lib.antt =====
-- LiteEnd-Go: a GraphQL and upload server. Its state is a Postgres table of profiles, one of uploads, a Redis
-- cache and a bucket of objects; requests pass the middleware, are authenticated, and reach a service. Profile
-- events and background jobs go through Redis.
--
-- The program's parts and the files that model them, by path from the repository's root:
--   Strings, Numbers, Net: the parts of `strings`, `unicode/utf8`, `strconv` and `net` that the source uses, on
--     texts that are lists of bytes. `TrimSpace` knows the ASCII white space, and `EqualFold` folds ASCII letters.
--   Http: requests and error responses; internal/httperr.
--   Middleware.RealIp: internal/middleware/realip.go and internal/clientip; `RealIP` rewrites the address
--     of a request, from which `ClientIP`, the budgets and the uploads take it.
--   Middleware.RateLimit: internal/middleware/ratelimit.go and internal/redis/limiter.go; `throttle`,
--     `RateKey`, `PerIP`. Middleware.BasicAuth: internal/middleware/basicauth.go.
--   Server: internal/server/server.go with internal/middleware/logging.go and recover.go; `serve` is the stack of
--     `New` from the request id to the recoverer, around any handler.
--   App.Routes, Build, Process: internal/app/app.go and cmd/server/main.go; the routes with `devGate`, what
--     `Build` and `Close` open and close, and the life of the process. App.Upload: `POST /upload` from the socket to
--     the store, over the middleware, the authentication and the handler.
--   Profile.Store: the four queries of internal/db/sqlc/profile.sql.go on a table, newest row first.
--   Profile.Service: internal/profile/service.go over the table and the calls of internal/redis; `World`
--     holds both, and every operation returns the next one. Its children are about the agreement of the cache
--     with the table (Coherence, Reads, Writes), the operations on the table alone (Refines), and histories of
--     requests, expiries and failures (History).
--   Profile.PubSub: internal/profile/pubsub.go; the table of subscribers and their channels, whose steps are the
--     sections under its lock. Table is about its well-formedness, History about every sequence of steps.
--   Db.Migrate, Trace: internal/db/migrate.go, tracer.go, enums.go and pool.go.
--   Logger: the redaction of internal/logger/logger.go.
--   Queue.Client, Worker: internal/queue/queue.go; what `AddTestJob` enqueues, and the chain around a handler.
--   Upload.Table, Links, Open, Filename, Process, Save, Handler: internal/db/sqlc/upload.sql.go and
--     internal/upload; `Service` keeps the signing client, `Store` the rows and the objects. The handler
--     reads a stream of parts, hands each to `ProcessFile`, and the files to `SaveMetadata`.
--   Auth.KeySet, Verifier, Resolve, Guards: internal/auth; the key set is a state machine whose step is one
--     call under its lock, `resolve` threads it and the profiles, and the guards read the user.
--   Graph.Avatar, Operations, Jobs, Subscriptions, Bridge: internal/graph/resolver, over the profiles, the uploads,
--     the queue and the guards; Bridge is the goroutine of a subscription as a step relation. Operations.Delivered follows an
--     update to the subscribers, at a process to which Redis hands its message and at one to which it does not.
--   Graph.Handshake, Pipeline, Transport, Errors: internal/graph/handler.go, errors.go and logging.go; what a
--     socket is opened with, what an operation meets before its resolver and in which order, and how its errors
--     are presented. The parser of queries is a parameter.
--   I18n: internal/i18n, and the resolver `TestTranslation`.
--   Config: internal/config; `Load` after the environment is read.
--   Health: internal/health; `Ready` with its kept verdict.
--   Base, Samples: shared types and lemmas; test data, as in every module Samples. A module Tests has a component's runs.
--
-- Parameters, for code that is not in the repository and for digests and encodings: `IpText` (the grammar of IP
-- addresses), `Codec` and `JobJson` (JSON of a profile and of a job, which decode what they encode), `Library`
-- (go-jose and go-oidc), `Reply` (redis_rate), `Broker` (asynq: an id that is held conflicts),
-- `Localizer` (go-i18n), `digest` (SHA-256,
-- without collisions where a property says so), `basic` (the header of Basic Auth), `Signing` and `Replies` (the
-- object store's and the database's answers, which may report a failure although the call took effect), `Pings`,
-- `Setup` and `Steps` (the answers at the start), `detect_mime` (content sniffing), `parse_url` and the text of a
-- number. `Faults` says which calls of one operation fail; each operation makes each call at most once.
--
-- Bounds: numbers are natural numbers, except the lifetime of links, whose 64-bit word wraps. Ids of profiles are
-- below 2^31, as SERIAL gives them. Time is a number of clock ticks that a call is given. No definition needs fuel:
-- every loop runs over a list or a stream, or down an index; the wait for the database counts down its attempts,
-- and the digits of an int32 are at most ten.
--
-- Not modelled: interleavings inside one operation, but for profile events and subscriptions, whose steps
-- interleave; the panic recovery of the event dispatcher, which is shown not to panic; the body of an answer after
-- a panic; security headers, CORS and compression, which configure libraries; the developer pages and
-- generated code; process I/O.
pub mod Base
pub mod Strings
pub mod Numbers
pub mod Net
pub mod Http
pub mod I18n
pub mod Middleware
pub mod Logger
pub mod Db
pub mod Profile
pub mod Queue
pub mod Upload
pub mod Auth
pub mod Config
pub mod Server
pub mod App
pub mod Health
pub mod Graph
mod Samples

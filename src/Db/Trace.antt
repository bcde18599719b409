-- ===== src/Db/Trace.antt =====
-- internal/db/tracer.go, enums.go and pool.go: what is logged of a query, and how a connection of the
-- pool is made. Durations are nanoseconds.
use lite_end_go.Base.{
  ℕ, ◌-◌, ◌/◌, ◌*◌, ◌≡◌, refl, Bool, true, false, Option, none, some, List, [], ◌∷◌, leb,
  if◌then◌else◌, Result, ok, err,
}
use lite_end_go.Strings.{Text, codes}
use lite_end_go.Logger.{Level, warn_level, error_level}

-- A call of pgx: the SQL with its arguments, and how it ends.
pub record Query : Type 0 where
  pub sql : Text
  pub args : List Text
  pub failure : Option Text

-- `traceStart`, which the context carries.
pub record TraceStart : Type 0 where
  pub at : ℕ
  pub sql : Text

-- A line of the log: level, message and the attributes.
pub record Line : Type 0 where
  pub level : Level
  pub message : Text
  pub sql : Text
  pub duration_ms : ℕ
  pub error : Option Text

abbrev pub millisecond : ℕ
millisecond = 1_000_000

abbrev pub db_slow_query_threshold : ℕ
db_slow_query_threshold = 200 * millisecond

-- `TraceQueryStart`.
unfoldable pub trace_query_start : ℕ → Query → TraceStart
trace_query_start now q = record { at = now; sql = q.sql }

abbrev pub line : Level → Text → TraceStart → ℕ → Option Text → Line
line level message started elapsed error = record {
  level = level;
  message = message;
  sql = started.sql;
  duration_ms = elapsed / millisecond;
  error = error;
}

abbrev pub traced : TraceStart → ℕ → Option Text → Option Line
traced started elapsed (some e) =
    some (line error_level (codes "db_query_failed") started elapsed (some e))
traced started elapsed none =
    if leb db_slow_query_threshold elapsed
    then some (line warn_level (codes "db_query_slow") started elapsed none)
    else none

-- `TraceQueryEnd`; without a start in the context there is nothing to say.
unfoldable pub trace_query_end : ℕ → Option TraceStart → Query → Option Line
trace_query_end now none q = none
trace_query_end now (some started) q = traced started (now - started.at) q.failure

-- Both calls around a query.
unfoldable pub trace : ℕ → ℕ → Query → Option Line
unfolding trace_query_start trace_query_end
trace start end q = trace_query_end end (some (trace_query_start start q)) q

abbrev pub enum_types : List Text
enum_types = codes "profile_role" ∷ codes "_profile_role" ∷ []

module _ {T : Type 0} (load : Text → List T → Option T) where
  -- `registerEnumTypes` on a connection, which keeps the types registered with it, latest first;
  -- `load` is `Conn.LoadType`, which sees them. The error names the type that it failed on.
  register_all : List Text → List T → Result Text (List T)
  register_all [] types = ok types
  register_all (name ∷ names) types = elim (load name types) [
    | none ↦ err name
    | some t ↦ register_all names (t ∷ types)
  ]

  unfoldable pub register_enum_types : List T → Result Text (List T)
  unfolding register_all
  register_enum_types types = register_all enum_types types

  pub register_enum_types-ok :
      (types : List T) (a b : T)
      → (load (codes "profile_role") types ≡ some a)
        × (load (codes "_profile_role") (a ∷ types) ≡ some b)
      → register_enum_types types ≡ ok (b ∷ a ∷ types)
  unfolding register_enum_types register_all
  register_enum_types-ok types a b (h, k) = rw (h, k) refl

-- What is set on the configuration that pgx parses from the database's URL.
pub record PoolConfig : Type 0 where
  pub max_conns : ℕ
  pub max_conn_idle_time : ℕ
  pub max_conn_lifetime : ℕ
  pub health_check_period : ℕ
  pub connect_timeout : ℕ
  -- `RuntimeParams["statement_timeout"]`, in milliseconds
  pub statement_timeout : ℕ

abbrev pub second : ℕ
second = 1_000_000_000

abbrev pub minute : ℕ
minute = 60 * second

-- `newPoolConfig`: whether the URL is parsed, and `DB_POOL_MAX`.
unfoldable pub new_pool_config : Bool → ℕ → Option PoolConfig
new_pool_config false db_pool_max = none
new_pool_config true db_pool_max = some (record {
  max_conns = db_pool_max;
  max_conn_idle_time = 30 * second;
  max_conn_lifetime = 60 * minute;
  health_check_period = minute;
  connect_timeout = 10 * second;
  statement_timeout = 30 * second / millisecond;
})

pub data DbError : Type 0 where
  parse_config create_pool ping_db : DbError

-- What a pool does in `New`.
pub data PoolCall : Type 0 where
  opened pinged closed : PoolCall

abbrev pub after_parse : Option PoolConfig → Bool → Bool → List PoolCall × Result DbError PoolConfig
after_parse none creates answers = ([], err parse_config)
after_parse (some c) creates answers =
    if creates
    then (if answers
        then (opened ∷ pinged ∷ [], ok c)
        else (opened ∷ pinged ∷ closed ∷ [], err ping_db))
    else ([], err create_pool)

-- `New`: the calls on the pool in order, and the configuration of the pool that is handed out.
unfoldable pub new_db :
    (parses creates answers : Bool) → ℕ → List PoolCall × Result DbError PoolConfig
unfolding new_pool_config
new_db parses creates answers db_pool_max =
    after_parse (new_pool_config parses db_pool_max) creates answers

-- ===== src/Health.antt =====
-- internal/health/health.go: readiness, with the verdict on the dependencies kept for a while. A ping is
-- what the client of the dependency answers.
pub mod Laws
mod Tests
use lite_end_go.Base.{
  ℕ, ◌-◌, ◌/◌, Bool, true, false, ◌&&◌, Option, none, some, List, [], ◌∷◌, ltb, if◌then◌else◌,
}
use lite_end_go.Strings.{Text, codes}

-- What comes of a ping: there may be no client, and the caller may hang up.
pub data Ping : Type 0 where
  not_configured pinged canceled unavailable : Ping

-- `checkResult`: the status, and the error where there is one.
pub record CheckResult : Type 0 where
  pub is_ok : Bool
  pub message : Text

-- `ping`.
unfoldable pub ping : Ping → CheckResult
ping not_configured = record { is_ok = false; message = codes "not configured" }
ping pinged = record { is_ok = true; message = [] }
ping canceled = record { is_ok = false; message = codes "canceled" }
ping unavailable = record { is_ok = false; message = codes "unavailable" }

-- The two dependencies of the map.
pub record Checks : Type 0 where
  pub database : CheckResult
  pub redis : CheckResult

-- `Checker`: its cached verdict, and when that was reached, in clock ticks.
pub record Checker : Type 0 where
  pub cache_for : ℕ
  pub cached : Option (Checks × ℕ)

-- One call: the clock before and after the pings, what they give, and whether the caller is gone by then.
pub record Call : Type 0 where
  pub now : ℕ
  pub done : ℕ
  pub database : Ping
  pub redis : Ping
  pub gone : Bool

unfoldable pub fresh_checks : Call → Checks
unfolding ping
fresh_checks c = record { database = ping c.database; redis = ping c.redis }

abbrev pub keep : Checker → Call → Checker
keep ch c = if c.gone then ch else record ch { cached = some (fresh_checks c, c.done) }

-- Whether the kept verdict is served, and which.
abbrev pub still_good : ℕ → ℕ → Option (Checks × ℕ) → Option Checks
still_good now cache_for none = none
still_good now cache_for (some (checks, at)) =
    if ltb (now - at) cache_for then some checks else none

-- `dependencies`.
unfoldable pub dependencies : Checker → Call → Checker × Checks
dependencies ch c = elim (still_good c.now ch.cache_for ch.cached) [
  | some checks ↦ (ch, checks)
  | none ↦ (keep ch c, fresh_checks c)
]

-- `memoryCheck`, of the bytes that the heap metric reads, where it is there.
unfoldable pub memory_check : Option ℕ → CheckResult
memory_check none = record { is_ok = true; message = [] }
memory_check (some heap) =
    if ltb 150 (heap / 1_048_576)
    then record { is_ok = false; message = codes "heap usage above threshold" }
    else record { is_ok = true; message = [] }

-- The answer of `Ready`: its code, and its entries.
pub record Readiness : Type 0 where
  pub code : ℕ
  pub is_ok : Bool
  pub checks : Checks
  pub memory : CheckResult

abbrev pub verdict : Checks → Bool
verdict checks = checks.database.is_ok && checks.redis.is_ok

-- `Ready`.
unfoldable pub ready : Checker → Call → Option ℕ → Checker × Readiness
unfolding dependencies memory_check
ready ch c heap =
    let (ch', checks) = dependencies ch c in
    (
      ch',
      record {
        code = if verdict checks then 200 else 503;
        is_ok = verdict checks;
        checks = checks;
        memory = memory_check heap;
      },
    )

-- ===== src/Db/Migrate.antt =====
-- internal/db/migrate.go: the wait for the database, and the migrations. What the calls answer is the
-- argument: `Pings` for the loop, `Setup` for what follows it. Times are nanoseconds.
pub mod Laws
use lite_end_go.Base.{
  ℕ, zero, suc, ◌+◌, ◌*◌, ◌%◌, Bool, true, false, List, [], ◌∷◌, ltb, if◌then◌else◌, Result, ok,
  err, ◌>>=◌, ◌>>◌,
}

abbrev pub second : ℕ
second = 1_000_000_000

abbrev pub db_retry_max_delay : ℕ
db_retry_max_delay = 5 * second

abbrev pub db_retry_base_delay : ℕ
db_retry_base_delay = second

abbrev pub db_max_retries : ℕ
db_max_retries = 5

-- By number of the attempt: whether the ping is answered, the number that `rand.Int64N` reduces, and
-- whether the context ends during the sleep.
pub record Pings : Type 0 where
  pub answers : ℕ → Bool
  pub draw : ℕ → ℕ
  pub cancelled : ℕ → Bool

-- How the loop is left.
pub data Left : Type 0 where
  reached unreached interrupted : Left

-- The end of the loop, the pings made, and the sleeps in order.
pub record Waited : Type 0 where
  pub left : Left
  pub pings : ℕ
  pub sleeps : List ℕ

-- `rand.Int64N(int64(delay)) + 1`.
abbrev pub jitter : ℕ → ℕ → ℕ
jitter draw delay = draw % delay + 1

-- `if delay *= 2; delay > max`.
unfoldable pub next_delay : ℕ → ℕ
next_delay delay = if ltb db_retry_max_delay (delay * 2) then db_retry_max_delay else delay * 2

abbrev pub after_sleep : ℕ → Waited → Waited
after_sleep wait w = record w { sleeps = wait ∷ w.sleeps }

abbrev pub ends : Left → ℕ → Waited
ends left pings = record { left = left; pings = pings; sleeps = [] }

-- The rounds that are left of the loop; the last error is that of the round before.
unfoldable pub wait_for_db : Pings → ℕ → ℕ → ℕ → Waited
unfolding next_delay
wait_for_db io zero attempt delay = ends unreached attempt
wait_for_db io (suc rounds) attempt delay =
    let wait = jitter (io.draw (suc attempt)) delay in
    let rest = wait_for_db io rounds (suc attempt) (next_delay delay) in
    if io.answers (suc attempt)
    then ends reached (suc attempt)
    else if io.cancelled (suc attempt)
    then after_sleep wait (ends interrupted (suc attempt))
    else after_sleep wait rest

-- The answers of the other calls; `up` gives the number of migrations that it applied.
pub record Setup : Type 0 where
  pub opens_files : Bool
  pub opens_db : Bool
  pub builds_locker : Bool
  pub builds_provider : Bool
  pub up : Result (Unit {0}) ℕ

pub data MigrateError : Type 0 where
  open_files open_db waiting not_reachable build_locker build_provider apply : MigrateError

abbrev pub check : Bool → MigrateError → Result MigrateError (Unit {0})
check b e = if b then ok tt else err e

abbrev pub up_result : Result (Unit {0}) ℕ → Result MigrateError ℕ
up_result (ok n) = ok n
up_result (err e) = err apply

-- After the loop.
unfoldable pub apply_all : Left → Setup → Result MigrateError ℕ
apply_all interrupted s = err waiting
apply_all unreached s = err not_reachable
apply_all reached s =
    check s.builds_locker build_locker >> (check s.builds_provider build_provider >> up_result s.up)

-- `Migrate`: the number of migrations that the log names.
unfoldable pub migrate : Pings → Setup → Result MigrateError ℕ
unfolding wait_for_db apply_all
migrate io s =
    check s.opens_files open_files
    >> (check s.opens_db open_db
        >> apply_all (wait_for_db io db_max_retries 0 db_retry_base_delay).left s)

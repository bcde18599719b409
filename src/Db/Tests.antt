-- ===== src/Db/Tests.antt =====
-- The database's start at concrete inputs.
use lite_end_go.Base.{
  ◌≡◌, ◌≤◌, ◌*◌, ◌↔◌, refl, true, false, none, some, [], ◌∷◌, length, leb, ◌==◌, ok,
}
use lite_end_go.Strings.{codes}
use lite_end_go.Logger.{warn_level}
use lite_end_go.Db.Migrate.{
  second, Pings, Setup, wait_for_db, migrate, db_max_retries, db_retry_base_delay, reached,
  interrupted,
}
use lite_end_go.Db.Migrate.Laws.{Jittered, total, wait_for_db-bounds, Answered, Applies, migrate-ok}
use lite_end_go.Db.Trace.{trace}

-- The database comes up at the third ping.
abbrev third : Pings
third = record { answers = λ n. leb 3 n; draw = λ n. 1_499_999_999; cancelled = λ n. false }

third_waits :
    wait_for_db third 5 0 second
    ≡ record { left = reached; pings = 3; sleeps = 500_000_000 ∷ 1_500_000_000 ∷ [] }
unfolding wait_for_db
third_waits = refl

abbrev never : Pings
never = record { answers = λ n. false; draw = λ n. 0; cancelled = λ n. n == 2 }

never_waits :
    wait_for_db never 5 0 second ≡ record { left = interrupted; pings = 2; sleeps = 1 ∷ 1 ∷ [] }
unfolding wait_for_db
never_waits = refl

abbrev fine : Setup
fine = record {
  opens_files = true;
  opens_db = true;
  builds_locker = true;
  builds_provider = true;
  up = ok 4;
}

wait_for_db-bounds_example :
    ((wait_for_db third db_max_retries 0 db_retry_base_delay).pings ≤ 5)
    × Jittered 0 (wait_for_db third db_max_retries 0 db_retry_base_delay).sleeps
    × (length (wait_for_db third db_max_retries 0 db_retry_base_delay).sleeps ≤ 5)
    × (total (wait_for_db third db_max_retries 0 db_retry_base_delay).sleeps ≤ 17 * second)
wait_for_db-bounds_example = wait_for_db-bounds third

migrate-ok_example :
    ((true ≡ true) × (true ≡ true) × Answered third db_max_retries 0 × Applies fine 4)
    ↔ (migrate third fine ≡ ok 4)
migrate-ok_example = migrate-ok third fine 4

slow_query :
    trace 5 400_000_005
      (record { sql = codes "SELECT $1"; args = codes "secret" ∷ []; failure = none })
    ≡ some (record {
      level = warn_level;
      message = codes "db_query_slow";
      sql = codes "SELECT $1";
      duration_ms = 400;
      error = none;
    })
unfolding trace
slow_query = refl

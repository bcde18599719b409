-- ===== src/Health/Tests.antt =====
-- Readiness at a concrete sequence of calls.
use lite_end_go.Base.{◌≡◌, ◌↔◌, ◌⊎◌, true, false, none, some, [], ◌∷◌}
use lite_end_go.Health.{pinged, unavailable, Checker, Call, fresh_checks, ready}
use lite_end_go.Health.Laws.{Run, MadeBy, ready-MadeBy}

abbrev first_call : Call
first_call = record { now = 10; done = 12; database = pinged; redis = pinged; gone = false }

-- Redis is down by the second call, within the cache time.
abbrev second_call : Call
second_call = record { now = 20; done = 21; database = pinged; redis = unavailable; gone = false }

abbrev empty_checker : Checker
empty_checker = record { cache_for = 1000; cached = none }

abbrev checker : Checker
checker = (ready empty_checker first_call none).0

ready-MadeBy_example :
    (((ready checker second_call (some 0)).1.code ≡ 200) ↔ (
      ((ready checker second_call (some 0)).1.checks.database.is_ok ≡ true)
      × ((ready checker second_call (some 0)).1.checks.redis.is_ok ≡ true)))
    × (((ready checker second_call (some 0)).1.checks ≡ fresh_checks second_call)
        ⊎ MadeBy 20 1000 (ready checker second_call (some 0)).1.checks (first_call ∷ []))
ready-MadeBy_example =
    ready-MadeBy 1000 checker (first_call ∷ []) second_call (some 0)
      (Run.call first_call none Run.start)

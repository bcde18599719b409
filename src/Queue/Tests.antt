-- ===== src/Queue/Tests.antt =====
-- Jobs at concrete inputs.
use lite_end_go.Base.{arith, ℕ, ◌<◌, ◌↔◌, ◌≡◌, refl, some, List, [], ◌∷◌, ◌++◌}
use lite_end_go.Strings.{Text, codes, one_of}
use lite_end_go.Logger.{info_level, error_level}
use lite_end_go.Queue.{task_type_test, Task}
use lite_end_go.Queue.Samples.{sample_json, sample_broker, plain}
use lite_end_go.Queue.Client.{test_job_task_id, add_job, add_job-dedup}
use lite_end_go.Queue.Worker.{
  Handler, job_logger, process_task, returned, panicked, line_of, job_started,
}
use lite_end_go.Queue.Worker.Laws.{ending_of, last_line, process_task-Surrounds}

abbrev hello : Text
hello = codes "hello"

abbrev after_hello : List Text
after_hello = (add_job plain sample_json sample_broker [] (codes "noon") (codes "r1") 7 hello).0

add_job-dedup_example :
    ((date' request_id' : Text)
      → (add_job plain sample_json sample_broker after_hello date' request_id' 7 hello).0
        ≡ after_hello)
    × ((v : ℕ) (n : Text)
        → v < 2_147_483_648
        → ((7 ≡ v) × (hello ≡ n) → ⊥)
        → one_of (test_job_task_id plain v n) after_hello ≡ one_of (test_job_task_id plain v n) [])
unfolding one_of
add_job-dedup_example =
    add_job-dedup plain sample_json sample_broker [] (λ s t h. h) (codes "noon") (codes "r1") 7
      hello (omega arith) refl

-- A handler that panics.
abbrev broken : Handler
broken log t = ([], panicked (codes "nil map"))

abbrev a_task : Task
a_task = record { task_type = task_type_test; id = codes "t1"; payload = [] }

process_task-Surrounds_example :
    (process_task sample_json broken a_task ≡ (
      line_of (job_logger sample_json a_task) info_level job_started
          ∷ ((broken (job_logger sample_json a_task) a_task).0
              ++ last_line
                  (job_logger sample_json a_task)
                  (broken (job_logger sample_json a_task) a_task).1
                ∷ []),
      returned (ending_of a_task (broken (job_logger sample_json a_task) a_task).1),
    ))
    × ((last_line
            (job_logger sample_json a_task)
            (broken (job_logger sample_json a_task) a_task).1).level
          ≡ error_level
        ↔ ((e : Text) × (ending_of a_task (broken (job_logger sample_json a_task) a_task).1
              ≡ some e)))
process_task-Surrounds_example = process_task-Surrounds sample_json broken a_task

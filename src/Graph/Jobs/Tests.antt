-- ===== src/Graph/Jobs/Tests.antt =====
-- Jobs of a caller at concrete inputs.
use lite_end_go.Base.{◌≡◌, refl, true, some, List, [], ◌∷◌, ok}
use lite_end_go.Strings.{Text, codes, one_of, rune_count}
use lite_end_go.Numbers.{format_int}
use lite_end_go.Middleware.RateLimit.{counted, allow}
use lite_end_go.Auth.Samples.{alice_profile}
use lite_end_go.Auth.Guards.{require}
use lite_end_go.Queue.Samples.{plain, sample_json, sample_broker}
use lite_end_go.Queue.Client.{test_job_task_id, add_job, answer_of, test_job}
use lite_end_go.Graph.Jobs.{JobMoment, JobOutcome, add_test_job}
use lite_end_go.Graph.Jobs.Laws.{Queues, add_test_job-Queues}

abbrev moment : JobMoment
moment = record {
  has_queue = true;
  quota = some (counted 1 0);
  date = codes "noon";
  request_id = codes "r1";
}

abbrev hello : Text
hello = codes "hello"

abbrev first : JobOutcome (List Text)
first = add_test_job plain sample_json sample_broker moment [] (some alice_profile) hello

first_queued :
    first ≡ record { jobs = codes "dedup:test:1:hello" ∷ []; charged = true; result = ok true }
unfolding add_test_job add_job answer_of test_job test_job_task_id one_of require rune_count allow
    format_int
first_queued = refl

-- The repetition spends an event of the quota, and is answered as the first call.
repetition :
    add_test_job plain sample_json sample_broker moment first.jobs (some alice_profile) hello
    ≡ record { jobs = codes "dedup:test:1:hello" ∷ []; charged = true; result = ok true }
unfolding add_test_job add_job answer_of test_job test_job_task_id one_of require rune_count allow
    format_int
repetition = refl

add_test_job-Queues_example :
    Queues plain sample_json sample_broker moment [] (some alice_profile) hello first
add_test_job-Queues_example =
    add_test_job-Queues plain sample_json sample_broker moment [] (some alice_profile) hello

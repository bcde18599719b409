-- ===== src/Queue/Worker/Laws.antt =====
-- What surrounds a handler sees to, whatever the handler does.
use lite_end_go.Base.{
  ℕ, ◌≡◌, refl, ap, ◌∙◌, ◌↔◌, true, Option, none, some, List, [], ◌∷◌, ◌++◌, length, map,
}
use lite_end_go.Strings.{Text}
use lite_end_go.Logger.{Level, error_level}
use lite_end_go.Queue.{task_type_test, TestJobPayload, JobJson, Task}
use lite_end_go.Queue.Client.{test_job, test_job_task_id}
use lite_end_go.Queue.Worker.{
  JobLogger, job_started, job_finished, job_panic, Line, Ending, returned, panicked, Handler,
  line_of, panic_error, recovered, recoverer, finish_line, with_access, access_log, non_empty,
  payload_request_id, job_logger, process_task, handle_test, handle_payload, or_empty, processing,
  finished,
}

-- How a job ends for asynq, by how its handler ends: a panic is an error.
abbrev pub ending_of : Task → Ending → Option Text
ending_of t (returned e) = e
ending_of t (panicked v) = some (panic_error t.task_type v)

-- The last line that the chain adds to the handler's.
abbrev pub last_line : JobLogger → Ending → Line
last_line log (returned e) = finish_line log e
last_line log (panicked v) = line_of log error_level (job_panic v)

surrounded :
    (log : JobLogger) (t : Task) (r : List Line × Ending)
    → recovered log t (with_access log r) ≡ (
      line_of log Level.info_level job_started ∷ (r.0 ++ last_line log r.1 ∷ []),
      returned (ending_of t r.1),
    )
surrounded log t (lines, returned e) = refl
surrounded log t (lines, panicked v) = refl

-- Whatever a handler does, its job returns: the handler's own result, or an error that names the task's
-- type if it panicked; and the lines are the handler's, between one of the start and one of the end,
-- which has the level of an error exactly if the job fails.
pub process_task-Surrounds :
    (json : JobJson) (next : Handler) (t : Task)
    → (process_task json next t ≡ (
      line_of (job_logger json t) Level.info_level job_started
          ∷ ((next (job_logger json t) t).0
              ++ last_line (job_logger json t) (next (job_logger json t) t).1 ∷ []),
      returned (ending_of t (next (job_logger json t) t).1),
    ))
      × ((last_line (job_logger json t) (next (job_logger json t) t).1).level ≡ error_level
          ↔ ((e : Text) × (ending_of t (next (job_logger json t) t).1 ≡ some e)))
unfolding process_task recoverer access_log
process_task-Surrounds json next t = (
  surrounded (job_logger json t) t (next (job_logger json t) t),
  ends (next (job_logger json t) t).1,
)
  where
    ends :
        (r : Ending)
        → (last_line (job_logger json t) r).level ≡ error_level
          ↔ ((e : Text) × (ending_of t r ≡ some e))
    ends (returned none) = (λ h. cc, λ (e, h). cc)
    ends (returned (some e)) = (λ h. (e, refl), λ h. refl)
    ends (panicked v) = (λ h. (panic_error t.task_type v, refl), λ h. refl)

abbrev pub logger_of : (Text → Text) → ℕ → Text → Text → JobLogger
logger_of digest u m request_id = record {
  job_type = task_type_test;
  task_id = test_job_task_id digest u m;
  request_id = non_empty request_id;
}

-- A test job that `AddTestJob` makes in a request is processed without an error, in four lines. Each
-- line names the job's id and the request, and of the message the lines tell the length alone.
pub process_task-test_job :
    (digest : Text → Text) (json : JobJson) (date request_id : Text) (u : ℕ) (m : Text)
    → process_task json (handle_test json) (test_job digest json date request_id u m) ≡ (
      map
          (line_of (logger_of digest u m request_id) Level.info_level)
          (job_started ∷ processing (length m) date ∷ finished (length m) ∷ job_finished true ∷ []),
      returned none,
    )
unfolding process_task recoverer access_log job_logger payload_request_id handle_test test_job
process_task-test_job digest json date request_id u m =
    ap
      (λ r. recovered (logger_with r) the_job (
        with_access (logger_with r)
          (handle_payload json (logger_with r) (json.decode the_job.payload))))
      (json.request_id-encode the_payload)
    ∙ ap
        (λ p. recovered (logger_of digest u m request_id) the_job (
          with_access (logger_of digest u m request_id)
            (handle_payload json (logger_of digest u m request_id) p)))
        (json.decode-encode the_payload)
  where
    the_payload : TestJobPayload
    the_payload = record { message = m; date = date; request_id = request_id }

    the_job : Task
    the_job = test_job digest json date request_id u m

    logger_with : Option Text → JobLogger
    logger_with r = record {
      job_type = task_type_test;
      task_id = test_job_task_id digest u m;
      request_id = non_empty (or_empty r);
    }

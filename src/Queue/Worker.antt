-- ===== src/Queue/Worker.antt =====
-- `Worker`: what surrounds a handler of jobs. A handler logs lines, and returns or panics.
pub mod Laws
use lite_end_go.Base.{
  ℕ, ◌≡◌, Bool, true, false, Option, none, some, List, [], ◌∷◌, ◌++◌, is_empty, if◌then◌else◌,
  length,
}
use lite_end_go.Strings.{Text, codes}
use lite_end_go.Logger.{Level, debug_level, info_level, warn_level, error_level}
use lite_end_go.Queue.{task_type_test, TestJobPayload, JobJson, Task}

-- A logger as the attributes that it adds, a line with them, and what a handler does.
pub record JobLogger : Type 0 where
  pub job_type : Text
  pub task_id : Text
  pub request_id : Option Text

pub data Event : Type 0 where
  job_started : Event
  job_finished : Bool → Event
  job_panic : Text → Event
  job_failed : (attempt max_retry : ℕ) → Text → Event
  processing : (message_len : ℕ) → Text → Event
  finished : (message_len : ℕ) → Event

pub record Line : Type 0 where
  pub logger : JobLogger
  pub level : Level
  pub event : Event

pub data Ending : Type 0 where
  returned : Option Text → Ending
  panicked : Text → Ending

abbrev pub Handler : Type 0
Handler = JobLogger → Task → List Line × Ending

abbrev pub line_of : JobLogger → Level → Event → Line
line_of log level event = record { logger = log; level = level; event = event }

-- The error that a panic is turned into.
abbrev pub panic_error : Text → Text → Text
panic_error task_type value = codes "panic in job " ++ (task_type ++ (codes ": " ++ value))

abbrev pub recovered : JobLogger → Task → List Line × Ending → List Line × Ending
recovered log t (lines, returned e) = (lines, returned e)
recovered log t (lines, panicked v) = (
  lines ++ line_of log error_level (job_panic v) ∷ [],
  returned (some (panic_error t.task_type v)),
)

-- `recoverer`.
unfoldable pub recoverer : Handler → Handler
recoverer next log t = recovered log t (next log t)

abbrev pub finish_line : JobLogger → Option Text → Line
finish_line log none = line_of log info_level (job_finished true)
finish_line log (some e) = line_of log error_level (job_finished false)

abbrev pub with_access : JobLogger → List Line × Ending → List Line × Ending
with_access log (lines, returned e) =
    (line_of log info_level job_started ∷ (lines ++ finish_line log e ∷ []), returned e)
with_access log (lines, panicked v) = (line_of log info_level job_started ∷ lines, panicked v)

-- `accessLog`; a panic leaves it before its second line.
unfoldable pub access_log : Handler → Handler
access_log next log t = with_access log (next log t)

abbrev pub or_empty : Option Text → Text
or_empty none = []
or_empty (some s) = s

abbrev pub non_empty : Text → Option Text
non_empty [] = none
non_empty (c ∷ s) = some (c ∷ s)

module _ (json : JobJson) where
  -- `payloadRequestID`.
  unfoldable pub payload_request_id : Text → Text
  payload_request_id payload = or_empty (json.decode_request_id payload)

  -- `jobLogger`: the logger that the job's handler is given.
  unfoldable pub job_logger : Task → JobLogger
  unfolding payload_request_id
  job_logger t = record {
    job_type = t.task_type;
    task_id = t.id;
    request_id = non_empty (payload_request_id t.payload);
  }

  -- The chain that `Start` sets around a handler, outermost first.
  unfoldable pub process_task : Handler → Task → List Line × Ending
  unfolding job_logger recoverer access_log
  process_task next t = recoverer (access_log next) (job_logger t) t

  abbrev pub handle_payload : JobLogger → Option TestJobPayload → List Line × Ending
  handle_payload log none = ([], returned (some (codes "unmarshal test payload")))
  handle_payload log (some p) = (
    line_of log info_level (processing (length p.message) p.date)
        ∷ line_of log info_level (finished (length p.message))
        ∷ [],
    returned none,
  )

  -- `handleTest`.
  unfoldable pub handle_test : Handler
  handle_test log t = handle_payload log (json.decode t.payload)

  -- `errorHandler`, which is outside that chain and names the request again.
  unfoldable pub error_handler : Task → ℕ → ℕ → Text → Line
  unfolding payload_request_id
  error_handler t retried max_retry e =
      line_of
        (record {
          job_type = t.task_type;
          task_id = t.id;
          request_id = some (payload_request_id t.payload);
        })
        error_level (job_failed retried max_retry e)

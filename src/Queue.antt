-- ===== src/Queue.antt =====
-- internal/queue/queue.go: background jobs. asynq and the encodings are parameters: `Broker` is what
-- Redis keeps of the tasks, `JobJson` the JSON of a payload, `digest` SHA-256 in hexadecimal.
pub mod Client
pub mod Worker
pub mod Samples
mod Tests
use lite_end_go.Base.{ℕ, ◌≡◌, ◌≢◌, Bool, true, false, Option, none, some, List, [], ◌∷◌}
use lite_end_go.Strings.{Text, codes}

abbrev pub task_type_test : Text
task_type_test = codes "test:job"

-- `TestJobPayload`.
pub record TestJobPayload : Type 0 where
  pub message : Text
  pub date : Text
  pub request_id : Text

-- The payload of any task read for its `request_id` alone is the second decoder.
pub record JobJson : Type 0 where
  pub encode : TestJobPayload → Text
  pub decode : Text → Option TestJobPayload
  pub decode_request_id : Text → Option Text
  pub decode-encode : (p : TestJobPayload) → decode (encode p) ≡ some p
  pub request_id-encode : (p : TestJobPayload) → decode_request_id (encode p) ≡ some p.request_id

-- An asynq task with its id.
pub record Task : Type 0 where
  pub task_type : Text
  pub id : Text
  pub payload : Text

-- How `EnqueueContext` answers.
pub data Enqueued : Type 0 where
  queued id_conflict duplicate_task : Enqueued
  enqueue_failed : Text → Enqueued

-- asynq's tasks: an id is held from the enqueueing of its task until its retention is over, and a task
-- of an id that is held is a conflict. A call may fail instead of either. `ErrDuplicateTask` needs the option
-- `Unique`, which no call sets.
pub record Broker : Type 1 where
  pub Tasks : Type 0
  pub holds : Tasks → Text → Bool
  pub enqueue : Tasks → Task → Tasks × Enqueued
  pub held_conflict :
      (ts : Tasks) (t : Task)
      → holds ts t.id ≡ true
      → ((enqueue ts t).0 ≡ ts) × ((enqueue ts t).1 ≢ queued)
  pub queued_holds :
      (ts : Tasks) (t : Task)
      → (enqueue ts t).1 ≡ queued
      → (holds (enqueue ts t).0 t.id ≡ true)
        × ((id : Text) → t.id ≢ id → holds (enqueue ts t).0 id ≡ holds ts id)
  pub conflict_held :
      (ts : Tasks) (t : Task) → (enqueue ts t).1 ≡ id_conflict → holds ts t.id ≡ true
  pub no_duplicate : (ts : Tasks) (t : Task) → (enqueue ts t).1 ≢ duplicate_task

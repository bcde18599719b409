-- ===== src/Queue/Client.antt =====
-- `Client.AddTestJob`: a job of a user and a message, at most once while its id is held.
use lite_end_go.Base.{ℕ, ◌<◌, ◌≡◌, sym, ap, ◌∙◌, false, some, [], ◌∷◌, ◌++◌, arith, Result, ok, err}
use lite_end_go.Strings.{Text, codes, cut_byte, has_byte}
use lite_end_go.Strings.Laws.{cut_byte-append}
use lite_end_go.Numbers.{pos, format_int, parse_int32}
use lite_end_go.Numbers.Laws.{format_int-Decimal, Decimal-no_byte, parse_int32-format_int}
use lite_end_go.Queue.{
  task_type_test, JobJson, Task, Enqueued, queued, id_conflict, duplicate_task, enqueue_failed,
  Broker,
}

abbrev pub job_text : ℕ → Text → Text
job_text user_id message = format_int user_id ++ b':' ∷ message

-- `testJobTaskID`.
unfoldable pub test_job_task_id : (Text → Text) → ℕ → Text → Text
test_job_task_id digest user_id message = codes "dedup:test:" ++ digest (job_text user_id message)

-- A conflict means that the same message is queued already, which is a success.
unfoldable pub enqueue_result : Enqueued → Result Text (Unit {0})
enqueue_result queued = ok tt
enqueue_result id_conflict = ok tt
enqueue_result duplicate_task = ok tt
enqueue_result (enqueue_failed e) = err e

unfoldable pub answer_of : {T : Type 0} → T × Enqueued → T × Result Text (Unit {0})
unfolding enqueue_result
answer_of (tasks, reply) = (tasks, enqueue_result reply)

module _ (digest : Text → Text) (json : JobJson) where
  -- The task of a call at a date, in a request.
  unfoldable pub test_job : Text → Text → ℕ → Text → Task
  unfolding test_job_task_id
  test_job date request_id user_id message = record {
    task_type = task_type_test;
    id = test_job_task_id digest user_id message;
    payload = json.encode (record { message = message; date = date; request_id = request_id });
  }

  -- `AddTestJob`; the JSON of three texts cannot fail.
  unfoldable pub add_job :
      (broker : Broker)
      → broker.Tasks
      → Text
      → Text
      → ℕ
      → Text
      → broker.Tasks × Result Text (Unit {0})
  unfolding test_job answer_of
  add_job broker tasks date request_id user_id message =
      answer_of (broker.enqueue tasks (test_job date request_id user_id message))

append-inj : (s : Text) {t u : Text} → s ++ t ≡ s ++ u → t ≡ u
append-inj [] h = h
append-inj (c ∷ s) h = append-inj s (tail h)
  where
    tail : {x y : Text} → c ∷ x ≡ c ∷ y → x ≡ y
    tail k = cc

some-inj {κ} : {A : Type κ} {x y : A} → some x ≡ some y → x ≡ y
some-inj k = cc

-- A user and a message are read back from the text that is digested.
job_text-inj :
    (u v : ℕ) (m n : Text)
    → u < 2_147_483_648
    → v < 2_147_483_648
    → job_text u m ≡ job_text v n
    → (u ≡ v) × (m ≡ n)
job_text-inj u v m n hu hv h =
    let cut =
      sym (cut_byte-append (format_int u) m b':' (no_colon u))
      ∙ ap (λ s. cut_byte s b':') h
      ∙ cut_byte-append (format_int v) n b':' (no_colon v) in
    (
      pos-inj (
          some-inj (
            sym (parse_int32-format_int u hu)
            ∙ ap parse_int32 (ap (λ p. p.0) cut)
            ∙ parse_int32-format_int v hv)),
      some-inj (ap (λ p. p.1) cut),
    )
  where
    no_colon : (k : ℕ) → has_byte (format_int k) b':' ≡ false
    no_colon k = Decimal-no_byte (format_int k) b':' (format_int-Decimal k) (omega arith)

    pos-inj : {x y : ℕ} → pos x ≡ pos y → x ≡ y
    pos-inj k = cc

-- With a digest without collisions, two jobs have the same id only for the same user and message.
pub test_job_task_id-inj :
    (digest : Text → Text)
    → ((s t : Text) → digest s ≡ digest t → s ≡ t)
    → (u v : ℕ) (m n : Text) → u < 2_147_483_648
    → v < 2_147_483_648
    → test_job_task_id digest u m ≡ test_job_task_id digest v n
    → (u ≡ v) × (m ≡ n)
unfolding test_job_task_id
test_job_task_id-inj digest no_collision u v m n hu hv h =
    job_text-inj u v m n hu hv
      (no_collision (job_text u m) (job_text v n) (append-inj (codes "dedup:test:") h))

-- With a digest without collisions, once a job of a user and a message is queued, and until its id is
-- given up, adding it again, at any date and in any request, queues nothing; whether the id of any
-- other user or message is held is as before.
pub add_job-dedup :
    (digest : Text → Text) (json : JobJson) (broker : Broker) (tasks : broker.Tasks)
    → ((s t : Text) → digest s ≡ digest t → s ≡ t)
    → (date request_id : Text) (u : ℕ) (m : Text) → u < 2_147_483_648
    → (broker.enqueue tasks (test_job digest json date request_id u m)).1 ≡ queued
    → ((date' request_id' : Text)
        → (add_job digest json broker
            (add_job digest json broker tasks date request_id u m).0
            date'
            request_id'
            u
            m).0
          ≡ (add_job digest json broker tasks date request_id u m).0)
      × ((v : ℕ) (n : Text)
          → v < 2_147_483_648
          → ((u ≡ v) × (m ≡ n) → ⊥)
          → broker.holds
              (add_job digest json broker tasks date request_id u m).0
              (test_job_task_id digest v n)
            ≡ broker.holds tasks (test_job_task_id digest v n))
unfolding add_job test_job answer_of
add_job-dedup digest json broker tasks no_collision date request_id u m hu h =
    let (held, others) = broker.queued_holds tasks (test_job digest json date request_id u m) h in
    (
      λ date' request_id'.
          (broker.held_conflict _ (test_job digest json date' request_id' u m) held).0,
      λ v n hv differ.
          others (test_job_task_id digest v n)
            (λ e. differ (test_job_task_id-inj digest no_collision u v m n hu hv e)),
    )

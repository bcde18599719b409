-- ===== src/Graph/Jobs/Laws.antt =====
-- What an answer of `AddTestJob` says of the queue.
use lite_end_go.Base.{
  ◌≡◌, ◌≤◌, refl, sym, ap, ◌∙◌, ◌⊎◌, inl, inr, Bool, true, false, Option, none, some, ltb,
  ltb-false→le, Bool-cases, Result, ok, err,
}
use lite_end_go.Strings.{Text, rune_count}
use lite_end_go.Profile.Store.{Profile}
use lite_end_go.Auth.Guards.{require}
use lite_end_go.Queue.{
  JobJson, Broker, Task, Enqueued, queued, id_conflict, duplicate_task, enqueue_failed,
}
use lite_end_go.Queue.Client.{test_job_task_id, test_job, add_job, enqueue_result, answer_of}
use lite_end_go.Graph.Avatar.{GraphError}
use lite_end_go.Graph.Jobs.{
  JobOutcome, JobMoment, over_budget, is_some_reply, enqueued_as, add_test_job,
}

enqueued_as-jobs :
    {Tasks : Type 0} (charged : Bool) (x : Tasks × Result Text (Unit {0}))
    → (enqueued_as charged x).jobs ≡ x.0
enqueued_as-jobs charged (tasks, ok done) = refl
enqueued_as-jobs charged (tasks, err e) = refl

module _ (digest : Text → Text) (json : JobJson) (broker : Broker) where
  abbrev pub held : broker.Tasks → Profile → Text → Bool
  held tasks u message = broker.holds tasks (test_job_task_id digest u.id message)

  abbrev pub added :
      JobMoment → broker.Tasks → Profile → Text → broker.Tasks × Result Text (Unit {0})
  added m jobs u message = add_job digest json broker jobs m.date m.request_id u.id message

  -- A task that the broker takes, or has, is held afterwards.
  enqueue-holds :
      (ts : broker.Tasks) (t : Task) (reply : Enqueued)
      → (broker.enqueue ts t).1 ≡ reply
      → enqueue_result reply ≡ ok tt
      → broker.holds (broker.enqueue ts t).0 t.id ≡ true
  unfolding enqueue_result
  enqueue-holds ts t queued e h = (broker.queued_holds ts t e).0
  enqueue-holds ts t id_conflict e h =
      let before = broker.conflict_held ts t e in
      ap (λ after. broker.holds after t.id) (broker.held_conflict ts t before).0 ∙ before
  enqueue-holds ts t duplicate_task e h = absurd (broker.no_duplicate ts t e)
  enqueue-holds ts t (enqueue_failed x) e h = cc

  added-holds :
      (m : JobMoment) (jobs : broker.Tasks) (u : Profile) (message : Text)
      → (added m jobs u message).1 ≡ ok tt
      → held (added m jobs u message).0 u message ≡ true
  unfolding add_job answer_of test_job
  added-holds m jobs u message h =
      enqueue-holds jobs (test_job digest json m.date m.request_id u.id message) _ refl h

  -- Adding a job whose id is held leaves the queue as it is.
  added-held :
      (m : JobMoment) (jobs : broker.Tasks) (u : Profile) (message : Text)
      → held jobs u message ≡ true
      → (added m jobs u message).0 ≡ jobs
  unfolding add_job answer_of test_job
  added-held m jobs u message h =
      (broker.held_conflict jobs (test_job digest json m.date m.request_id u.id message) h).0

  -- A repeated call, whatever it meets, adds nothing while the id of its job is held.
  add_test_job-held :
      (m : JobMoment) (jobs : broker.Tasks) (u : Profile) (message : Text)
      → held jobs u message ≡ true
      → (add_test_job digest json broker m jobs (some u) message).jobs ≡ jobs
  unfolding add_test_job require
  add_test_job-held m jobs u message h = elim (Bool-cases (ltb 512 (rune_count message))) [
    | inl long ↦ rw long refl
    | inr short ↦ elim (Bool-cases m.has_queue) [
      | inr missing ↦ rw (short, missing) refl
      | inl there ↦ elim (Bool-cases (over_budget m.quota)) [
        | inl over ↦ rw (short, there, over) refl
        | inr under ↦
            rw (short, there, under)
              (enqueued_as-jobs (is_some_reply m.quota) (added m jobs u message)
                ∙ added-held m jobs u message h)
      ]
    ]
  ]

  -- What a good answer means.
  pub record IsQueued (m : JobMoment) (jobs : broker.Tasks) (user : Option Profile) (message : Text)
      (after : broker.Tasks) : Type 0 where
    pub u : Profile
    pub caller : user ≡ some u
    pub fits : rune_count message ≤ 512
    pub in_budget : over_budget m.quota ≡ false
    pub queue : after ≡ (added m jobs u message).0
    pub is_held : held after u message ≡ true
    pub again :
        (m' : JobMoment) → (add_test_job digest json broker m' after user message).jobs ≡ after

  -- What the failure of the enqueuing means.
  pub record IsBroken (m : JobMoment) (jobs : broker.Tasks) (user : Option Profile) (message : Text)
      (after : broker.Tasks) : Type 0 where
    pub u : Profile
    pub caller : user ≡ some u
    pub queue : after ≡ (added m jobs u message).0
    pub reason : Text
    pub failing : (added m jobs u message).1 ≡ err reason

  abbrev pub Answers :
      JobMoment
      → broker.Tasks
      → Option Profile
      → Text
      → broker.Tasks
      → Result GraphError Bool
      → Type 0
  Answers m jobs user message after (ok answer) = IsQueued m jobs user message after
  Answers m jobs user message after (err e) = (after ≡ jobs) ⊎ IsBroken m jobs user message after

  abbrev pub Queues :
      JobMoment → broker.Tasks → Option Profile → Text → JobOutcome broker.Tasks → Type 0
  Queues m jobs user message x = Answers m jobs user message x.jobs x.result

  enqueued_as-Queues :
      (m : JobMoment) (jobs : broker.Tasks) (u : Profile) (message : Text) (charged : Bool)
      (x : broker.Tasks × Result Text (Unit {0}))
      → rune_count message ≤ 512
      → over_budget m.quota ≡ false
      → x ≡ added m jobs u message
      → Queues m jobs (some u) message (enqueued_as charged x)
  enqueued_as-Queues m jobs u message charged (after, ok tt) fits under e =
      let same_queue : after ≡ (added m jobs u message).0 = ap (λ y. y.0) e in
      let is_held =
        ap (λ q. held q u message) same_queue
        ∙ added-holds m jobs u message (sym (ap (λ y. y.1) e)) in
      record {
        u = u;
        caller = refl;
        fits = fits;
        in_budget = under;
        queue = same_queue;
        is_held = is_held;
        again = λ m'. add_test_job-held m' after u message is_held;
      }
  enqueued_as-Queues m jobs u message charged (after, err reason) fits under e = inr (record {
    u = u;
    caller = refl;
    queue = ap (λ y. y.0) e;
    reason = reason;
    failing = sym (ap (λ y. y.1) e);
  })

  -- On a good answer the caller is authenticated, the message has at most 512 characters, the budget allows it,
  -- the job of the caller and the message is held in the queue, and while that is so no repetition of the
  -- call adds anything; on a bad answer the queue is as it was, or its client reported a failure.
  pub add_test_job-Queues :
      (m : JobMoment) (jobs : broker.Tasks) (user : Option Profile) (message : Text)
      → Queues m jobs user message (add_test_job digest json broker m jobs user message)
  unfolding add_test_job require
  add_test_job-Queues m jobs none message = inl refl
  add_test_job-Queues m jobs (some u) message = elim (Bool-cases (ltb 512 (rune_count message))) [
    | inl long ↦ rw long (inl refl)
    | inr short ↦ elim (Bool-cases m.has_queue) [
      | inr missing ↦ rw (short, missing) (inl refl)
      | inl there ↦ elim (Bool-cases (over_budget m.quota)) [
        | inl over ↦ rw (short, there, over) (inl refl)
        | inr under ↦
            simp (short, there, under)
              (enqueued_as-Queues m jobs u message (is_some_reply m.quota) (added m jobs u message)
                (ltb-false→le _ _ short) under refl)
      ]
    ]
  ]

-- ===== src/Queue/Samples.antt =====
-- A broker and encodings for runs of the queue: the tasks are the ids that are held.
use lite_end_go.Base.{
  ◌≡◌, ◌≢◌, refl, sym, ap, ◌∙◌, inl, inr, Bool, true, false, some, List, [], ◌∷◌, Bool-cases,
}
use lite_end_go.Strings.{Text, same, one_of}
use lite_end_go.Strings.Laws.{same_iff, same_refl}
use lite_end_go.Samples.{write_text, read_text, take-length, drop-length}
use lite_end_go.Queue.{
  TestJobPayload, JobJson, Task, Enqueued, queued, id_conflict, duplicate_task, Broker,
}

abbrev write_job : TestJobPayload → Text
write_job p = write_text p.message (write_text p.date (write_text p.request_id []))

abbrev read_job : Text → TestJobPayload
read_job s0 =
    let (message, s1) = read_text s0 in
    let (date, s2) = read_text s1 in
    let (request_id, s3) = read_text s2 in
    record { message = message; date = date; request_id = request_id }

pub read_job-write_job : (p : TestJobPayload) → read_job (write_job p) ≡ p
read_job-write_job p = rw (
  take-length p.message (write_text p.date (write_text p.request_id [])),
  drop-length p.message (write_text p.date (write_text p.request_id [])),
  take-length p.date (write_text p.request_id []),
  drop-length p.date (write_text p.request_id []),
  take-length p.request_id [],
)

abbrev pub sample_json : JobJson
sample_json = record {
  encode = write_job;
  decode = λ s. some (read_job s);
  decode_request_id = λ s. some (read_job s).request_id;
  decode-encode = λ p. ap some (read_job-write_job p);
  request_id-encode = λ p. ap (λ q. some q.request_id) (read_job-write_job p);
}

abbrev enqueue_id : Bool → List Text → Text → List Text × Enqueued
enqueue_id true ids id = (ids, id_conflict)
enqueue_id false ids id = (id ∷ ids, queued)

abbrev enqueue_in : List Text → Task → List Text × Enqueued
enqueue_in ids t = enqueue_id (one_of t.id ids) ids t.id

pub conflict-ne-queued : id_conflict ≢ queued
conflict-ne-queued h = cc

pub same-other : (s t : Text) → s ≢ t → same t s ≡ false
same-other s t h = elim (Bool-cases (same t s)) [
  | inl e ↦ absurd (h (sym ((same_iff t s).0 e)))
  | inr e ↦ e
]

pub enqueue_id-holds :
    (b : Bool) (ids : List Text) (id : Text)
    → (enqueue_id b ids id).1 ≡ queued
    → (one_of id (enqueue_id b ids id).0 ≡ true)
      × ((other : Text) → id ≢ other → one_of other (enqueue_id b ids id).0 ≡ one_of other ids)
unfolding one_of
enqueue_id-holds true ids id h = absurd (conflict-ne-queued h)
enqueue_id-holds false ids id h =
    (rw (same_refl id) refl, λ other differ. rw (same-other id other differ) refl)

pub enqueue_id-conflict :
    (b : Bool) (ids : List Text) (id : Text) → (enqueue_id b ids id).1 ≡ id_conflict → b ≡ true
enqueue_id-conflict true ids id h = refl
enqueue_id-conflict false ids id h = cc

pub enqueue_id-no_duplicate :
    (b : Bool) (ids : List Text) (id : Text) → (enqueue_id b ids id).1 ≢ duplicate_task
enqueue_id-no_duplicate true ids id h = cc
enqueue_id-no_duplicate false ids id h = cc

abbrev pub sample_broker : Broker
sample_broker = record {
  Tasks = List Text;
  holds = λ ids id. one_of id ids;
  enqueue = enqueue_in;
  held_conflict = λ ids t h. (
    ap (λ b. (enqueue_id b ids t.id).0) h,
    λ q. conflict-ne-queued (sym (ap (λ b. (enqueue_id b ids t.id).1) h) ∙ q),
  );
  queued_holds = λ ids t h. enqueue_id-holds (one_of t.id ids) ids t.id h;
  conflict_held = λ ids t h. enqueue_id-conflict (one_of t.id ids) ids t.id h;
  no_duplicate = λ ids t. enqueue_id-no_duplicate (one_of t.id ids) ids t.id;
}

abbrev pub plain : Text → Text
plain s = s

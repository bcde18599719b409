-- ===== src/Db/Migrate/Laws.antt =====
-- How long the wait for the database is, and when the migrations are applied.
use Prim.Native.Nat.{◌^◌, min}
use native.Mathlib.Nat.{pow-suc}
use lite_end_go.Base.{
  ℕ, zero, suc, ◌+◌, ◌*◌, ◌≤◌, ◌<◌, ◌≡◌, ◌↔◌, refl, inl, inr, Bool, true, false, List, [], ◌∷◌,
  arith, ltb, length, Result, ok, err, ◌>>◌, Bool-cases, ltb→lt, ltb-false→le,
}
use lite_end_go.Db.Migrate.{
  second, db_retry_max_delay, db_retry_base_delay, db_max_retries, Pings, Left, reached, unreached,
  interrupted, Waited, open_files, open_db, build_locker, build_provider, jitter, next_delay,
  wait_for_db, Setup, MigrateError, check, up_result, apply_all, migrate,
}

-- The closed form of the bound on a sleep: it doubles up to the maximum.
abbrev pub delay_at : ℕ → ℕ
delay_at k = min (db_retry_base_delay * 2 ^ k) db_retry_max_delay

pow2-pos : (k : ℕ) → 1 ≤ 2 ^ k
pow2-pos zero = omega arith
pow2-pos (suc k) = omega (arith, pow-suc 2 k, pow2-pos k)

next_delay-delay_at : (k : ℕ) → next_delay (delay_at k) ≡ delay_at (suc k)
unfolding next_delay
next_delay-delay_at k = ground (arith, pow-suc 2 k)

-- Every sleep is at least a nanosecond and at most the bound of its round.
abbrev pub Jittered : ℕ → List ℕ → Type 0
Jittered k [] = Unit
Jittered k (s ∷ ss) = (1 ≤ s) × (s ≤ delay_at k) × Jittered (suc k) ss

delay_at-pos : (k : ℕ) → 1 ≤ delay_at k
delay_at-pos k = ground (arith, pow2-pos k)

jitter-bounds : (draw delay : ℕ) → 1 ≤ delay → (1 ≤ jitter draw delay) × (jitter draw delay ≤ delay)
jitter-bounds draw delay h = (omega arith, omega arith)

abbrev pub IsTimed : ℕ → ℕ → Waited → Type 0
IsTimed rounds k w = Jittered k w.sleeps × (length w.sleeps ≤ rounds) × (w.pings ≤ k + rounds)

wait_for_db-IsTimed :
    (io : Pings) (rounds k : ℕ) → IsTimed rounds k (wait_for_db io rounds k (delay_at k))
unfolding wait_for_db
wait_for_db-IsTimed io zero k = (tt, omega arith, omega arith)
wait_for_db-IsTimed io (suc rounds) k = elim (Bool-cases (io.answers (suc k))) [
  | inl e ↦ rw e (tt, omega arith, omega arith)
  | inr e ↦ elim (Bool-cases (io.cancelled (suc k))) [
    | inl c ↦ rw (e, c) ((drawn.0, drawn.1, tt), omega arith, omega arith)
    | inr c ↦
        let (j, l, p) = wait_for_db-IsTimed io rounds (suc k) in
        rw (e, c, next_delay-delay_at k) ((drawn.0, drawn.1, j), omega (arith, l), omega (arith, p))
  ]
]
  where
    drawn :
        (1 ≤ jitter (io.draw (suc k)) (delay_at k))
        × (jitter (io.draw (suc k)) (delay_at k) ≤ delay_at k)
    drawn = jitter-bounds (io.draw (suc k)) (delay_at k) (delay_at-pos k)

abbrev pub total : List ℕ → ℕ
total [] = 0
total (s ∷ ss) = s + total ss

-- The sum of the bounds of that many rounds.
abbrev most_from : ℕ → ℕ → ℕ
most_from zero k = 0
most_from (suc n) k = delay_at k + most_from n (suc k)

total-le : (n k : ℕ) (ss : List ℕ) → Jittered k ss → length ss ≤ n → total ss ≤ most_from n k
total-le n k [] j h = omega arith
total-le zero k (s ∷ ss) j h = absurd (omega arith)
total-le (suc n) k (s ∷ ss) (lo, hi, j) h = omega (arith, total-le n (suc k) ss j (omega arith))

-- Whatever the database answers, the wait ends after at most five pings and at most five sleeps; the
-- sleep of round k, from 0, takes from one nanosecond to min(1 s * 2^k, 5 s), and all of them at most
-- 17 seconds.
pub wait_for_db-bounds :
    (io : Pings)
    → ((wait_for_db io db_max_retries 0 db_retry_base_delay).pings ≤ 5)
      × Jittered 0 (wait_for_db io db_max_retries 0 db_retry_base_delay).sleeps
      × (length (wait_for_db io db_max_retries 0 db_retry_base_delay).sleeps ≤ 5)
      × (total (wait_for_db io db_max_retries 0 db_retry_base_delay).sleeps ≤ 17 * second)
wait_for_db-bounds io = let (j, l, p) = wait_for_db-IsTimed io 5 0 in (p, j, l, total-le 5 0 _ j l)

-- An attempt among those left is answered, and no sleep before it was interrupted.
abbrev pub Answered : Pings → ℕ → ℕ → Type 0
Answered io rounds attempt =
    (n : ℕ) × (attempt < n)
    × (n ≤ attempt + rounds)
    × (io.answers n ≡ true)
    × ((j : ℕ) → attempt < j → j < n → io.cancelled j ≡ false)

true-ne-false : {b : Bool} → b ≡ true → b ≡ false → ⊥
true-ne-false h k = cc

-- An attempt that is answered is not one that is not.
later :
    (io : Pings) (attempt n : ℕ)
    → attempt < n
    → io.answers n ≡ true
    → io.answers (suc attempt) ≡ false
    → suc attempt < n
later io attempt n lo a e = elim (Bool-cases (ltb (suc attempt) n)) [
  | inl l ↦ ltb→lt (suc attempt) n l
  | inr l ↦
      let same : n ≡ suc attempt = omega (arith, ltb-false→le (suc attempt) n l) in
      absurd (true-ne-false (rw same at a) e)
]

wait_for_db-Answered :
    (io : Pings) (rounds attempt delay : ℕ)
    → Answered io rounds attempt ↔ ((wait_for_db io rounds attempt delay).left ≡ reached)
unfolding wait_for_db
wait_for_db-Answered io zero attempt delay = (λ (n, lo, hi, a, c). absurd (omega arith), λ h. cc)
wait_for_db-Answered io (suc rounds) attempt delay = elim (Bool-cases (io.answers (suc attempt))) [
  | inl e ↦ (
    λ w. rw (wait_for_db, e) refl,
    λ h. (suc attempt, omega arith, omega arith, e, λ j l m. absurd (omega arith)),
  )
  | inr e ↦ elim (Bool-cases (io.cancelled (suc attempt))) [
    | inl c ↦ (
      λ (n, lo, hi, a, calm).
          absurd (true-ne-false c (calm (suc attempt) (omega arith) (later io attempt n lo a e))),
      λ h. absurd (not_interrupted (rw (wait_for_db, e, c) at h)),
    )
    | inr c ↦
        let (onward, back) = wait_for_db-Answered io rounds (suc attempt) (next_delay delay) in
        (
          λ (n, lo, hi, a, calm).
              rw (wait_for_db, e, c)
                (onward
                  (n, later io attempt n lo a e, omega arith, a, λ j l m. calm j (omega arith) m)),
          λ h.
              let (n, lo, hi, a, calm) = back (rw (wait_for_db, e, c) at h) in
              (n, omega arith, omega arith, a, λ j l m. calm_from n calm c j l m),
        )
  ]
]
  where
    not_interrupted : interrupted ≡ reached → ⊥
    not_interrupted h = cc

    calm_from :
        (n : ℕ)
        → ((j : ℕ) → suc attempt < j → j < n → io.cancelled j ≡ false)
        → io.cancelled (suc attempt) ≡ false
        → (j : ℕ) → attempt < j
        → j < n
        → io.cancelled j ≡ false
    calm_from n calm c j l m = elim (Bool-cases (ltb (suc attempt) j)) [
      | inl k ↦ calm j (ltb→lt (suc attempt) j k) m
      | inr k ↦
          let same : suc attempt ≡ j = omega (arith, ltb-false→le (suc attempt) j k) in rw same at c
    ]

check-bind :
    (b : Bool) (e : MigrateError) (m : Result MigrateError ℕ) (n : ℕ)
    → ((b ≡ true) × (m ≡ ok n)) ↔ ((check b e >> m) ≡ ok n)
check-bind true e m n = (λ (h, k). k, λ k. (refl, k))
check-bind false e m n = (λ (h, k). absurd (true-ne-false h refl), λ k. cc)

up_result-ok : (r : Result (Unit {0}) ℕ) (n : ℕ) → (r ≡ ok n) ↔ (up_result r ≡ ok n)
up_result-ok (ok m) n = (λ h. cc, λ h. cc)
up_result-ok (err e) n = (λ h. cc, λ h. cc)

-- The migrations can be run, and that many are applied.
abbrev pub Applies : Setup → ℕ → Type 0
Applies s n = (s.builds_locker ≡ true) × (s.builds_provider ≡ true) × (s.up ≡ ok n)

apply_all-ok :
    (l : Left) (s : Setup) (n : ℕ) → ((l ≡ reached) × Applies s n) ↔ (apply_all l s ≡ ok n)
unfolding apply_all
apply_all-ok reached s n =
    let (lock, lock_back) = check-bind s.builds_locker build_locker _ n in
    let (make, make_back) = check-bind s.builds_provider build_provider _ n in
    let (run, run_back) = up_result-ok s.up n in
    (
      λ (r, (l, p, u)). lock (l, make (p, run u)),
      λ h. let (l, k) = lock_back h in let (p, u) = make_back k in (refl, (l, p, run_back u)),
    )
apply_all-ok unreached s n = (λ (h, a). cc, λ h. cc)
apply_all-ok interrupted s n = (λ (h, a). cc, λ h. cc)

-- `Migrate` succeeds, with that number of migrations, exactly if the files and the database can be
-- opened, one of the first five pings is answered with no sleep before it interrupted, the locker
-- and the provider can be built, and the provider applies that number.
pub migrate-ok :
    (io : Pings) (s : Setup) (n : ℕ)
    → ((s.opens_files ≡ true) × (s.opens_db ≡ true) × Answered io db_max_retries 0 × Applies s n)
      ↔ (migrate io s ≡ ok n)
unfolding migrate
migrate-ok io s n =
    let (files, files_back) = check-bind s.opens_files open_files _ n in
    let (db, db_back) = check-bind s.opens_db open_db _ n in
    let (run, run_back) =
      apply_all-ok (wait_for_db io db_max_retries 0 db_retry_base_delay).left s n in
    let (wait, wait_back) = wait_for_db-Answered io db_max_retries 0 db_retry_base_delay in
    (
      λ (f, o, a, p). files (f, db (o, run (wait a, p))),
      λ h.
          let (f, k) = files_back h in
          let (o, m) = db_back k in let (r, p) = run_back m in (f, o, wait_back r, p),
    )

-- ===== src/Health/Laws.antt =====
-- What a verdict of readiness rests on.
use lite_end_go.Base.{
  ℕ, ◌-◌, ◌<◌, ◌≡◌, refl, sym, ◌∙◌, ap, ◌⊎◌, inl, inr, ◌↔◌, Bool, true, false, Option, none, some,
  List, [], ◌∷◌, arith, subst, ltb, ltb→lt, if◌then◌else◌, Bool-cases, Option-cases,
}
use lite_end_go.Health.{
  Checks, Checker, Call, fresh_checks, keep, still_good, dependencies, verdict, ready,
}

-- The calls of a checker so far, newest first, each with its answer.
pub data Run (cache_for : ℕ) : Checker → List Call → Type 0 where
  start : Run cache_for (record { cache_for = cache_for; cached = none }) []
  call :
      {ch : Checker} {calls : List Call} (c : Call) (heap : Option ℕ)
      → Run cache_for ch calls
      → Run cache_for (ready ch c heap).0 (c ∷ calls)

-- One of the calls has made these checks within the given time before `now`, and was not cut short.
abbrev pub MadeBy : ℕ → ℕ → Checks → List Call → Type 0
MadeBy now cache_for checks [] = ⊥
MadeBy now cache_for checks (c ∷ cs) =
    ((fresh_checks c ≡ checks) × (c.gone ≡ false) × (now - c.done < cache_for))
    ⊎ MadeBy now cache_for checks cs

abbrev pub StoredBy : Option (Checks × ℕ) → List Call → Type 0
StoredBy none cs = Unit
StoredBy (some (checks, at)) [] = ⊥
StoredBy (some (checks, at)) (c ∷ cs) =
    ((fresh_checks c ≡ checks) × (c.gone ≡ false) × (c.done ≡ at)) ⊎ StoredBy (some (checks, at)) cs

StoredBy-more :
    (o : Option (Checks × ℕ)) (c : Call) (cs : List Call) → StoredBy o cs → StoredBy o (c ∷ cs)
StoredBy-more none c cs h = tt
StoredBy-more (some (checks, at)) c cs h = inr h

keep-StoredBy :
    (ch : Checker) (c : Call) (cs : List Call)
    → StoredBy ch.cached cs
    → StoredBy (keep ch c).cached (c ∷ cs)
keep-StoredBy ch c cs h = kept c.gone refl
  where
    kept :
        (b : Bool)
        → c.gone ≡ b
        → StoredBy
            (if b then ch else record ch { cached = some (fresh_checks c, c.done) }).cached
            (c ∷ cs)
    kept true e = StoredBy-more ch.cached c cs h
    kept false e = inl (refl, e, refl)

keep-cache_for : (ch : Checker) (c : Call) → (keep ch c).cache_for ≡ ch.cache_for
keep-cache_for ch c = elim (Bool-cases c.gone) [ inl e ↦ rw e | inr e ↦ rw e ]

-- What a checker keeps is what one of the calls made.
record Keeps (cache_for : ℕ) (ch : Checker) (calls : List Call) : Type 0 where
  same_time : ch.cache_for ≡ cache_for
  stored : StoredBy ch.cached calls

dependencies-Keeps :
    (cache_for : ℕ) (ch : Checker) (c : Call) (calls : List Call)
    → Keeps cache_for ch calls
    → Keeps cache_for (dependencies ch c).0 (c ∷ calls)
unfolding dependencies
dependencies-Keeps cache_for ch c calls k =
    elim (Option-cases (still_good c.now ch.cache_for ch.cached)) [
      | inl e ↦
          rw (e, dependencies)
            (record {
              same_time = keep-cache_for ch c ∙ k.same_time;
              stored = keep-StoredBy ch c calls k.stored;
            })
      | inr (checks, e) ↦
          rw (e, dependencies)
            (record { same_time = k.same_time; stored = StoredBy-more ch.cached c calls k.stored })
    ]

Run-Keeps :
    (cache_for : ℕ) {ch : Checker} {calls : List Call}
    → Run cache_for ch calls
    → Keeps cache_for ch calls
unfolding ready
Run-Keeps cache_for start = record { same_time = refl; stored = tt }
Run-Keeps cache_for (call c heap run) = dependencies-Keeps cache_for _ c _ (Run-Keeps cache_for run)

served-MadeBy :
    (now cache_for at : ℕ) (checks : Checks) (cs : List Call)
    → StoredBy (some (checks, at)) cs
    → now - at < cache_for
    → MadeBy now cache_for checks cs
served-MadeBy now cache_for at checks [] h late = h
served-MadeBy now cache_for at checks (c ∷ cs) (inl (made, here, when)) late =
    inl (made, here, rw when late)
served-MadeBy now cache_for at checks (c ∷ cs) (inr h) late =
    inr (served-MadeBy now cache_for at checks cs h late)

still_good-MadeBy :
    (now cache_for : ℕ) (o : Option (Checks × ℕ)) (checks : Checks) (cs : List Call)
    → StoredBy o cs
    → still_good now cache_for o ≡ some checks
    → MadeBy now cache_for checks cs
still_good-MadeBy now cache_for none checks cs h e = cc
still_good-MadeBy now cache_for (some (kept, at)) checks cs h e =
    elim (Bool-cases (ltb (now - at) cache_for)) [
      | inr old ↦ absurd (none_not_some (rw old at e))
      | inl good ↦
          served-MadeBy now cache_for at checks cs
            (subst (λ q. StoredBy (some (q, at)) cs) (some_inj (rw good at e)) h) (ltb→lt _ _ good)
    ]
  where
    none_not_some : none ≡ some checks → ⊥
    none_not_some x = cc

    some_inj : some kept ≡ some checks → kept ≡ checks
    some_inj x = cc

-- After any calls, an answer of readiness is 200 exactly if both dependencies are fine in its checks, whatever the
-- heap; those are its own pings', or those of an earlier call that was not cut short and that ended less than the
-- cache time before.
pub ready-MadeBy :
    (cache_for : ℕ) (ch : Checker) (calls : List Call) (c : Call) (heap : Option ℕ)
    → Run cache_for ch calls
    → let answer = (ready ch c heap).1 in
      ((answer.code ≡ 200)
        ↔ ((answer.checks.database.is_ok ≡ true) × (answer.checks.redis.is_ok ≡ true)))
      × ((answer.checks ≡ fresh_checks c) ⊎ MadeBy c.now cache_for answer.checks calls)
unfolding ready dependencies
ready-MadeBy cache_for ch calls c heap run = (
  code_iff (dependencies ch c).1,
  elim (Option-cases (still_good c.now ch.cache_for ch.cached)) [
    | inl e ↦ rw (e, dependencies) (inl refl)
    | inr (checks, e) ↦
        let k = Run-Keeps cache_for run in
        rw (e, dependencies)
          (inr (
            still_good-MadeBy c.now cache_for ch.cached checks calls k.stored
              (ap (λ t. still_good c.now t ch.cached) (sym k.same_time) ∙ e)))
  ],
)
  where
    code_iff :
        (checks : Checks)
        → (◌≡◌ {A = ℕ} (if verdict checks then 200 else 503) 200)
          ↔ ((checks.database.is_ok ≡ true) × (checks.redis.is_ok ≡ true))
    code_iff checks = ground arith

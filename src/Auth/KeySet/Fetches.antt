-- ===== src/Auth/KeySet/Fetches.antt =====
-- How often the issuer is asked for its keys.
use lite_end_go.Base.{
  ℕ, ◌+◌, ◌≤◌, ◌≡◌, refl, ◌∙◌, ap, inl, inr, Bool, true, false, ◌&&◌, ◌||◌, Option, none, some,
  List, [], ◌∷◌, arith, leb, ◌==◌, if◌then◌else◌, Bool-cases,
}
use lite_end_go.Strings.{Text}
use lite_end_go.Auth.KeySet.{
  Library, Jwk, JwksReply, unreachable, answered, Loaded, KeySet, new_cached_key_set, since,
  signing_keys, load, refresh, is_missing, is_stale, wait, needs_fetch, keep_or, renew,
  verify_signature,
}

-- The calls of one key set in the order of its lock, with the times of its fetches, newest first, and
-- the clock after the last call.
pub data Run (lib : Library) (min_interval retry_every max_age : ℕ)
    : KeySet → List ℕ → ℕ → Type 0 where
  start :
      Run lib min_interval retry_every max_age
        (new_cached_key_set min_interval retry_every max_age)
        []
        0
  call :
      {s : KeySet} {fetches : List ℕ} {clock : ℕ} (now done : ℕ) (reply : JwksReply) (jwt : Text)
      → Run lib min_interval retry_every max_age s fetches clock
      → clock ≤ now
      → now ≤ done
      → Run lib min_interval retry_every max_age
          (verify_signature lib s now done reply jwt).0
          (if needs_fetch s now (lib.key_id jwt) then now ∷ fetches else fetches)
          done

-- Neighbours are at least that far apart.
abbrev pub Spaced : ℕ → List ℕ → Type 0
Spaced d [] = Unit
Spaced d (t ∷ []) = Unit
Spaced d (t ∷ u ∷ ts) = (u + d ≤ t) × Spaced d (u ∷ ts)

abbrev newest : List ℕ → Option ℕ
newest [] = none
newest (t ∷ ts) = some t

-- What the fetches so far say of the state: it remembers the newest, and keeps its intervals.
record IsRecent (min_interval retry_every : ℕ) (s : KeySet) (fetches : List ℕ) : Type 0 where
  min_same : s.min_interval ≡ min_interval
  retry_same : s.retry_every ≡ retry_every
  fetched : s.fetched_at ≡ newest fetches

load-keeps :
    (s s' : KeySet) (done : ℕ) (ks : List Jwk)
    → load s done ks ≡ some s'
    → (s'.min_interval ≡ s.min_interval)
      × (s'.retry_every ≡ s.retry_every)
      × (s'.fetched_at ≡ s.fetched_at)
load-keeps s s' done [] e = cc
load-keeps s s' done (k ∷ ks) e = ground arith

refresh-keeps :
    (s s' : KeySet) (done : ℕ) (reply : JwksReply)
    → refresh s done reply ≡ some s'
    → (s'.min_interval ≡ s.min_interval)
      × (s'.retry_every ≡ s.retry_every)
      × (s'.fetched_at ≡ s.fetched_at)
unfolding refresh
refresh-keeps s s' done unreachable e = cc
refresh-keeps s s' done (answered status none) e = cc
refresh-keeps s s' done (answered status (some set)) e = elim (Bool-cases (status == 200)) [
  | inl good ↦ load-keeps s s' done (signing_keys set) (rw good at e)
  | inr bad ↦ absurd (ground arith)
]

keep_or-keeps :
    (s : KeySet) (o : Option KeySet)
    → ((s' : KeySet)
        → o ≡ some s'
        → (s'.min_interval ≡ s.min_interval)
          × (s'.retry_every ≡ s.retry_every)
          × (s'.fetched_at ≡ s.fetched_at))
    → let t = keep_or s o in
      (t.min_interval ≡ s.min_interval)
      × (t.retry_every ≡ s.retry_every)
      × (t.fetched_at ≡ s.fetched_at)
keep_or-keeps s none h = (refl, refl, refl)
keep_or-keeps s (some s') h = h s' refl

renew-IsRecent :
    (min_interval retry_every : ℕ) (s : KeySet) (fetches : List ℕ) (now done : ℕ)
    (reply : JwksReply) (kid : Text)
    → IsRecent min_interval retry_every s fetches
    → IsRecent min_interval retry_every
        (renew s now done reply kid)
        (if needs_fetch s now kid then now ∷ fetches else fetches)
unfolding renew
renew-IsRecent min_interval retry_every s fetches now done reply kid r =
    elim (Bool-cases (needs_fetch s now kid)) [
      | inr quiet ↦ rw (quiet, renew) r
      | inl fetch ↦
          let s1 : KeySet = record s { fetched_at = some now } in
          let (a, b, c) =
            keep_or-keeps s1 (refresh s1 done reply) (λ s'. refresh-keeps s1 s' done reply) in
          rw (fetch, renew)
            (record { min_same = a ∙ r.min_same; retry_same = b ∙ r.retry_same; fetched = c })
    ]

either_late : (m n : Bool) (w r d : ℕ) → r ≤ w → ((m && leb w d) || (n && leb r d)) ≡ true → r ≤ d
either_late true n w r d le h = ground arith
either_late false n w r d le h = ground arith

wait-retry :
    (s : KeySet) (l : Option Loaded) → s.retry_every ≤ s.min_interval → s.retry_every ≤ wait s l
wait-retry s none le = omega arith
wait-retry s (some l) le = le

-- A fetch comes no sooner than the retry interval after the one before.
fetch_late :
    (s : KeySet) (now t : ℕ) (kid : Text)
    → s.retry_every ≤ s.min_interval
    → s.fetched_at ≡ some t
    → t ≤ now
    → needs_fetch s now kid ≡ true
    → t + s.retry_every ≤ now
unfolding needs_fetch
fetch_late s now t kid le e past h =
    let late : s.retry_every ≤ since now s.fetched_at =
      either_late (is_missing s.loaded kid) (is_stale s.loaded s.max_age now) (wait s s.loaded)
        s.retry_every (since now s.fetched_at) (wait-retry s s.loaded le) h in
    omega (arith, ap (since now) e)

Spaced-next :
    (min_interval retry_every : ℕ) (s : KeySet) (fetches : List ℕ) (clock now : ℕ) (kid : Text)
    → retry_every ≤ min_interval
    → IsRecent min_interval retry_every s fetches
    → Spaced retry_every fetches
    → ((t : ℕ) → newest fetches ≡ some t → t ≤ now)
    → Spaced retry_every (if needs_fetch s now kid then now ∷ fetches else fetches)
Spaced-next min_interval retry_every s fetches clock now kid le r spaced past =
    elim (Bool-cases (needs_fetch s now kid)) [
      | inr quiet ↦ rw quiet spaced
      | inl fetch ↦ rw fetch (first fetch fetches r.fetched spaced past)
    ]
  where
    first :
        needs_fetch s now kid ≡ true
        → (ts : List ℕ) → s.fetched_at ≡ newest ts
        → Spaced retry_every ts
        → ((t : ℕ) → newest ts ≡ some t → t ≤ now)
        → Spaced retry_every (now ∷ ts)
    first fetch [] e sp p = tt
    first fetch (t ∷ ts) e sp p = (
      omega (
        arith,
        fetch_late s now t kid (rw (r.retry_same, r.min_same) le) e (p t refl) fetch,
        r.retry_same,
      ),
      sp,
    )

newest_past :
    (b : Bool) (ts : List ℕ) (now : ℕ)
    → ((t : ℕ) → newest ts ≡ some t → t ≤ now)
    → (t : ℕ) → newest (if b then now ∷ ts else ts) ≡ some t
    → t ≤ now
newest_past true ts now past t e = ground arith
newest_past false ts now past t e = past t e

-- Along a run: the state remembers the newest fetch, no fetch is past the clock, and they are apart.
abbrev Holds : ℕ → ℕ → KeySet → List ℕ → ℕ → Type 0
Holds min_interval retry_every s fetches clock =
    IsRecent min_interval retry_every s fetches
    × ((t : ℕ) → newest fetches ≡ some t → t ≤ clock)
    × Spaced retry_every fetches

Holds-call :
    (min_interval retry_every : ℕ) (s : KeySet) (fetches : List ℕ) (clock now done : ℕ)
    (reply : JwksReply) (kid : Text)
    → retry_every ≤ min_interval
    → clock ≤ now
    → now ≤ done
    → Holds min_interval retry_every s fetches clock
    → Holds min_interval retry_every
        (renew s now done reply kid)
        (if needs_fetch s now kid then now ∷ fetches else fetches)
        done
Holds-call min_interval retry_every s fetches clock now done reply kid le before after
      (r, past, spaced) =
    let past' : (t : ℕ) → newest fetches ≡ some t → t ≤ now = λ t e. omega (arith, past t e) in
    (
      renew-IsRecent min_interval retry_every s fetches now done reply kid r,
      (λ t e. omega (arith, newest_past (needs_fetch s now kid) fetches now past' t e)),
      Spaced-next min_interval retry_every s fetches clock now kid le r spaced past',
    )

Run-Holds :
    (lib : Library) (min_interval retry_every max_age : ℕ) {s : KeySet} {fetches : List ℕ}
    {clock : ℕ}
    → retry_every ≤ min_interval
    → Run lib min_interval retry_every max_age s fetches clock
    → Holds min_interval retry_every s fetches clock
unfolding new_cached_key_set verify_signature
Run-Holds lib min_interval retry_every max_age le start =
    (record { min_same = refl; retry_same = refl; fetched = refl }, λ t e. cc, tt)
Run-Holds lib min_interval retry_every max_age le (call now done reply jwt run before after) =
    Holds-call min_interval retry_every _ _ _ now done reply (lib.key_id jwt) le before after
      (Run-Holds lib min_interval retry_every max_age le run)

-- Whatever tokens arrive and however the issuer answers, two fetches of the key set are at least the retry
-- interval apart, given that it is at most the interval between refetches.
pub Run-Spaced :
    (lib : Library) (min_interval retry_every max_age : ℕ) (s : KeySet) (fetches : List ℕ)
    (clock : ℕ)
    → retry_every ≤ min_interval
    → Run lib min_interval retry_every max_age s fetches clock
    → Spaced retry_every fetches
Run-Spaced lib min_interval retry_every max_age s fetches clock le run =
    let (r, past, spaced) = Run-Holds lib min_interval retry_every max_age le run in spaced

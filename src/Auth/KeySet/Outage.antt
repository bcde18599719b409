-- ===== src/Auth/KeySet/Outage.antt =====
-- What becomes of the loaded keys when they are fetched again.
use lite_end_go.Base.{
  ℕ, ◌≡◌, ◌≢◌, refl, ◌⊎◌, inl, inr, Bool, true, false, Option, none, some, [], arith, ◌==◌,
  if◌then◌else◌, Bool-cases,
}
use lite_end_go.Strings.{Text}
use lite_end_go.Auth.KeySet.{
  Library, JwksReply, unreachable, answered, KeySet, signing_keys, refresh, needs_fetch, renew,
  verify_keys, verify_signature,
}

-- The reply has no key set to load: the issuer is down, answers with an error, or names no signing key.
abbrev IsUseless : JwksReply → Type 0
IsUseless unreachable = Unit
IsUseless (answered status none) = Unit
IsUseless (answered status (some set)) = (status ≢ 200) ⊎ (signing_keys set ≡ [])

refresh-useless :
    (s : KeySet) (done : ℕ) (reply : JwksReply) → IsUseless reply → refresh s done reply ≡ none
unfolding refresh
refresh-useless s done unreachable u = refl
refresh-useless s done (answered status none) u = refl
refresh-useless s done (answered status (some set)) (inl other) = ground arith
refresh-useless s done (answered status (some set)) (inr empty) =
    rw empty (both (status == 200) none)
  where
    both : (b : Bool) (o : Option KeySet) → (if b then o else o) ≡ o
    both true o = refl
    both false o = refl

-- An outage of the issuer changes nothing for tokens: a fetch that fails keeps the keys that were loaded, so
-- that every token is verified as it was without it.
pub verify_signature-outage :
    (lib : Library) (s : KeySet) (now done : ℕ) (reply : JwksReply) (jwt : Text)
    → IsUseless reply
    → ((verify_signature lib s now done reply jwt).0.loaded ≡ s.loaded)
      × ((verify_signature lib s now done reply jwt).1 ≡ verify_keys lib s.loaded jwt)
unfolding verify_signature renew
verify_signature-outage lib s now done reply jwt u =
    elim (Bool-cases (needs_fetch s now (lib.key_id jwt))) [
      | inl fetch ↦
          rw (fetch, renew, refresh-useless (record s { fetched_at = some now }) done reply u)
            (refl, refl)
      | inr quiet ↦ rw (quiet, renew) (refl, refl)
    ]

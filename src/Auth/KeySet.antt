-- ===== src/Auth/KeySet.antt =====
-- internal/auth/keyset.go: the cached key set of the token issuer. Reading a token's key id and
-- checking a signature are the libraries' (go-jose, go-oidc): the parameter `Library`.
pub mod Fetches
pub mod Outage
use lite_end_go.Base.{
  ℕ, ◌-◌, Bool, true, false, not, ◌&&◌, ◌||◌, Option, none, some, List, [], ◌∷◌, map, leb, ◌==◌,
  is_empty, if◌then◌else◌, Result, ok, err,
}
use lite_end_go.Strings.{Text, codes, same, one_of}

-- What `isProviderUnavailable` tells apart in the chain of an error.
pub data Cause : Type 0 where
  deadline_exceeded canceled net_error url_error other_error : Cause

-- The claims that are read: the subject, and whether the two of an ID token are there.
pub record IdToken : Type 0 where
  pub sub : Text
  pub nonce : Bool
  pub at_hash : Bool

-- go-jose and go-oidc. `IDTokenVerifier.Verify` has its own checks, asks the key set at most once, and
-- answers from the token and that reply; `claims` is the token's claims as `Claims` decodes them.
pub record Library : Type 0 where
  pub key_id : Text → Text
  pub verify_with : List ℕ → Text → Result (List Cause) Text
  pub asks : Text → Bool
  pub answer : Text → Option (Result (List Cause) Text) → Result (List Cause) ℕ
  pub claims : Text → Result (List Cause) IdToken

-- A key of a JWKS; `key` stands for its material.
pub record Jwk : Type 0 where
  pub kid : Text
  pub use_for : Text
  pub is_public : Bool
  pub key : ℕ

-- What comes of a request for the JWKS: nothing, or a status and a body that decodes or not.
pub data JwksReply : Type 0 where
  unreachable : JwksReply
  answered : (status : ℕ) → Option (List Jwk) → JwksReply

pub record Loaded : Type 0 where
  pub keys : List ℕ
  pub kids : List Text
  pub loaded_at : ℕ

-- `cachedKeySet`; times are clock ticks, and `fetched_at` is `none` for the zero time.
pub record KeySet : Type 0 where
  pub min_interval : ℕ
  pub retry_every : ℕ
  pub max_age : ℕ
  pub loaded : Option Loaded
  pub fetched_at : Option ℕ

unfoldable pub new_cached_key_set : ℕ → ℕ → ℕ → KeySet
new_cached_key_set min_interval retry_every max_age = record {
  min_interval = min_interval;
  retry_every = retry_every;
  max_age = max_age;
  loaded = none;
  fetched_at = none;
}

-- `time.Duration` saturates at its maximum when it measures from the zero time.
abbrev pub max_duration : ℕ
max_duration = 9_223_372_036_854_775_807

abbrev pub since : ℕ → Option ℕ → ℕ
since now none = max_duration
since now (some t) = now - t

-- The keys that `refresh` keeps.
unfoldable pub signing_keys : List Jwk → List Jwk
signing_keys [] = []
signing_keys (k ∷ ks) =
    if same k.use_for (codes "enc") || not k.is_public then signing_keys ks else k ∷ signing_keys ks

abbrev pub load : KeySet → ℕ → List Jwk → Option KeySet
load s done [] = none
load s done (k ∷ ks) = some (record s {
  loaded = some (record {
    keys = map (λ (j : Jwk). j.key) (k ∷ ks);
    kids = map (λ (j : Jwk). j.kid) (k ∷ ks);
    loaded_at = done;
  });
})

-- `refresh`, at the time `done` when it stores the keys; `none` is any of its errors.
unfoldable pub refresh : KeySet → ℕ → JwksReply → Option KeySet
unfolding signing_keys
refresh s done unreachable = none
refresh s done (answered status none) = none
refresh s done (answered status (some set)) =
    if status == 200 then load s done (signing_keys set) else none

abbrev pub is_missing : Option Loaded → Text → Bool
is_missing none kid = true
is_missing (some l) kid = is_empty kid || not (one_of kid l.kids)

abbrev pub is_stale : Option Loaded → ℕ → ℕ → Bool
is_stale none max_age now = false
is_stale (some l) max_age now = leb max_age (now - l.loaded_at)

abbrev pub wait : KeySet → Option Loaded → ℕ
wait s none = s.retry_every
wait s (some l) = s.min_interval

-- Whether `VerifySignature` fetches.
unfoldable pub needs_fetch : KeySet → ℕ → Text → Bool
needs_fetch s now kid =
    (is_missing s.loaded kid && leb (wait s s.loaded) (since now s.fetched_at))
    || (is_stale s.loaded s.max_age now && leb s.retry_every (since now s.fetched_at))

abbrev pub keep_or : KeySet → Option KeySet → KeySet
keep_or s none = s
keep_or s (some s') = s'

-- The part of `VerifySignature` under the lock.
unfoldable pub renew : KeySet → ℕ → ℕ → JwksReply → Text → KeySet
renew s now done reply kid =
    if needs_fetch s now kid
    then keep_or (record s { fetched_at = some now })
        (refresh (record s { fetched_at = some now }) done reply)
    else s

abbrev pub wrapped : Result (List Cause) Text → Result (List Cause) Text
wrapped (ok payload) = ok payload
wrapped (err e) = err (other_error ∷ e)

abbrev pub verify_keys : Library → Option Loaded → Text → Result (List Cause) Text
verify_keys lib none jwt = err (other_error ∷ [])
verify_keys lib (some l) jwt = wrapped (lib.verify_with l.keys jwt)

unfoldable pub verify_signature :
    Library → KeySet → ℕ → ℕ → JwksReply → Text → KeySet × Result (List Cause) Text
verify_signature lib s now done reply jwt =
    let s' = renew s now done reply (lib.key_id jwt) in (s', verify_keys lib s'.loaded jwt)

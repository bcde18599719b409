-- ===== src/Auth/Tests.antt =====
-- Tokens, keys and guards at concrete inputs.
use lite_end_go.Base.{
  ℕ, ◌≡◌, refl, arith, false, none, some, List, [], ◌∷◌, Result, ok, err, if◌then◌else◌,
}
use lite_end_go.Strings.{Text, codes, same, equal_fold}
use lite_end_go.Samples.{sample_codec}
use lite_end_go.Profile.Store.{get_profile_by_oidc_sub, create_profile}
use lite_end_go.Profile.Service.{find_or_create_by_sub, from_cache, find_or_create_row}
use lite_end_go.Auth.KeySet.{
  Cause, unreachable, KeySet, new_cached_key_set, signing_keys, needs_fetch, verify_signature,
  renew, refresh,
}
use lite_end_go.Auth.KeySet.Fetches.{Run, Spaced, Run-Spaced}
use lite_end_go.Auth.Verifier.{accept_claims, verify}
use lite_end_go.Auth.Verifier.Laws.{IsAccepted, IsClaimed, verify-IsAccepted}
use lite_end_go.Auth.Resolve.{bearer_token, is_provider_unavailable, resolve, require_auth}
use lite_end_go.Auth.Resolve.Laws.{IsAuthentic, require_auth-IsAuthentic}
use lite_end_go.Auth.Resolve.Outage.{IsLocal, IsOffline, resolve-never_down}
use lite_end_go.Graph.Transport.{refresh_websocket_user}
use lite_end_go.Auth.Samples.{
  checked_by, answer_of, sample_library, k2, one_key, key_set, token, state, moment, signed_request,
  alice_profile, start-IsCoherent,
}

-- Two tokens arrive while the issuer is down, the second too soon for another fetch.
Run-Spaced_example : Spaced 1 (
    let s : KeySet = (verify_signature sample_library key_set 50 51 unreachable token).0 in
    if needs_fetch s 51 (codes "k1")
    then 51 ∷ (if needs_fetch key_set 50 (codes "k1") then 50 ∷ [] else [])
    else (if needs_fetch key_set 50 (codes "k1") then 50 ∷ [] else []))
Run-Spaced_example = Run-Spaced sample_library 30 1 600 _ _ 52 (omega arith) (
    Run.call 51 52 unreachable token
      (Run.call 50 51 unreachable token Run.start (omega arith) (omega arith)) (omega arith)
      (omega arith))

only_k2 : signing_keys (k2 ∷ []) ≡ k2 ∷ []
unfolding signing_keys same
only_k2 = refl

verified_token : (verify sample_library key_set 50 51 one_key token).1 ≡ ok (codes "alice", 900)
unfolding verify verify_signature renew needs_fetch new_cached_key_set refresh same accept_claims
verified_token = refl

verify-IsAccepted_example :
    IsAccepted sample_library key_set 50 51 one_key token 900
    × IsClaimed sample_library token (codes "alice")
verify-IsAccepted_example =
    verify-IsAccepted sample_library key_set 50 51 one_key token (codes "alice") 900 verified_token

let_through :
    (require_auth sample_codec sample_library false state moment signed_request).1
    ≡ ok alice_profile
unfolding require_auth bearer_token equal_fold verify verify_signature renew needs_fetch
    new_cached_key_set refresh same accept_claims find_or_create_by_sub from_cache
    find_or_create_row get_profile_by_oidc_sub create_profile
let_through = refl

require_auth-IsAuthentic_example :
    IsAuthentic sample_codec sample_library state moment
      (bearer_token signed_request)
      alice_profile
      (require_auth sample_codec sample_library false state moment signed_request).0
require_auth-IsAuthentic_example =
    require_auth-IsAuthentic sample_codec sample_library state moment signed_request alice_profile
      start-IsCoherent let_through

sample-IsOffline : IsOffline sample_library
unfolding is_provider_unavailable
sample-IsOffline = record {
  verify_with_local = checked_local;
  claims_local = λ raw. tt;
  answer_unasked = λ raw. refl;
  answer_asked = λ raw r h. answer_local r h;
}
  where
    checked_local : (keys : List ℕ) (jwt : Text) → IsLocal (checked_by keys jwt)
    checked_local [] jwt = refl
    checked_local (k ∷ ks) jwt = tt

    answer_local : (r : Result (List Cause) Text) → IsLocal r → IsLocal (answer_of [] (some r))
    answer_local (ok payload) h = tt
    answer_local (err e) h = h

resolve-never_down_example :
    (resolve sample_codec sample_library false state
      (record moment { jwks = unreachable })
      token
      []).1.provider_down
    ≡ false
resolve-never_down_example =
    resolve-never_down sample_library sample-IsOffline sample_codec false state
      (record moment { jwks = unreachable }) token []

-- The operation of a socket that was opened without a user.
refreshed :
    (refresh_websocket_user sample_codec sample_library false state moment
      (some (token, []))
      none).1
    ≡ ok (some alice_profile)
unfolding refresh_websocket_user verify verify_signature renew needs_fetch new_cached_key_set
    refresh same accept_claims find_or_create_by_sub from_cache find_or_create_row
    get_profile_by_oidc_sub create_profile
refreshed = refl

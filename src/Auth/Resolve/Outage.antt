-- ===== src/Auth/Resolve/Outage.antt =====
-- How an unreachable issuer is answered. The key set drops the error of its fetch, and reports that no keys
-- are loaded by an error of its own.
use lite_end_go.Base.{
  ℕ, ◌≡◌, refl, inl, inr, Bool, true, false, ◌||◌, Option, none, some, List, ◌∷◌, is_empty,
  Bool-cases, Result, ok, err, ◌>>=◌, ◌>>◌, Result-cases,
}
use lite_end_go.Strings.{Text}
use lite_end_go.Profile.Store.{Profile}
use lite_end_go.Profile.Service.{Codec, World, ServiceError, find_by_sub, find_or_create_mock_user}
use lite_end_go.Auth.KeySet.{
  Cause, other_error, Library, Loaded, JwksReply, KeySet, wrapped, verify_keys, verify_signature,
}
use lite_end_go.Auth.Verifier.{wrap, reject, accept_claims, verify}
use lite_end_go.Auth.Resolve.{
  is_provider_unavailable, Resolved, somebody, State, as_user, Moment, after_verify, resolve_mock,
  resolve_token, resolve,
}

-- No error of the result is an outage.
abbrev pub IsLocal {ℓ} : {A : Type ℓ} → Result (List Cause) A → Type 0
IsLocal (ok a) = Unit
IsLocal (err e) = is_provider_unavailable e ≡ false

-- The libraries make no request: checking a signature with keys at hand, decoding claims and the verifier's own
-- checks fail with no network error. `Verify` may pass on what the key set reports.
pub record IsOffline (lib : Library) : Type 0 where
  pub verify_with_local : (keys : List ℕ) (jwt : Text) → IsLocal (lib.verify_with keys jwt)
  pub claims_local : (raw : Text) → IsLocal (lib.claims raw)
  pub answer_unasked : (raw : Text) → IsLocal (lib.answer raw none)
  pub answer_asked :
      (raw : Text) (signature : Result (List Cause) Text)
      → IsLocal signature
      → IsLocal (lib.answer raw (some signature))

wrapped-IsLocal : (r : Result (List Cause) Text) → IsLocal r → IsLocal (wrapped r)
unfolding is_provider_unavailable
wrapped-IsLocal (ok payload) h = tt
wrapped-IsLocal (err e) h = h

as_user-up :
    (ks : KeySet) (expiry : Option ℕ) (x : World × Result ServiceError Profile)
    → (as_user ks expiry x).1.provider_down ≡ false
as_user-up ks expiry (w, ok p) = refl
as_user-up ks expiry (w, err e) = refl

found-up :
    (st : State) (x : World × Result ServiceError Profile) (miss : World → State × Resolved)
    → ((w : World) → (miss w).1.provider_down ≡ false)
    → let y : State × Resolved = elim x.1 [
      | ok p ↦ (record { world = x.0; key_set = st.key_set }, somebody p none)
      | err e ↦ miss x.0
    ] in
      y.1.provider_down ≡ false
found-up st (w, ok p) miss h = refl
found-up st (w, err e) miss h = h w

resolve_mock-up :
    (codec : Codec) (lib : Library) (st : State) (m : Moment) (mock_sub : Text)
    → (resolve_mock codec lib st m mock_sub).1.provider_down ≡ false
unfolding resolve_mock
resolve_mock-up codec lib st m mock_sub = elim (Bool-cases (is_empty mock_sub)) [
  | inl e ↦ rw (e, resolve_mock) (as_user-up _ _ _)
  | inr e ↦
      rw (e, resolve_mock)
        (found-up st (find_by_sub codec st.world m.first mock_sub)
          (λ w. as_user st.key_set none (find_or_create_mock_user w m.second m.now))
          (λ w. as_user-up st.key_set none (find_or_create_mock_user w m.second m.now)))
]

module _ (lib : Library) (offline : IsOffline lib) where
  verify_keys-IsLocal : (l : Option Loaded) (jwt : Text) → IsLocal (verify_keys lib l jwt)
  unfolding is_provider_unavailable
  verify_keys-IsLocal none jwt = refl
  verify_keys-IsLocal (some l) jwt = wrapped-IsLocal _ (offline.verify_with_local l.keys jwt)

  reject-IsLocal {ℓ} :
      {A : Type ℓ} (b : Bool) (r : Result (List Cause) A) → IsLocal r → IsLocal (reject b >> r)
  unfolding is_provider_unavailable
  reject-IsLocal true r h = refl
  reject-IsLocal false r h = h

  accept_claims-IsLocal : (raw : Text) (expiry : ℕ) → IsLocal (accept_claims lib raw expiry)
  unfolding accept_claims is_provider_unavailable
  accept_claims-IsLocal raw expiry = elim (Result-cases (lib.claims raw)) [
    | inr (e, bad) ↦ rw (bad, accept_claims) (bad_claims e (offline.claims_local raw) bad)
    | inl (token, good) ↦
        rw (good, accept_claims)
          (reject-IsLocal (token.nonce || token.at_hash) _
            (reject-IsLocal (is_empty token.sub) _ tt))
  ]
    where
      bad_claims :
          (e : List Cause)
          → IsLocal (lib.claims raw)
          → lib.claims raw ≡ err e
          → is_provider_unavailable (other_error ∷ e) ≡ false
      bad_claims e h bad = rw bad at h

  wrap-IsLocal :
      (raw : Text) (r : Result (List Cause) ℕ)
      → IsLocal r
      → IsLocal (wrap r >>= accept_claims lib raw)
  unfolding is_provider_unavailable
  wrap-IsLocal raw (err e) h = h
  wrap-IsLocal raw (ok expiry) h = accept_claims-IsLocal raw expiry

  verify-IsLocal :
      (s : KeySet) (now done : ℕ) (reply : JwksReply) (raw : Text)
      → IsLocal (verify lib s now done reply raw).1
  unfolding verify verify_signature
  verify-IsLocal s now done reply raw = elim (Bool-cases (lib.asks raw)) [
    | inl e ↦
        rw (e, verify) (wrap-IsLocal raw _ (offline.answer_asked raw _ (verify_keys-IsLocal _ raw)))
    | inr e ↦ rw (e, verify) (wrap-IsLocal raw _ (offline.answer_unasked raw))
  ]

  module _ (codec : Codec) where
    after_verify-up :
        (st : State) (m : Moment) (x : KeySet × Result (List Cause) (Text × ℕ))
        → IsLocal x.1
        → (after_verify codec lib st m x).1.provider_down ≡ false
    after_verify-up st m (ks, err e) h = h
    after_verify-up st m (ks, ok (sub, expiry)) h = as_user-up _ _ _

    -- Whether mock identities are enabled or not, whatever the token and the answer of the issuer, an
    -- unreachable one included, the provider is never reported as down.
    pub resolve-never_down :
        (mock_enabled : Bool) (st : State) (m : Moment) (bearer mock_sub : Text)
        → (resolve codec lib mock_enabled st m bearer mock_sub).1.provider_down ≡ false
    unfolding resolve resolve_token
    resolve-never_down true st m bearer mock_sub = resolve_mock-up codec lib st m mock_sub
    resolve-never_down false st m bearer mock_sub = elim (Bool-cases (is_empty bearer)) [
      | inl e ↦ rw (e, resolve_token)
      | inr e ↦
          rw (e, resolve_token)
            (after_verify-up st m _ (verify-IsLocal st.key_set m.now m.done m.jwks bearer))
    ]

-- ===== src/Auth/Resolve/Laws.antt =====
-- Who comes through `RequireAuth`.
use lite_end_go.Base.{
  ℕ, ◌≡◌, refl, ◌∙◌, ap, inl, inr, false, some, List, is_empty, Bool-cases, Result, ok, err,
  Option-cases,
}
use lite_end_go.Strings.{Text}
use lite_end_go.Http.{Request, Response}
use lite_end_go.Profile.Store.{Profile, find_sub}
use lite_end_go.Profile.Service.{Codec, World, ServiceError}
use lite_end_go.Profile.Service.Coherence.{IsCoherent, Serves}
use lite_end_go.Profile.Service.Reads.{find_or_create_by_sub-Serves}
use lite_end_go.Auth.KeySet.{Cause, Library, KeySet}
use lite_end_go.Auth.Verifier.{verify}
use lite_end_go.Auth.Resolve.{
  bearer_token, Resolved, State, as_user, Moment, after_verify, resolve_token, resolve, enforced,
  require_auth,
}

module _ (codec : Codec) (lib : Library) (st : State) (m : Moment) where
  -- The bearer token is verified, and the profile is the row of its subject.
  pub record IsAuthentic (bearer : Text) (p : Profile) (st' : State) : Type 0 where
    pub sub : Text
    pub expiry : ℕ
    pub verified : (verify lib st.key_set m.now m.done m.jwks bearer).1 ≡ ok (sub, expiry)
    pub row : find_sub sub st'.world.table.rows ≡ some p

  -- What a resolved user, if there is one, has shown.
  abbrev pub Shows : Text → State × Resolved → Type 0
  Shows bearer (st', x) = (p : Profile) → x.user ≡ some p → IsAuthentic bearer p st'

  as_user-Shows :
      (bearer sub : Text) (expiry : ℕ) (ks : KeySet) (x : World × Result ServiceError Profile)
      → (verify lib st.key_set m.now m.done m.jwks bearer).1 ≡ ok (sub, expiry)
      → Serves codec sub x
      → Shows bearer (as_user ks (some expiry) x)
  as_user-Shows bearer sub expiry ks (w, ok q) v (coherent, row) p e = record {
    sub = sub;
    expiry = expiry;
    verified = v;
    row = row ∙ e;
  }
  as_user-Shows bearer sub expiry ks (w, err e') v served p e = cc

  after_verify-Shows :
      (bearer : Text) (x : KeySet × Result (List Cause) (Text × ℕ))
      → verify lib st.key_set m.now m.done m.jwks bearer ≡ x
      → IsCoherent codec st.world
      → Shows bearer (after_verify codec lib st m x)
  after_verify-Shows bearer (ks, err e') v coherent = λ p e. cc
  after_verify-Shows bearer (ks, ok (sub, expiry)) v coherent =
      as_user-Shows bearer sub expiry ks _ (ap (λ q. q.1) v)
        (find_or_create_by_sub-Serves codec st.world m.first m.now sub coherent)

  pub resolve_token-Shows :
      (bearer : Text)
      → IsCoherent codec st.world
      → Shows bearer (resolve_token codec lib st m bearer)
  unfolding resolve_token
  resolve_token-Shows bearer coherent = elim (Bool-cases (is_empty bearer)) [
    | inl e ↦ rw (e, resolve_token) (λ p e'. cc)
    | inr e ↦ rw (e, resolve_token) (after_verify-Shows bearer _ refl coherent)
  ]

  enforced-ok : (x : Resolved) (p : Profile) → enforced x ≡ ok p → x.user ≡ some p
  enforced-ok x p h = elim (Bool-cases x.provider_down) [
    | inl e ↦ absurd (err_not_ok (rw e at h))
    | inr e ↦ elim (Option-cases x.user) [
      | inl e' ↦ absurd (err_not_ok (rw (e, e') at h))
      | inr (q, e') ↦ e' ∙ ap some (ok_inj (rw (e, e') at h))
    ]
  ]
    where
      err_not_ok : {r : Response} → err r ≡ ok p → ⊥
      err_not_ok y = cc

      ok_inj : {q : Profile} → ◌≡◌ {A = Result Response Profile} (ok q) (ok p) → q ≡ p
      ok_inj y = cc

  -- Without mock identities, and while the profile cache is coherent, a request that `RequireAuth` lets through
  -- has a verified bearer token, and its user is the row of that token's subject, whatever header it sends.
  pub require_auth-IsAuthentic :
      (r : Request) (p : Profile)
      → IsCoherent codec st.world
      → (require_auth codec lib false st m r).1 ≡ ok p
      → IsAuthentic (bearer_token r) p (require_auth codec lib false st m r).0
  unfolding require_auth resolve
  require_auth-IsAuthentic r p coherent h =
      resolve_token-Shows (bearer_token r) coherent p
        (enforced-ok (resolve_token codec lib st m (bearer_token r)).1 p h)

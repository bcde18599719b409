-- ===== src/Graph/Handshake/Laws.antt =====
-- Who a socket is opened for, and for how long.
use lite_end_go.Base.{
  ℕ, ◌+◌, ◌≡◌, refl, ap, ◌∙◌, inl, inr, false, Option, none, some, List, subst, Bool-cases,
  is_empty, Result, ok, err,
}
use lite_end_go.Strings.{Text}
use lite_end_go.Profile.Store.{Profile, find_sub}
use lite_end_go.Profile.Service.{Codec, World, ServiceError}
use lite_end_go.Profile.Service.Coherence.{IsCoherent, Serves}
use lite_end_go.Profile.Service.Reads.{find_or_create_by_sub-Serves}
use lite_end_go.Auth.KeySet.{Cause, Library, KeySet}
use lite_end_go.Auth.Verifier.{verify}
use lite_end_go.Auth.Resolve.{
  strip_bearer, Resolved, State, Moment, as_user, after_verify, resolve_token, resolve,
}
use lite_end_go.Graph.Subscriptions.{with_subscription_budget}
use lite_end_go.Graph.Handshake.{
  Socket, Refusal, socket_of, admitted, opened_as, init_socket, ws_max_subscriptions_per_conn,
  deadline_of,
}

module _ (codec : Codec) (lib : Library) (st : State) (m : Moment) where
  -- The token is verified with that expiry, and the profile is the row of its subject.
  pub record IsDated (bearer : Text) (p : Profile) (expires_at : Option ℕ) (st' : State)
      : Type 0 where
    pub sub : Text
    pub expiry : ℕ
    pub verified : (verify lib st.key_set m.now m.done m.jwks bearer).1 ≡ ok (sub, expiry)
    pub row : find_sub sub st'.world.table.rows ≡ some p
    pub dated : expires_at ≡ some expiry

  abbrev Dates : Text → State × Resolved → Type 0
  Dates bearer (st', x) = (p : Profile) → x.user ≡ some p → IsDated bearer p x.expires_at st'

  as_user-Dates :
      (bearer sub : Text) (expiry : ℕ) (ks : KeySet) (x : World × Result ServiceError Profile)
      → (verify lib st.key_set m.now m.done m.jwks bearer).1 ≡ ok (sub, expiry)
      → Serves codec sub x
      → Dates bearer (as_user ks (some expiry) x)
  as_user-Dates bearer sub expiry ks (w, ok q) v (coherent, row) p e = record {
    sub = sub;
    expiry = expiry;
    verified = v;
    row = row ∙ e;
    dated = refl;
  }
  as_user-Dates bearer sub expiry ks (w, err e') v served p e = cc

  after_verify-Dates :
      (bearer : Text) (x : KeySet × Result (List Cause) (Text × ℕ))
      → verify lib st.key_set m.now m.done m.jwks bearer ≡ x
      → IsCoherent codec st.world
      → Dates bearer (after_verify codec lib st m x)
  after_verify-Dates bearer (ks, err e') v coherent = λ p e. cc
  after_verify-Dates bearer (ks, ok (sub, expiry)) v coherent =
      as_user-Dates bearer sub expiry ks _ (ap (λ q. q.1) v)
        (find_or_create_by_sub-Serves codec st.world m.first m.now sub coherent)

  resolve_token-Dates :
      (bearer : Text)
      → IsCoherent codec st.world
      → Dates bearer (resolve_token codec lib st m bearer)
  unfolding resolve_token
  resolve_token-Dates bearer coherent = elim (Bool-cases (is_empty bearer)) [
    | inl e ↦ rw (e, resolve_token) (λ p e'. cc)
    | inr e ↦ rw (e, resolve_token) (after_verify-Dates bearer _ refl coherent)
  ]

  -- A socket of a verified token: its user is the row of the token's subject, it has the whole budget of
  -- subscriptions, keeps the token for its operations, and ends at the token's expiry and the grace.
  pub record IsOpenedFor (grace : ℕ) (bearer : Text) (s : Socket) (st' : State) : Type 0 where
    pub sub : Text
    pub expiry : ℕ
    pub verified : (verify lib st.key_set m.now m.done m.jwks bearer).1 ≡ ok (sub, expiry)
    pub row : find_sub sub st'.world.table.rows ≡ some s.user
    pub ends : s.deadline ≡ some (expiry + grace)
    pub keeps : s.creds.0 ≡ bearer
    pub budget : s.slots ≡ with_subscription_budget ws_max_subscriptions_per_conn

  opened_as-IsOpenedFor :
      (grace : ℕ) (bearer mock_sub : Text) (x : State × Resolved) (s : Socket)
      → Dates bearer x
      → (opened_as grace (bearer, mock_sub) x).1 ≡ ok s
      → IsOpenedFor grace bearer s (opened_as grace (bearer, mock_sub) x).0
  unfolding opened_as admitted socket_of
  opened_as-IsOpenedFor grace bearer mock_sub (st', x) s d h = of_user x.user d h
    where
      ok_inj : {t : Socket} → ◌≡◌ {A = Result Refusal Socket} (ok t) (ok s) → t ≡ s
      ok_inj k = cc

      opened :
          (p : Profile)
          → IsDated bearer p x.expires_at st'
          → IsOpenedFor grace bearer (socket_of grace (bearer, mock_sub) x.expires_at p) st'
      opened p i = record {
        sub = i.sub;
        expiry = i.expiry;
        verified = i.verified;
        row = i.row;
        ends = ap (deadline_of grace) i.dated;
        keeps = refl;
        budget = refl;
      }

      of_user :
          (u : Option Profile)
          → ((p : Profile) → u ≡ some p → IsDated bearer p x.expires_at st')
          → admitted grace (bearer, mock_sub) x.expires_at u ≡ ok s
          → IsOpenedFor grace bearer s st'
      of_user none k e = cc
      of_user (some p) k e =
          subst (λ t. IsOpenedFor grace bearer t st') (ok_inj e) (opened p (k p refl))

  -- Without mock identities and with a coherent cache, a socket is opened only with a token that is verified
  -- now: its user is the row of the token's subject, it has the whole budget of subscriptions, keeps the
  -- token for its operations, and ends at the expiry of the token and the grace.
  pub init_socket-IsOpenedFor :
      (grace : ℕ) (authorization mock_sub : Text) (s : Socket)
      → IsCoherent codec st.world
      → (init_socket codec lib false st m grace authorization mock_sub).1 ≡ ok s
      → IsOpenedFor grace
          (strip_bearer authorization)
          s
          (init_socket codec lib false st m grace authorization mock_sub).0
  unfolding init_socket resolve
  init_socket-IsOpenedFor grace authorization mock_sub s coherent h =
      opened_as-IsOpenedFor grace (strip_bearer authorization) mock_sub
        (resolve_token codec lib st m (strip_bearer authorization)) s
        (resolve_token-Dates (strip_bearer authorization) coherent) h

-- ===== src/Auth/Resolve.antt =====
-- internal/auth/middleware.go: who makes a request, by its bearer token or, where mock identities are
-- enabled, by a header.
pub mod Laws
pub mod Outage
use lite_end_go.Base.{
  ℕ, Bool, true, false, ◌||◌, ◌&&◌, Option, none, some, List, [], ◌∷◌, ltb, length, take, drop,
  is_empty, if◌then◌else◌, Result, ok, err,
}
use lite_end_go.Strings.{Text, codes, equal_fold}
use lite_end_go.Http.{Request, Response, write_error}
use lite_end_go.Profile.Store.{Profile}
use lite_end_go.Profile.Service.{
  Codec, World, Faults, ServiceError, find_or_create_by_sub, find_by_sub, find_or_create_mock_user,
}
use lite_end_go.Auth.KeySet.{
  Cause, deadline_exceeded, canceled, net_error, url_error, other_error, Library, JwksReply, KeySet,
}
use lite_end_go.Auth.Verifier.{verify}

-- `parseBearer`.
unfoldable pub parse_bearer : Text → Option Text
parse_bearer auth_header =
    if ltb 7 (length auth_header) && equal_fold (take 7 auth_header) (codes "Bearer ")
    then some (drop 7 auth_header)
    else none

-- `StripBearer`, for the payload of a WebSocket.
unfoldable pub strip_bearer : Text → Text
unfolding parse_bearer
strip_bearer auth_header = elim (parse_bearer auth_header) [
  | none ↦ auth_header
  | some token ↦ token
]

-- `bearerToken`.
unfoldable pub bearer_token : Request → Text
unfolding parse_bearer
bearer_token r = elim (parse_bearer r.authorization) [ none ↦ [] | some token ↦ token ]

abbrev pub is_outage : Cause → Bool
is_outage other_error = false
is_outage _ = true

-- `isProviderUnavailable`, on the chain of an error.
unfoldable pub is_provider_unavailable : List Cause → Bool
is_provider_unavailable [] = false
is_provider_unavailable (c ∷ cs) = is_outage c || is_provider_unavailable cs

-- What `resolve` returns; the expiry is `none` where the source has the zero time.
pub record Resolved : Type 0 where
  pub user : Option Profile
  pub expires_at : Option ℕ
  pub provider_down : Bool

abbrev pub nobody : Bool → Resolved
nobody down = record { user = none; expires_at = none; provider_down = down }

abbrev pub somebody : Profile → Option ℕ → Resolved
somebody p expiry = record { user = some p; expires_at = expiry; provider_down = false }

-- The server's state: the profiles and the key set.
pub record State : Type 0 where
  pub world : World
  pub key_set : KeySet

abbrev pub as_user : KeySet → Option ℕ → World × Result ServiceError Profile → State × Resolved
as_user ks expiry (w, ok p) = (record { world = w; key_set = ks }, somebody p expiry)
as_user ks expiry (w, err e) = (record { world = w; key_set = ks }, nobody false)

-- What happens at one request: the clock before and after a fetch of the keys, the answer to it, and the
-- calls that fail for the first and for the second operation on profiles.
pub record Moment : Type 0 where
  pub now : ℕ
  pub done : ℕ
  pub jwks : JwksReply
  pub first : Faults
  pub second : Faults

-- The answer of `RequireAuth` to what is resolved.
abbrev pub enforced : Resolved → Result Response Profile
enforced x =
    if x.provider_down
    then err (write_error [] 503 (codes "Authentication provider unavailable"))
    else elim x.user [ none ↦ err (write_error [] 401 (codes "Unauthorized")) | some p ↦ ok p ]

module _ (codec : Codec) (lib : Library) where
  -- The mock identity: the profile that the header names, or else the mock user.
  unfoldable pub resolve_mock : State → Moment → Text → State × Resolved
  resolve_mock st m mock_sub =
      if is_empty mock_sub
      then as_user st.key_set none (find_or_create_mock_user st.world m.second m.now)
      else let (w, found) = find_by_sub codec st.world m.first mock_sub in
        elim found [
          | ok p ↦ (record { world = w; key_set = st.key_set }, somebody p none)
          | err e ↦ as_user st.key_set none (find_or_create_mock_user w m.second m.now)
        ]

  abbrev pub after_verify :
      State → Moment → KeySet × Result (List Cause) (Text × ℕ) → State × Resolved
  after_verify st m (ks, err e) = (record st { key_set = ks }, nobody (is_provider_unavailable e))
  after_verify st m (ks, ok (sub, expiry)) =
      as_user ks (some expiry) (find_or_create_by_sub codec st.world m.first m.now sub)

  unfoldable pub resolve_token : State → Moment → Text → State × Resolved
  resolve_token st m bearer =
      if is_empty bearer
      then (st, nobody false)
      else after_verify st m (verify lib st.key_set m.now m.done m.jwks bearer)

  -- `resolve`.
  unfoldable pub resolve : Bool → State → Moment → Text → Text → State × Resolved
  unfolding resolve_mock resolve_token
  resolve mock_enabled st m bearer mock_sub =
      if mock_enabled then resolve_mock st m mock_sub else resolve_token st m bearer

  -- `Optional`: the user that the next handler sees.
  unfoldable pub optional : Bool → State → Moment → Request → State × Option Profile
  unfolding resolve
  optional mock_enabled st m r =
      let (st', x) = resolve mock_enabled st m (bearer_token r) r.x_mock_sub in (st', x.user)

  -- `RequireAuth`: the answer, or the user of the next handler.
  unfoldable pub require_auth : Bool → State → Moment → Request → State × Result Response Profile
  unfolding resolve
  require_auth mock_enabled st m r =
      let (st', x) = resolve mock_enabled st m (bearer_token r) r.x_mock_sub in (st', enforced x)

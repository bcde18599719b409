-- ===== src/App/Routes.antt =====
-- `devGate` and `mountRoutes`.
use lite_end_go.Base.{
  ℕ, ◌≡◌, ◌↔◌, refl, sym, ◌∙◌, inl, inr, Bool, true, false, ◌&&◌, ◌||◌, Option, none, some, List,
  [], ◌∷◌, if◌then◌else◌, Bool-cases, All,
}
use lite_end_go.Strings.{Text, codes, same}
use lite_end_go.Net.{IpText}
use lite_end_go.Http.{Request, Response, write_error}
use lite_end_go.Middleware.RateLimit.{
  Reply, allow, retry_seconds, Verdict, passed, answered, throttle, per_ip_key,
}
use lite_end_go.Middleware.BasicAuth.{credentials_match, credentials_match_iff, basic_auth}

-- What the next middleware says of a request that passes.
abbrev pub then_verdict : Verdict → (Request → Verdict) → Verdict
then_verdict (passed r) next = next r
then_verdict (answered a) next = answered a

module _ (ip : IpText) where
  abbrev pub dev_allowed : (Text → Reply) → Request → Bool
  dev_allowed limiter r = (allow (limiter (per_ip_key ip (codes "dev") r))).0

  abbrev pub too_many : (ℕ → Text) → (Text → Reply) → Request → Response
  too_many number_text limiter r =
      write_error
        ((
          codes "Retry-After",
          number_text (retry_seconds (allow (limiter (per_ip_key ip (codes "dev") r))).1),
        )
          ∷ [])
        429 (codes "Too Many Requests")

module _ (number_text : ℕ → Text) (ip : IpText) (digest : Text → Text)
    (basic : Text → Option (Text × Text)) where
  -- `devGate`: the budget of the address is charged before the password is looked at.
  unfoldable pub dev_gate : (Text → Reply) → (admin_user admin_password : Text) → Request → Verdict
  dev_gate limiter admin_user admin_password r =
      then_verdict (throttle number_text limiter (per_ip_key ip (codes "dev")) r)
        (basic_auth digest basic (codes "liteend dev tools") admin_user admin_password)

  passed-ne-answered : {r : Request} {a : Response} → answered a ≡ passed r → ⊥
  passed-ne-answered h = cc

  dev_gate-in :
      (limiter : Text → Reply) (user pass : Text) (r : Request)
      → dev_allowed ip limiter r ≡ true
      → dev_gate limiter user pass r
        ≡ basic_auth digest basic (codes "liteend dev tools") user pass r
  unfolding dev_gate throttle
  dev_gate-in limiter user pass r h = rw h refl

  dev_gate-out :
      (limiter : Text → Reply) (user pass : Text) (r : Request)
      → dev_allowed ip limiter r ≡ false
      → dev_gate limiter user pass r ≡ answered (too_many ip number_text limiter r)
  unfolding dev_gate throttle
  dev_gate-out limiter user pass r h = rw h refl

  basic_auth-passed :
      (realm user pass : Text) (r : Request)
      → (basic_auth digest basic realm user pass r ≡ passed r)
        ↔ (credentials_match digest basic user pass (basic r.authorization) ≡ true)
  unfolding basic_auth
  basic_auth-passed realm user pass r =
      elim (Bool-cases (credentials_match digest basic user pass (basic r.authorization))) [
        | inl e ↦ (λ h. e, λ h. rw e refl)
        | inr e ↦ (λ h. absurd (passed-ne-answered (rw e at h)), λ h. absurd (differ h e))
      ]
    where
      differ : {b : Bool} → b ≡ true → b ≡ false → ⊥
      differ h k = cc

  -- With a digest without collisions, a request reaches a developer page exactly if the budget of its
  -- address allows it and it carries the right name and password. Over the budget the answer is 429
  -- whatever it carries, so that nothing is learnt of the password.
  pub dev_gate-passed :
      ((s t : Text) → digest s ≡ digest t → s ≡ t)
      → (limiter : Text → Reply) (user pass : Text) (r : Request)
      → ((dev_gate limiter user pass r ≡ passed r)
          ↔ ((dev_allowed ip limiter r ≡ true) × (basic r.authorization ≡ some (user, pass))))
        × (dev_allowed ip limiter r ≡ false
            → dev_gate limiter user pass r ≡ answered (too_many ip number_text limiter r))
  dev_gate-passed no_collision limiter user pass r = (
    elim (Bool-cases (dev_allowed ip limiter r)) [
      | inl e ↦ (
        λ h. (e, right.0 (basics.0 (sym (dev_gate-in limiter user pass r e) ∙ h))),
        λ (a, b). dev_gate-in limiter user pass r e ∙ basics.1 (right.1 b),
      )
      | inr e ↦ (
        λ h. absurd (passed-ne-answered (sym (dev_gate-out limiter user pass r e) ∙ h)),
        λ (a, b). absurd (differ a e),
      )
    ],
    dev_gate-out limiter user pass r,
  )
    where
      differ : {b : Bool} → b ≡ true → b ≡ false → ⊥
      differ h k = cc

      basics :
          (basic_auth digest basic (codes "liteend dev tools") user pass r ≡ passed r)
          ↔ (credentials_match digest basic user pass (basic r.authorization) ≡ true)
      basics = basic_auth-passed (codes "liteend dev tools") user pass r

      right :
          (credentials_match digest basic user pass (basic r.authorization) ≡ true)
          ↔ (basic r.authorization ≡ some (user, pass))
      right = credentials_match_iff digest basic no_collision user pass (basic r.authorization)

-- What a route ends in.
pub data Endpoint : Type 0 where
  live ready upload graphql playground dev_launcher api_reference openapi no_content : Endpoint

-- The middlewares that a route is given.
pub data Guard : Type 0 where
  require_auth optional_auth language dev_auth relaxed_csp : Guard

-- A route answers one method, or any.
pub record Route : Type 0 where
  pub method : Option Text
  pub path : Text
  pub guards : List Guard
  pub endpoint : Endpoint

abbrev get : Text → List Guard → Endpoint → Route
get path guards endpoint = record {
  method = some (codes "GET");
  path = path;
  guards = guards;
  endpoint = endpoint;
}

-- `mountRoutes`, with `Handler.Register`.
abbrev pub mount_routes : List Route
mount_routes =
    get (codes "/livez") [] live
    ∷ get (codes "/readyz") [] ready
    ∷ record {
      method = some (codes "POST");
      path = codes "/upload";
      guards = require_auth ∷ [];
      endpoint = upload;
    }
    ∷ record {
      method = none;
      path = codes "/graphql";
      guards = language ∷ optional_auth ∷ [];
      endpoint = graphql;
    }
    ∷ get (codes "/playground") (dev_auth ∷ relaxed_csp ∷ []) playground
    ∷ get (codes "/dev") (dev_auth ∷ relaxed_csp ∷ []) dev_launcher
    ∷ get (codes "/docs") (dev_auth ∷ relaxed_csp ∷ []) api_reference
    ∷ get (codes "/openapi.yaml") (dev_auth ∷ []) openapi
    ∷ get (codes "/favicon.ico") [] no_content
    ∷ []

abbrev is_method : Option Text → Text → Bool
is_method none method = true
is_method (some m) method = same m method

-- The router's choice: no path stands twice, so the order does not matter.
unfoldable pub route : List Route → (method path : Text) → Option Route
route [] method path = none
route (r ∷ rs) method path =
    if same r.path path && is_method r.method method then some r else route rs method path

abbrev is_guard : Guard → Guard → Bool
is_guard require_auth require_auth = true
is_guard optional_auth optional_auth = true
is_guard dev_auth dev_auth = true
is_guard _ _ = false

-- The guard that an endpoint must not be reached without stands before it.
abbrev has_guard : Guard → List Guard → Bool
has_guard g [] = false
has_guard g (h ∷ hs) = is_guard g h || has_guard g hs

abbrev pub guarded : Endpoint → List Guard → Bool
guarded upload gs = has_guard require_auth gs
guarded graphql gs = has_guard optional_auth gs
guarded playground gs = has_guard dev_auth gs
guarded dev_launcher gs = has_guard dev_auth gs
guarded api_reference gs = has_guard dev_auth gs
guarded openapi gs = has_guard dev_auth gs
guarded _ gs = true

abbrev pub RouteGuarded : Option Route → Type 0
RouteGuarded none = Unit
RouteGuarded (some r) = guarded r.endpoint r.guards ≡ true

route-RouteGuarded :
    (rs : List Route) (method path : Text)
    → All (λ r. guarded r.endpoint r.guards ≡ true) rs
    → RouteGuarded (route rs method path)
unfolding route
route-RouteGuarded [] method path a = tt
route-RouteGuarded (r ∷ rs) method path (h, a) =
    elim (Bool-cases (same r.path path && is_method r.method method)) [
      | inl e ↦ rw (route, e) h
      | inr e ↦ rw (route, e) (route-RouteGuarded rs method path a)
    ]

-- Whatever the method and the path, an upload is behind `RequireAuth`, GraphQL behind `Optional`, and a
-- developer page behind `devGate`.
pub mount_routes-RouteGuarded : (method path : Text) → RouteGuarded (route mount_routes method path)
mount_routes-RouteGuarded method path =
    route-RouteGuarded mount_routes method path
      (refl, (refl, (refl, (refl, (refl, (refl, (refl, (refl, (refl, tt)))))))))

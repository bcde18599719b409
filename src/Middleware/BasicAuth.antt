-- ===== src/Middleware/BasicAuth.antt =====
-- internal/middleware/basicauth.go. SHA-256 is the parameter `digest`; `basic` is what
-- `Request.BasicAuth` reads out of the Authorization header.
use lite_end_go.Base.{
  ◌≡◌, ◌↔◌, refl, sym, ap, Bool, true, false, ◌&&◌, Option, none, some, [], ◌∷◌, ◌++◌,
  if◌then◌else◌, subst, arith,
}
use lite_end_go.Strings.{Text, codes, same}
use lite_end_go.Strings.Laws.{same_iff, same_refl}
use lite_end_go.Http.{Request, Response, write_error}
use lite_end_go.Middleware.RateLimit.{Verdict, passed, answered}

module _ (digest : Text → Text) (basic : Text → Option (Text × Text)) where
  -- Both digests are compared, whatever the first comparison gives.
  abbrev pub matches : Text → Text → Text × Text → Bool
  matches user pass (u, p) = same (digest u) (digest user) && same (digest p) (digest pass)

  abbrev pub credentials_match : Text → Text → Option (Text × Text) → Bool
  credentials_match user pass none = false
  credentials_match user pass (some got) = matches user pass got

  abbrev pub refusal : Text → Response
  refusal realm =
      write_error ((codes "WWW-Authenticate", codes "Basic realm=\"" ++ (realm ++ codes "\"")) ∷ [])
        401 (codes "Unauthorized")

  -- `BasicAuth`.
  unfoldable pub basic_auth : Text → Text → Text → Request → Verdict
  basic_auth realm user pass r =
      if credentials_match user pass (basic r.authorization)
      then passed r
      else answered (refusal realm)

  module _ (no_collision : (s t : Text) → digest s ≡ digest t → s ≡ t) where
    matches-eq :
        (user pass : Text) (got : Text × Text) → matches user pass got ≡ true → got ≡ (user, pass)
    matches-eq user pass (u, p) h =
        let same_user = no_collision u user ((same_iff _ _).0 (left _ _ h)) in
        let same_pass = no_collision p pass ((same_iff _ _).0 (right _ _ h)) in
        rw (same_user, same_pass) refl
      where
        left : (a b : Bool) → (a && b) ≡ true → a ≡ true
        left a b e = ground arith

        right : (a b : Bool) → (a && b) ≡ true → b ≡ true
        right a b e = ground arith

    -- With a digest without collisions exactly the right name and password match.
    pub credentials_match_iff :
        (user pass : Text) (got : Option (Text × Text))
        → (credentials_match user pass got ≡ true) ↔ (got ≡ some (user, pass))
    credentials_match_iff user pass none = (λ h. cc, λ h. cc)
    credentials_match_iff user pass (some got) =
        (λ h. ap some (matches-eq user pass got h), λ h. back h)
      where
        right_ones : matches user pass (user, pass) ≡ true
        right_ones = rw (same_refl (digest user), same_refl (digest pass)) refl

        back : some got ≡ some (user, pass) → matches user pass got ≡ true
        back h = subst (λ o. credentials_match user pass o ≡ true) (sym h) right_ones

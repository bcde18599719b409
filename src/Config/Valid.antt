-- ===== src/Config/Valid.antt =====
-- What a configuration that `Load` accepts satisfies.
use lite_end_go.Base.{
  ℕ, ◌≡◌, refl, sym, ◌∙◌, ap, subst, ◌⊎◌, inl, inr, Bool, true, false, not, ◌&&◌, ◌||◌, Option,
  none, some, List, [], ◌∷◌, arith, is_empty, Bool-cases, All, Result, ok, err, ◌>>=◌, ◌>>◌,
}
use mathlib.Core.List.{reverse, reverse-reverse}
use lite_end_go.Strings.{
  Text, codes, same, has_byte, has_prefix, has_suffix, trim_left, trim_right, trim_space,
}
use lite_end_go.Strings.Laws.{same_iff}
use lite_end_go.Config.Lifetime.{HasLifetime, ttl_refused-HasLifetime}
use lite_end_go.Config.{
  Config, Url, ConfigError, is_production, files_are_public, ttl_refused, ensure, parsed_base,
  validate_signed, validate_file_links, trimmed_non_empty, known_env, normalised, load_config,
}

ensure-ok :
    {A : Type 0} (b : Bool) (e : ConfigError) (k : Result ConfigError A) (a : A)
    → (ensure b e >> k) ≡ ok a
    → (b ≡ true) × (k ≡ ok a)
ensure-ok true e k a h = (refl, h)
ensure-ok false e k a h = cc

abbrev is_web : Text → Bool
is_web scheme = same scheme (codes "http") || same scheme (codes "https")

-- The public base is a web address without query or fragment; where links are signed, its path is the bucket
-- and the lifetime passes the check of the source.
pub record IsLinkable (parse_url : Text → Option Url) (c : Config) : Type 0 where
  pub known :
      (same c.file_visibility (codes "private") || same c.file_visibility (codes "public")) ≡ true
  pub url : Url
  pub is_parsed : parse_url c.s3_public_base_url ≡ some url
  pub has_host : is_empty url.host ≡ false
  pub web : is_web url.scheme ≡ true
  pub plain : (is_empty url.raw_query && is_empty url.fragment) ≡ true
  pub signable :
      (files_are_public c ≡ true) ⊎ ((ttl_refused c ≡ false) × (url.path ≡ b'/' ∷ c.s3_bucket))

parsed_base-ok :
    (o : Option Url) (u : Url)
    → parsed_base o ≡ ok u
    → (o ≡ some u) × (is_empty u.host ≡ false) × (is_web u.scheme ≡ true)
parsed_base-ok none u h = cc
parsed_base-ok (some v) u h = elim (Bool-cases (is_empty v.host || not (is_web v.scheme))) [
  | inl bad ↦ absurd (err_not_ok (rw bad at h))
  | inr good ↦
      let same_url : v ≡ u = ok_inj (rw good at h) in
      let (host, web) = split (is_empty v.host) (is_web v.scheme) good in
      (
        ap some same_url,
        ap (λ (w : Url). is_empty w.host) (sym same_url) ∙ host,
        ap (λ (w : Url). is_web w.scheme) (sym same_url) ∙ web,
      )
]
  where
    err_not_ok : {e : ConfigError} → err e ≡ ok u → ⊥
    err_not_ok x = cc

    ok_inj : {w : Url} → ◌≡◌ {A = Result ConfigError Url} (ok w) (ok u) → w ≡ u
    ok_inj x = cc

    split : (a b : Bool) → (a || not b) ≡ false → (a ≡ false) × (b ≡ true)
    split a b x = (ground arith, ground arith)

bind-ok :
    {A B : Type 0} (r : Result ConfigError A) (k : A → Result ConfigError B) (b : B)
    → (r >>= k) ≡ ok b
    → (a : A) × (r ≡ ok a) × (k a ≡ ok b)
bind-ok (ok a) k b h = (a, refl, h)
bind-ok (err e) k b h = cc

validate_signed-ok :
    (c : Config) (u : Url)
    → validate_signed c u ≡ ok tt
    → (ttl_refused c ≡ false) × (u.path ≡ b'/' ∷ c.s3_bucket)
unfolding validate_signed
validate_signed-ok c u h =
    let (in_range, h1) = ensure-ok _ _ _ _ h in
    (not_true _ in_range, (same_iff u.path (b'/' ∷ c.s3_bucket)).0 (ensure-true _ _ h1))
  where
    ensure-true : (b : Bool) (e : ConfigError) → ensure b e ≡ ok tt → b ≡ true
    ensure-true true e x = refl
    ensure-true false e x = cc

    not_true : (b : Bool) → not b ≡ true → b ≡ false
    not_true b x = ground arith

validate_file_links-ok :
    (parse_url : Text → Option Url) (c : Config)
    → validate_file_links parse_url c ≡ ok tt
    → IsLinkable parse_url c
unfolding validate_file_links
validate_file_links-ok parse_url c h =
    let (known, h1) = ensure-ok _ _ _ _ h in
    let (u, got, h2) = bind-ok _ _ _ h1 in
    let (plain, h3) = ensure-ok _ _ _ _ h2 in
    let (is_parsed, has_host, web) = parsed_base-ok _ u got in
    record {
      known = known;
      url = u;
      is_parsed = is_parsed;
      has_host = has_host;
      web = web;
      plain = plain;
      signable = elim (Bool-cases (files_are_public c)) [
        | inl e ↦ inl e
        | inr e ↦ inr (validate_signed-ok c u (rw e at h3))
      ];
    }

trim_left-head : (s : Text) (c : ℕ) → has_prefix (trim_left s (c ∷ [])) (c ∷ []) ≡ false
unfolding trim_left has_byte has_prefix
trim_left-head [] c = refl
trim_left-head (x ∷ s) c = elim (Bool-cases (has_byte (c ∷ []) x)) [
  | inl e ↦ rw (e, trim_left) (trim_left-head s c)
  | inr e ↦ rw (e, trim_left, has_prefix) (ground arith)
]

trim_right-suffix : (s : Text) → has_suffix (trim_right s (codes "/")) (codes "/") ≡ false
unfolding trim_right has_suffix
trim_right-suffix s = rw (reverse-reverse) (trim_left-head (reverse s) b'/')

signable-HasLifetime :
    (parse_url : Text → Option Url) (c : Config)
    → IsLinkable parse_url c
    → (files_are_public c ≡ true) ⊎ HasLifetime c
signable-HasLifetime parse_url c v = elim v.signable [
  | inl e ↦ inl e
  | inr (in_range, path) ↦ inr (ttl_refused-HasLifetime c in_range)
]

trimmed_non_empty-All : (ss : List Text) → All (λ o. is_empty o ≡ false) (trimmed_non_empty ss)
unfolding trimmed_non_empty
trimmed_non_empty-All [] = tt
trimmed_non_empty-All (s ∷ ss) = elim (Bool-cases (is_empty (trim_space s))) [
  | inl e ↦ rw (e, trimmed_non_empty) (trimmed_non_empty-All ss)
  | inr e ↦ rw (e, trimmed_non_empty) (e, trimmed_non_empty-All ss)
]

-- What `Load` guarantees of its configuration.
pub record IsValid (parse_url : Text → Option Url) (c : Config) : Type 0 where
  pub env_known : known_env c.env ≡ true
  pub linkable : IsLinkable parse_url c
  pub lifetime : (files_are_public c ≡ true) ⊎ HasLifetime c
  pub no_slash : has_suffix c.s3_public_base_url (codes "/") ≡ false
  pub origins : All (λ o. is_empty o ≡ false) c.cors_origin
  pub no_mock : (is_production c && c.oidc_mock_enabled) ≡ false
  pub has_origin : (is_production c && is_empty c.cors_origin) ≡ false
  pub has_password : (is_production c && same c.admin_password (codes "admin")) ≡ false

normal : (d : Config) → known_env d.env ≡ true → known_env (normalised d).env ≡ true
unfolding normalised
normal d h = h

trimmed_base : (d : Config) → has_suffix (normalised d).s3_public_base_url (codes "/") ≡ false
unfolding normalised
trimmed_base d = trim_right-suffix d.s3_public_base_url

trimmed_origins : (d : Config) → All (λ o. is_empty o ≡ false) (normalised d).cors_origin
unfolding normalised
trimmed_origins d = trimmed_non_empty-All d.cors_origin

not_development : same (codes "production") (codes "development") ≡ false
unfolding same
not_development = refl

not_test : same (codes "production") (codes "test") ≡ false
unfolding same
not_test = refl

is_other :
    (env t : Text)
    → same env (codes "production") ≡ true
    → same (codes "production") t ≡ false
    → same env t ≡ false
is_other env t e h = ap (λ s. same s t) ((same_iff env (codes "production")).0 e) ∙ h

without_mock :
    (d : Config)
    → not (
        d.oidc_mock_enabled
        && not (same d.env (codes "development"))
        && not (same d.env (codes "test")))
      ≡ true
    → (is_production (normalised d) && (normalised d).oidc_mock_enabled) ≡ false
unfolding normalised is_production
without_mock d h = elim (Bool-cases (same d.env (codes "production"))) [
  | inr e ↦ rw e
  | inl e ↦ rw e (
      only_mock d.oidc_mock_enabled _ _ (is_other d.env (codes "development") e not_development)
        (is_other d.env (codes "test") e not_test) h)
]
  where
    only_mock :
        (m a b : Bool) → a ≡ false → b ≡ false → not (m && not a && not b) ≡ true → m ≡ false
    only_mock m a b p q x = ground arith

-- A configuration that is accepted has a known environment; its public base is a web address with a host and
-- without query, fragment or trailing slash; where links are signed, its path is the bucket, and their
-- lifetime is one minute to seven days, or so large that its nanoseconds pass 2^63; the allowed origins are no
-- empty texts; in production it has no mock identities, an origin, and not the default password.
pub load_config-IsValid :
    (parse_url : Text → Option Url) (read : Option Config) (c : Config)
    → load_config parse_url read ≡ ok c
    → IsValid parse_url c
unfolding load_config
load_config-IsValid parse_url none c h = absurd (err_not_ok h)
  where
    err_not_ok : {e : ConfigError} → err e ≡ ok c → ⊥
    err_not_ok x = cc
load_config-IsValid parse_url (some d) c h =
    let (env_known, h1) = ensure-ok _ _ _ _ h in
    let (no_mock, h2) = ensure-ok _ _ _ _ h1 in
    let (u, links, h3) = bind-ok _ _ _ h2 in
    let (origin, h4) = ensure-ok _ _ _ _ h3 in
    let (password, h5) = ensure-ok _ _ _ _ h4 in
    subst (IsValid parse_url) (ok_inj h5) (record {
      env_known = normal d env_known;
      linkable = validate_file_links-ok parse_url (normalised d) links;
      lifetime =
          signable-HasLifetime parse_url (normalised d)
            (validate_file_links-ok parse_url (normalised d) links);
      no_slash = trimmed_base d;
      origins = trimmed_origins d;
      no_mock = without_mock d no_mock;
      has_origin = not_true _ origin;
      has_password = not_true _ password;
    })
  where
    ok_inj : {x y : Config} → ◌≡◌ {A = Result ConfigError Config} (ok x) (ok y) → x ≡ y
    ok_inj e = cc

    not_true : (b : Bool) → not b ≡ true → b ≡ false
    not_true b x = ground arith

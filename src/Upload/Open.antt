-- ===== src/Upload/Open.antt =====
-- `New` and `parseEndpoint` of internal/upload/service.go: the service that a configuration gives.
use lite_end_go.Base.{
  ◌≡◌, refl, ap, ◌∙◌, subst, ◌⊎◌, inl, inr, Bool, true, false, ◌||◌, Option, none, some, is_empty,
  ◌∷◌, if◌then◌else◌, ok, Bool-cases,
}
use lite_end_go.Strings.{Text, codes, same}
use lite_end_go.Config.{Config, Url, file_link_ttl, files_are_public, ttl_refused, load_config}
use lite_end_go.Config.Valid.{IsLinkable, load_config-IsValid}
use lite_end_go.Upload.Links.{Service}

-- The rest of the configuration of the object store.
pub record Storage : Type 0 where
  pub s3_endpoint : Text
  pub s3_use_ssl : Bool

-- `Service`, with the address and the TLS flag of its client and of the one that will sign.
pub record Opened : Type 0 where
  pub service : Service
  pub endpoint : Text × Bool
  pub public_endpoint : Text × Bool

abbrev pub endpoint_of : Text → Bool → Option Url → Text × Bool
endpoint_of raw use_ssl none = (raw, use_ssl)
endpoint_of raw use_ssl (some u) =
    if is_empty u.host then (raw, use_ssl) else (u.host, use_ssl || same u.scheme (codes "https"))

module _ (parse_url : Text → Option Url) where
  -- `parseEndpoint`.
  unfoldable pub parse_endpoint : Text → Bool → Text × Bool
  parse_endpoint raw use_ssl = endpoint_of raw use_ssl (parse_url raw)

  -- `New`, with whether minio takes an address.
  unfoldable pub open_service : (Text × Bool → Bool) → Config → Storage → Option Opened
  unfolding parse_endpoint files_are_public file_link_ttl
  open_service builds c s =
      let endpoint = parse_endpoint s.s3_endpoint s.s3_use_ssl in
      if builds endpoint
      then some (record {
        service = record {
          public_url = c.s3_public_base_url;
          public = files_are_public c;
          link_ttl = file_link_ttl c;
          signer = none;
        };
        endpoint = endpoint;
        public_endpoint = parse_endpoint c.s3_public_base_url false;
      })
      else none

  -- The address for links is the host of the public base, over TLS exactly if that says so; and links are
  -- permanent, or signed for the configured time, which is in range.
  pub record IsServing (c : Config) (o : Opened) : Type 0 where
    pub url : Url
    pub is_parsed : parse_url c.s3_public_base_url ≡ some url
    pub has_host : is_empty url.host ≡ false
    pub address : o.public_endpoint ≡ (url.host, same url.scheme (codes "https"))
    pub base : o.service.public_url ≡ c.s3_public_base_url
    pub lifetime :
        (o.service.public ≡ true)
        ⊎ ((ttl_refused c ≡ false) × (o.service.link_ttl ≡ file_link_ttl c))

  endpoint_of-host :
      (raw : Text) (u : Url)
      → is_empty u.host ≡ false
      → endpoint_of raw false (some u) ≡ (u.host, same u.scheme (codes "https"))
  endpoint_of-host raw u h = rw h refl

  -- With a configuration that `Load` accepts, a service that is opened serves links at the public base's host.
  pub open_service-IsServing :
      (read : Option Config) (c : Config) (builds : Text × Bool → Bool) (s : Storage) (o : Opened)
      → load_config parse_url read ≡ ok c
      → open_service builds c s ≡ some o
      → IsServing c o
  unfolding open_service parse_endpoint files_are_public file_link_ttl
  open_service-IsServing read c builds s o loaded h =
      elim (Bool-cases (builds (parse_endpoint s.s3_endpoint s.s3_use_ssl))) [
        | inl e ↦ subst (IsServing c) (some_inj (rw e at h)) serving
        | inr e ↦ absurd (none_not_some (rw e at h))
      ]
    where
      some_inj : {p q : Opened} → some p ≡ some q → p ≡ q
      some_inj k = cc

      none_not_some : {p : Opened} → none ≡ some p → ⊥
      none_not_some k = cc

      links : IsLinkable parse_url c
      links = (load_config-IsValid parse_url read c loaded).linkable

      public_or_signed :
          (files_are_public c ≡ true)
            ⊎ ((ttl_refused c ≡ false) × (links.url.path ≡ b'/' ∷ c.s3_bucket))
          → (files_are_public c ≡ true)
            ⊎ ((ttl_refused c ≡ false) × (file_link_ttl c ≡ file_link_ttl c))
      public_or_signed (inl p) = inl p
      public_or_signed (inr (t, p)) = inr (t, refl)

      serving : IsServing c (record {
        service = record {
          public_url = c.s3_public_base_url;
          public = files_are_public c;
          link_ttl = file_link_ttl c;
          signer = none;
        };
        endpoint = parse_endpoint s.s3_endpoint s.s3_use_ssl;
        public_endpoint = parse_endpoint c.s3_public_base_url false;
      })
      serving = record {
        url = links.url;
        is_parsed = links.is_parsed;
        has_host = links.has_host;
        address =
            ap (endpoint_of c.s3_public_base_url false) links.is_parsed
            ∙ endpoint_of-host c.s3_public_base_url links.url links.has_host;
        base = refl;
        lifetime = public_or_signed links.signable;
      }

-- ===== src/Config/Tests.antt =====
-- Configurations at concrete inputs.
use lite_end_go.Base.{◌≡◌, ◌+◌, refl, arith, false, Option, some, [], ◌∷◌, ok}
use lite_end_go.Strings.{Text, codes, same, trim_space}
use lite_end_go.Config.{
  Config, Url, validate_file_links, files_are_public, is_production, trimmed_non_empty, load_config,
  normalised, ttl_refused, file_link_ttl, validate_signed,
}
use lite_end_go.Config.Valid.{IsValid, load_config-IsValid}
use lite_end_go.Config.Lifetime.{validate_signed-wraps}

abbrev production : Config
production = record {
  cors_origin = codes "https://app.example" ∷ codes " " ∷ [];
  env = codes "production";
  s3_bucket = codes "uploads";
  s3_public_base_url = codes "https://s3.example/uploads/";
  file_visibility = codes "private";
  file_link_ttl_minutes = 60;
  oidc_mock_enabled = false;
  admin_password = codes "secret";
}

abbrev uploads_url : Url
uploads_url = record {
  scheme = codes "https";
  host = codes "s3.example";
  path = codes "/uploads";
  raw_query = [];
  fragment = [];
}

abbrev parse_sample : Text → Option Url
parse_sample t = some uploads_url

accepted : load_config parse_sample (some production) ≡ ok (normalised production)
unfolding load_config same validate_file_links normalised files_are_public validate_signed
    ttl_refused is_production trimmed_non_empty trim_space
accepted = refl

load_config-IsValid_example : IsValid parse_sample (normalised production)
load_config-IsValid_example =
    load_config-IsValid parse_sample (some production) (normalised production) accepted

-- 292 years, of which the product is negative.
negative_lifetime :
    validate_signed (record production { file_link_ttl_minutes = 153_722_868 }) uploads_url ≡ ok tt
unfolding validate_signed ttl_refused file_link_ttl same
negative_lifetime = refl

validate_signed-wraps_example :
    validate_signed
      (record production { file_link_ttl_minutes = 60 + 9_007_199_254_740_992 })
      uploads_url
    ≡ validate_signed (record production { file_link_ttl_minutes = 60 }) uploads_url
validate_signed-wraps_example =
    validate_signed-wraps production uploads_url 60 (omega arith) (omega arith)

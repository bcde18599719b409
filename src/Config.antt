-- ===== src/Config.antt =====
-- internal/config/config.go: the checks of a configuration. Reading the environment (caarlos0/env) and
-- parsing a URL (net/url) are parameters. An `int` is its 64-bit two's complement word.
pub mod Valid
pub mod Lifetime
mod Tests
use lite_end_go.Base.{
  ℕ, ◌*◌, ◌%◌, Bool, true, false, not, ◌&&◌, ◌||◌, Option, none, some, List, [], ◌∷◌, ltb, leb,
  ◌==◌, is_empty, if◌then◌else◌, Result, ok, err, ◌>>=◌, ◌>>◌,
}
use lite_end_go.Strings.{Text, codes, same, trim_right, trim_space}

-- The fields of `Config` that `Load` changes or checks.
pub record Config : Type 0 where
  pub cors_origin : List Text
  pub env : Text
  pub s3_bucket : Text
  pub s3_public_base_url : Text
  pub file_visibility : Text
  pub file_link_ttl_minutes : ℕ
  pub oidc_mock_enabled : Bool
  pub admin_password : Text

pub record Url : Type 0 where
  pub scheme : Text
  pub host : Text
  pub path : Text
  pub raw_query : Text
  pub fragment : Text

pub data ConfigError : Type 0 where
  not_parsed unknown_env mock_not_allowed bad_visibility bad_public_base query_in_base : ConfigError
  bad_ttl not_the_bucket no_cors_origin default_password : ConfigError

abbrev pub word : ℕ
word = 18_446_744_073_709_551_616

abbrev pub sign_bit : ℕ
sign_bit = 9_223_372_036_854_775_808

-- `MaxFileLinkTTL`, in nanoseconds.
abbrev pub max_file_link_ttl : ℕ
max_file_link_ttl = 604_800_000_000_000

abbrev pub is_negative : ℕ → Bool
is_negative w = leb sign_bit w

-- `IsProduction`.
unfoldable pub is_production : Config → Bool
is_production c = same c.env (codes "production")

-- `FileLinkTTL`: the product of a `time.Duration` wraps.
unfoldable pub file_link_ttl : Config → ℕ
file_link_ttl c = (c.file_link_ttl_minutes * 60_000_000_000) % word

-- `FilesArePublic`.
unfoldable pub files_are_public : Config → Bool
files_are_public c = same c.file_visibility (codes "public")

abbrev pub ensure : Bool → ConfigError → Result ConfigError (Unit {0})
ensure true e = ok tt
ensure false e = err e

abbrev pub parsed_base : Option Url → Result ConfigError Url
parsed_base none = err bad_public_base
parsed_base (some u) =
    if is_empty u.host || not (same u.scheme (codes "http") || same u.scheme (codes "https"))
    then err bad_public_base
    else ok u

-- `FileLinkTTLMinutes < 1 || FileLinkTTL() > MaxFileLinkTTL`, on signed words.
unfoldable pub ttl_refused : Config → Bool
unfolding file_link_ttl
ttl_refused c =
    (c.file_link_ttl_minutes == 0 || is_negative c.file_link_ttl_minutes)
    || (not (is_negative (file_link_ttl c)) && ltb max_file_link_ttl (file_link_ttl c))

-- The checks that only signed links need.
unfoldable pub validate_signed : Config → Url → Result ConfigError (Unit {0})
validate_signed c u = do
  ensure (not (ttl_refused c)) bad_ttl
  ensure (same u.path (b'/' ∷ c.s3_bucket)) not_the_bucket

module _ (parse_url : Text → Option Url) where
  -- `validateFileLinks`.
  unfoldable pub validate_file_links : Config → Result ConfigError (Unit {0})
  validate_file_links c = do
    ensure (same c.file_visibility (codes "private") || same c.file_visibility (codes "public"))
        bad_visibility
    u ← parsed_base (parse_url c.s3_public_base_url)
    ensure (is_empty u.raw_query && is_empty u.fragment) query_in_base
    if files_are_public c then ok tt else validate_signed c u

-- `trimmedNonEmpty`.
unfoldable pub trimmed_non_empty : List Text → List Text
trimmed_non_empty [] = []
trimmed_non_empty (s ∷ ss) =
    let rest = trimmed_non_empty ss in if is_empty (trim_space s) then rest else trim_space s ∷ rest

abbrev pub known_env : Text → Bool
known_env env =
    same env (codes "development") || same env (codes "test") || same env (codes "production")

-- The configuration with its lists and links in the form that the rest of the program expects.
unfoldable pub normalised : Config → Config
normalised c = record c {
  cors_origin = trimmed_non_empty c.cors_origin;
  s3_public_base_url = trim_right c.s3_public_base_url (codes "/");
}

abbrev pub parsed : Option Config → Result ConfigError Config
parsed none = err not_parsed
parsed (some c) = ok c

-- `Load`, from what `env.Parse` reads.
unfoldable pub load_config : (Text → Option Url) → Option Config → Result ConfigError Config
load_config parse_url read = do
  c ← parsed read
  ensure (known_env c.env) unknown_env
  ensure
      (not (
        c.oidc_mock_enabled
        && not (same c.env (codes "development"))
        && not (same c.env (codes "test"))))
      mock_not_allowed
  validate_file_links parse_url (normalised c)
  ensure (not (is_production (normalised c) && is_empty (normalised c).cors_origin)) no_cors_origin
  ensure (not (is_production (normalised c) && same (normalised c).admin_password (codes "admin")))
      default_password
  ok (normalised c)

-- `mockEnabled` of internal/app/app.go.
unfoldable pub mock_enabled : Config → Bool
unfolding is_production
mock_enabled c = c.oidc_mock_enabled && not (is_production c)

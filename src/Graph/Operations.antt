-- ===== src/Graph/Operations.antt =====
-- internal/graph/resolver/schema.resolvers.go: the operations on profiles.
pub mod Laws
pub mod Delivered
use lite_end_go.Base.{
  ℕ, Bool, true, false, not, Option, none, some, List, [], ◌∷◌, ltb, if◌then◌else◌, Result, ok, err,
  ◌>>=◌, ◌>>◌,
}
use lite_end_go.Strings.{Text, codes, rune_count}
use lite_end_go.Middleware.RateLimit.{Reply, allow}
use lite_end_go.Profile.Store.{Role, admin, Profile, Changes}
use lite_end_go.Profile.Service.{Codec, World, Faults, ServiceError, update, count}
use lite_end_go.Upload.Table.{Uploads}
use lite_end_go.Upload.Links.{Service, Signing}
use lite_end_go.Config.{Url}
use lite_end_go.Auth.Guards.{AuthError, require, require_role}
use lite_end_go.Graph.Avatar.{
  GraphError, not_allowed, client_error, failed, allow_if, validate_profile_update, stored_avatar,
  to_model_profile,
}

-- What one operation meets: the uploads, whether the ownership query fails when the avatar is checked and when it
-- is served, the object store, the failing calls, the clock, and whether events are published.
pub record Moment : Type 0 where
  pub uploads : Uploads
  pub check_fails : Bool
  pub read_fails : Bool
  pub signing : Signing
  pub faults : Faults
  pub now : ℕ
  pub has_pub_sub : Bool

abbrev pub guarded {ℓ} : {A : Type ℓ} → Result AuthError A → Result GraphError A
guarded (ok a) = ok a
guarded (err e) = err (not_allowed e)

abbrev pub too_many_requests : GraphError
too_many_requests = client_error (codes "Too Many Requests") (codes "TOO_MANY_REQUESTS") 429

-- What an update leaves: the state, the event that it publishes, and its answer.
pub record Outcome : Type 0 where
  pub world : World
  pub files : Option Service
  pub published : Option Profile
  pub result : Result GraphError Profile

-- The guards of `UpdateProfile`: the caller, and the avatar as it is stored.
unfoldable pub prepared :
    (Text → Option Url)
    → Option Service
    → Moment
    → Option Profile
    → Changes
    → Result GraphError (Profile × Option Text)
prepared parse_url files m user c = do
  u ← guarded (require user)
  validate_profile_update parse_url c
  avatar ← stored_avatar files m.uploads m.check_fails u.id c.avatar_url
  ok (u, avatar)

abbrev pub finished : Option Service → Moment → World × Result ServiceError Profile → Outcome
finished files m (w, err e) = record {
  world = w;
  files = files;
  published = none;
  result = err failed;
}
finished files m (w, ok p) =
    let (files', q) = to_model_profile files m.signing m.uploads m.read_fails p in
    record {
      world = w;
      files = files';
      published = if m.has_pub_sub then some p else none;
      result = ok q;
    }

-- `UpdateProfile`.
unfoldable pub mutate_profile :
    Codec
    → (Text → Option Url)
    → World
    → Option Service
    → Moment
    → Option Profile
    → Changes
    → Outcome
mutate_profile codec parse_url w files m user c = elim (prepared parse_url files m user c) [
  | err e ↦ record { world = w; files = files; published = none; result = err e }
  | ok (u, avatar) ↦
      finished files m
        (update codec w m.faults m.now u.id u.oidc_sub (record c { avatar_url = avatar }))
]

-- `Me`.
unfoldable pub me :
    Option Service → Moment → Option Profile → Option Service × Result GraphError Profile
unfolding to_model_profile
me files m user = elim (guarded (require user)) [
  | err e ↦ (files, err e)
  | ok u ↦
      let (files', q) = to_model_profile files m.signing m.uploads m.read_fails u in (files', ok q)
]

-- `Echo`, of queries and of mutations.
unfoldable pub echo : Option Profile → Text → Result GraphError Text
echo user text = guarded (require_role user admin) >>= λ u. ok text

-- The part of `Debug` that reads the database.
unfoldable pub debug_total : World → Faults → Option Profile → Result GraphError ℕ
debug_total w f user =
    guarded (require_role user admin) >>= λ u. elim (count w f) [ ok n ↦ ok n | err e ↦ err failed ]

-- ===== src/Upload/Links.antt =====
-- The links of internal/upload/service.go: `LinkFor`, `linkSignerFor`, `OwnedBy`, `PermanentLink`
-- and `KeyFromLink`. The signature itself is the object store client's.
pub mod Laws
use lite_end_go.Base.{
  ℕ, Bool, true, false, ◌||◌, Option, none, some, List, [], ◌∷◌, ◌++◌, ◌==◌, if◌then◌else◌,
  is_empty, Result, ok, err,
}
use lite_end_go.Strings.{Text, codes, cut_prefix, cut_byte, has_prefix, contains}
use lite_end_go.Upload.Table.{Upload, Uploads, get_upload_by_filepath}

-- The part of `Service` that links depend on; `signer` is the region that the signing client is
-- bound to, once there is one.
pub record Service : Type 0 where
  pub public_url : Text
  pub public : Bool
  pub link_ttl : ℕ
  pub signer : Option Text

-- What the object store answers while a link is made: the bucket's region, whether a client for it
-- can be built, and the signed URL of a key for a region and a lifetime.
pub record Signing : Type 0 where
  pub region : Option Text
  pub client_builds : Bool
  pub presign : Text → Text → ℕ → Option Text

pub data LinkError : Type 0 where
  region_unknown client_failed sign_failed : LinkError

-- `linkSignerFor`: the first client that is built is kept.
unfoldable pub link_signer_for : Service → Signing → Service × Result LinkError Text
link_signer_for s env = elim s.signer [
  | some region ↦ (s, ok region)
  | none ↦ elim env.region [
    | none ↦ (s, err region_unknown)
    | some region ↦
        if env.client_builds
        then (record s { signer = some region }, ok region)
        else (s, err client_failed)
  ]
]

unfoldable pub permanent_link : Service → Text → Text
permanent_link s key = s.public_url ++ (b'/' ∷ key)

abbrev pub signed :
    Signing → Text → ℕ → Service × Result LinkError Text → Service × Result LinkError Text
signed env key ttl (s, err e) = (s, err e)
signed env key ttl (s, ok region) = elim (env.presign region key ttl) [
  | none ↦ (s, err sign_failed)
  | some url ↦ (s, ok url)
]

-- `LinkFor`.
unfoldable pub link_for : Service → Signing → Text → Service × Result LinkError Text
unfolding link_signer_for permanent_link
link_for s env key =
    if s.public
    then (s, ok (permanent_link s key))
    else signed env key s.link_ttl (link_signer_for s env)

abbrev pub owner_is : Option ℕ → ℕ → Bool
owner_is none id = false
owner_is (some owner) id = owner == id

-- `OwnedBy`; `none` where the database does not answer.
unfoldable pub owned_by : Uploads → Bool → Text → ℕ → Option Bool
owned_by t select_fails key profile_id =
    if select_fails then none else elim (get_upload_by_filepath t key) [
      | none ↦ some false
      | some up ↦ some (owner_is up.uploader_profile_id profile_id)
    ]

-- Whether a key that a client sent is refused.
unfoldable pub is_unsafe : Text → Bool
unfolding has_prefix contains
is_unsafe key = is_empty key || has_prefix key (codes "/") || contains key (codes "..")

abbrev pub plain_key : Text → Option Text
plain_key key = if is_unsafe key then none else some key

-- `KeyFromLink`.
unfoldable pub key_from_link : Service → Text → Option Text
key_from_link s link = elim (cut_prefix link (s.public_url ++ b'/' ∷ [])) [
  | none ↦ none
  | some rest ↦ plain_key ((cut_byte rest b'?').0)
]

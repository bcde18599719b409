-- ===== src/Graph/Avatar.antt =====
-- internal/graph/resolver/validate.go and convert.go: the limits on a profile's fields, and the avatar, which is
-- stored as a permanent link and served as a fresh one.
pub mod Laws
use lite_end_go.Base.{
  ℕ, Bool, true, false, not, ◌&&◌, ◌||◌, Option, none, some, List, [], ◌∷◌, ltb, is_empty,
  if◌then◌else◌, Result, ok, err, ◌>>=◌, ◌>>◌,
}
use lite_end_go.Strings.{Text, codes, same, trim, rune_count}
use lite_end_go.Profile.Store.{Profile, Changes, blank_chars}
use lite_end_go.Upload.Table.{Uploads}
use lite_end_go.Upload.Links.{
  Service, Signing, LinkError, link_for, owned_by, key_from_link, permanent_link,
}
use lite_end_go.Config.{Url}
use lite_end_go.Auth.Guards.{AuthError}

-- An error of a guard, one with a code for the client, or one that is masked.
pub data GraphError : Type 0 where
  not_allowed : AuthError → GraphError
  client_error : (message code : Text) (status : ℕ) → GraphError
  failed : GraphError

-- `badInput`.
abbrev pub bad_input : Text → GraphError
bad_input message = client_error message (codes "BAD_USER_INPUT") 400

abbrev pub too_long : ℕ → Option Text → Bool
too_long limit none = false
too_long limit (some t) = ltb limit (rune_count t)

abbrev pub allow_if : Bool → Text → Result GraphError (Unit {0})
allow_if true message = ok tt
allow_if false message = err (bad_input message)

-- `u.IsAbs()`, with a scheme of the web.
abbrev pub is_web_url : Option Url → Bool
is_web_url none = false
is_web_url (some u) =
    not (is_empty u.scheme) && (same u.scheme (codes "http") || same u.scheme (codes "https"))

-- Whether the avatar is left out, blank, or a web address.
abbrev pub avatar_allowed : (Text → Option Url) → Option Text → Bool
avatar_allowed parse_url none = true
avatar_allowed parse_url (some t) = is_empty (trim t blank_chars) || is_web_url (parse_url t)

-- `validateProfileUpdate`; the input is that of the update.
unfoldable pub validate_profile_update :
    (Text → Option Url) → Changes → Result GraphError (Unit {0})
validate_profile_update parse_url c = do
  allow_if (not (too_long 100 c.display_name)) (codes "displayName must be at most 100 characters")
  allow_if (not (too_long 1000 c.bio)) (codes "bio must be at most 1000 characters")
  allow_if (not (too_long 2048 c.avatar_url)) (codes "avatarUrl must be at most 2048 characters")
  allow_if (avatar_allowed parse_url c.avatar_url)
      (codes "avatarUrl must be a valid absolute http(s) URL")

-- The link, or no avatar where it could not be made.
abbrev pub served : Service × Result LinkError Text → Option Service × Option Text
served (s, err e) = (some s, none)
served (s, ok link) = (some s, some link)

abbrev pub own_link : Service → Signing → Text → Option Bool → Option Service × Option Text
own_link s env key none = (some s, none)
own_link s env key (some false) = (some s, none)
own_link s env key (some true) = served (link_for s env key)

-- `avatarLink`, with the table of uploads and whether its query fails.
unfoldable pub avatar_link :
    Option Service → Signing → Uploads → Bool → ℕ → Option Text → Option Service × Option Text
avatar_link files env t fails profile_id none = (files, none)
avatar_link none env t fails profile_id (some stored) = (none, some stored)
avatar_link (some s) env t fails profile_id (some stored) = elim (key_from_link s stored) [
  | none ↦ (some s, some stored)
  | some key ↦ own_link s env key (owned_by t fails key profile_id)
]

abbrev pub own_key : Service → Text → Option Bool → Result GraphError (Option Text)
own_key s key none = err failed
own_key s key (some false) = err (bad_input (codes "avatarUrl must be a file you uploaded"))
own_key s key (some true) = ok (some (permanent_link s key))

-- `storedAvatar`.
unfoldable pub stored_avatar :
    Option Service → Uploads → Bool → ℕ → Option Text → Result GraphError (Option Text)
stored_avatar files t fails profile_id none = ok none
stored_avatar none t fails profile_id (some link) = ok (some link)
stored_avatar (some s) t fails profile_id (some link) = elim (key_from_link s link) [
  | none ↦ ok (some link)
  | some key ↦ own_key s key (owned_by t fails key profile_id)
]

-- `toModelProfile`, but for the text of the id.
unfoldable pub to_model_profile :
    Option Service → Signing → Uploads → Bool → Profile → Option Service × Profile
unfolding avatar_link
to_model_profile files env t fails p =
    let (files', avatar) = avatar_link files env t fails p.id p.avatar_url in
    (files', record p { avatar_url = avatar })

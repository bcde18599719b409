-- ===== src/Profile/Service.antt =====
-- internal/profile/service.go: profiles by subject, behind a Redis cache (internal/redis/redis.go).
-- `encoding/json` on a profile is the parameter `Codec`. Which calls of a request fail is its
-- argument `Faults`: an operation makes each call at most once.
pub mod Coherence
pub mod Reads
pub mod Writes
pub mod Refines
pub mod History
use lite_end_go.Base.{
  ℕ, ◌≡◌, Bool, true, false, Option, none, some, List, [], ◌∷◌, ◌++◌, if◌then◌else◌, Result, ok,
  err,
}
use lite_end_go.Strings.{Text, codes, same}
use lite_end_go.Profile.Store.{
  Profile, Table, Changes, admin, user, get_profile_by_oidc_sub, create_profile, update_profile,
  count_profiles,
}

pub record Codec : Type 0 where
  pub encode : Profile → Text
  pub decode : Text → Option Profile
  pub decode-encode : (p : Profile) → decode (encode p) ≡ some p

-- The database, and Redis as a map from keys. An entry that expires leaves the map.
pub record World : Type 0 where
  pub table : Table
  pub cache : Text → Option Text

pub record Faults : Type 0 where
  pub get_fails : Bool
  pub set_fails : Bool
  pub delete_fails : Bool
  pub select_fails : Bool
  pub insert_fails : Bool
  pub update_fails : Bool

abbrev pub no_faults : Faults
no_faults = record {
  get_fails = false;
  set_fails = false;
  delete_fails = false;
  select_fails = false;
  insert_fails = false;
  update_fails = false;
}

-- The map with one key set to a value, or cleared.
abbrev pub put : (Text → Option Text) → Text → Option Text → Text → Option Text
put m key v k = if same key k then v else m k

-- `Client.GetString`, `SetString` and `Delete`; the first tells a miss from a failure only for the log.
unfoldable pub get_string : World → Faults → Text → Option Text
get_string w f key = if f.get_fails then none else w.cache key

unfoldable pub set_string : World → Faults → Text → Text → World
set_string w f key value =
    if f.set_fails then w else record w { cache = put w.cache key (some value) }

unfoldable pub delete : World → Faults → Text → World
delete w f key = if f.delete_fails then w else record w { cache = put w.cache key none }

-- `cacheKey`.
unfoldable pub cache_key : Text → Text
cache_key sub = codes "profile:sub:" ++ sub

abbrev pub mock_sub : Text
mock_sub = codes "mock-oidc-sub"

abbrev pub mock_avatar : Text
mock_avatar = codes "https://i.pravatar.cc/300"

pub data ServiceError : Type 0 where
  get_profile_failed create_profile_failed get_mock_user_failed update_profile_failed : ServiceError
  profile_not_found count_failed : ServiceError

unfoldable pub invalidate : World → Faults → Text → World
unfolding delete
invalidate w f sub = delete w f (cache_key sub)

-- `create`, with the error that its callers pass on.
unfoldable pub create : World → Faults → ℕ → Text → World × Result ServiceError Profile
create w f now sub =
    if f.insert_fails
    then (w, err create_profile_failed)
    else let (t, p) = create_profile now w.table sub in (record w { table = t }, ok p)

-- The database part of `FindOrCreateBySub`, on a cache miss.
unfoldable pub find_or_create_row : World → Faults → ℕ → Text → World × Result ServiceError Profile
unfolding create
find_or_create_row w f now sub =
    if f.select_fails
    then (w, err get_profile_failed)
    else elim (get_profile_by_oidc_sub w.table sub) [
      | none ↦ create w f now sub
      | some p ↦ (w, ok p)
    ]

abbrev pub or_else :
    World × Option Profile
    → (World → World × Result ServiceError Profile)
    → World × Result ServiceError Profile
or_else (w, some p) miss = (w, ok p)
or_else (w, none) miss = miss w

unfoldable pub find_row : World → Faults → Text → World × Result ServiceError Profile
find_row w f sub =
    if f.select_fails
    then (w, err get_profile_failed)
    else elim (get_profile_by_oidc_sub w.table sub) [
      | none ↦ (w, err profile_not_found)
      | some p ↦ (w, ok p)
    ]

-- Roles and avatar as the mock user is served; nothing of them is stored.
abbrev pub as_mock : World × Result ServiceError Profile → World × Result ServiceError Profile
as_mock (w, err e) = (w, err e)
as_mock (w, ok p) = (w, ok (record p { roles = user ∷ admin ∷ []; avatar_url = some mock_avatar }))

unfoldable pub find_or_create_mock_user : World → Faults → ℕ → World × Result ServiceError Profile
unfolding create
find_or_create_mock_user w f now = as_mock (
    if f.select_fails
    then (w, err get_mock_user_failed)
    else elim (get_profile_by_oidc_sub w.table mock_sub) [
      | none ↦ create w f now mock_sub
      | some p ↦ (w, ok p)
    ])

unfoldable pub count : World → Faults → Result ServiceError ℕ
count w f = if f.select_fails then err count_failed else ok (count_profiles w.table)

module _ (codec : Codec) where
  -- An entry that does not decode is dropped.
  unfoldable pub from_cache : World → Faults → Text → World × Option Profile
  unfolding get_string delete
  from_cache w f sub = elim (get_string w f (cache_key sub)) [
    | none ↦ (w, none)
    | some raw ↦ elim (codec.decode raw) [
      | none ↦ (delete w f (cache_key sub), none)
      | some p ↦ (w, some p)
    ]
  ]

  unfoldable pub to_cache : World → Faults → Profile → World
  unfolding set_string
  to_cache w f p = set_string w f (cache_key p.oidc_sub) (codec.encode p)

  -- The profile of a successful step goes to the cache.
  abbrev pub cached :
      Faults → World × Result ServiceError Profile → World × Result ServiceError Profile
  cached f (w, err e) = (w, err e)
  cached f (w, ok p) = (to_cache w f p, ok p)

  unfoldable pub find_or_create_by_sub :
      World → Faults → ℕ → Text → World × Result ServiceError Profile
  find_or_create_by_sub w f now sub =
      or_else (from_cache w f sub) λ w'. cached f (find_or_create_row w' f now sub)

  unfoldable pub find_by_sub : World → Faults → Text → World × Result ServiceError Profile
  find_by_sub w f sub = or_else (from_cache w f sub) λ w'. cached f (find_row w' f sub)

  unfoldable pub update :
      World → Faults → ℕ → ℕ → Text → Changes → World × Result ServiceError Profile
  update w f now id sub c =
      if f.update_fails
      then (w, err update_profile_failed)
      else elim (update_profile now w.table id c) [
        | none ↦ (w, err update_profile_failed)
        | some (t, p) ↦
            let w' = invalidate (record w { table = t }) f sub in (to_cache w' f p, ok p)
      ]

-- ===== src/Graph/Tests.antt =====
-- Avatars, updates and subscriptions at concrete inputs.
use lite_end_go.Base.{
  arith, ◌≡◌, ◌≤◌, refl, inl, true, false, Option, none, some, [], ◌∷◌, length, subst, ok,
}
use lite_end_go.Strings.{Text, codes, same, trim, rune_count, cut_prefix, cut_byte}
use lite_end_go.Samples.{sample_codec}
use lite_end_go.Profile.Store.{user, Profile, Changes, find_id, find_sub, changed, update_profile}
use lite_end_go.Profile.Service.{World, no_faults, update}
use lite_end_go.Profile.Service.Coherence.{IsCoherent}
use lite_end_go.Profile.Service.Writes.{IsOwn}
use lite_end_go.Upload.Table.{Upload, Uploads, get_upload_by_filepath}
use lite_end_go.Upload.Links.{
  Service, Signing, link_for, owned_by, is_unsafe, key_from_link, permanent_link,
}
use lite_end_go.Config.{Url}
use lite_end_go.Auth.Guards.{require}
use lite_end_go.Graph.Avatar.{
  validate_profile_update, to_model_profile, served, avatar_link, stored_avatar,
}
use lite_end_go.Graph.Avatar.Laws.{
  IsOwnOrForeign, IsServed, stored_avatar-IsOwnOrForeign, avatar_link-IsServed,
  avatar_link-stored_avatar,
}
use lite_end_go.Graph.Operations.{prepared, Moment, mutate_profile}
use lite_end_go.Graph.Operations.Laws.{IsUpdated, mutate_profile-IsUpdated}
use lite_end_go.Graph.Subscriptions.{Slots, with_subscription_budget, profile_updated}
use lite_end_go.Graph.Subscriptions.Laws.{Conn, Conn-bounds}
use lite_end_go.Profile.PubSub.{PubSub, new_pub_sub, subscribe_for_user}
use lite_end_go.Profile.PubSub.History.{Reach, Step}
use lite_end_go.Graph.Operations.Delivered.{broadcast, IsBroadcast, mutate_profile-IsBroadcast}

abbrev service : Service
service = record {
  public_url = codes "https://s3.example/uploads";
  public = false;
  link_ttl = 3_600_000_000_000;
  signer = some (codes "eu");
}

abbrev fresh_link : Text
fresh_link = codes "https://s3.example/uploads/cat.png?new"

abbrev old_link : Text
old_link = codes "https://s3.example/uploads/cat.png?old"

abbrev kept_link : Text
kept_link = codes "https://s3.example/uploads/cat.png"

abbrev signing : Signing
signing = record {
  region = none;
  client_builds = false;
  presign = λ region key ttl. some fresh_link;
}

abbrev cat_row : Upload
cat_row = record {
  id = 1;
  created_at = 1;
  updated_at = 1;
  filepath = codes "cat.png";
  original_filename = codes "mine.png";
  extension = codes ".png";
  size = 4;
  mimetype = codes "image/png";
  uploader_ip = codes "203.0.113.7";
  uploader_profile_id = some 1;
}

abbrev uploads : Uploads
uploads = record { rows = cat_row ∷ []; next_id = 2 }

stored_cat : stored_avatar (some service) uploads false 1 (some old_link) ≡ ok (some kept_link)
unfolding stored_avatar key_from_link cut_prefix is_unsafe cut_byte owned_by get_upload_by_filepath
    same permanent_link
stored_cat = refl

served_cat :
    (avatar_link (some service) signing uploads false 1 (some kept_link)).1 ≡ some fresh_link
unfolding avatar_link key_from_link cut_prefix is_unsafe cut_byte owned_by get_upload_by_filepath
    same link_for
served_cat = refl

cat_key : key_from_link service old_link ≡ some (codes "cat.png")
unfolding key_from_link cut_prefix is_unsafe cut_byte
cat_key = refl

stored_avatar-IsOwnOrForeign_example : IsOwnOrForeign service uploads false 1 kept_link
stored_avatar-IsOwnOrForeign_example =
    stored_avatar-IsOwnOrForeign service uploads false 1 old_link kept_link stored_cat

avatar_link-IsServed_example : IsServed service uploads false 1 signing kept_link fresh_link
avatar_link-IsServed_example =
    avatar_link-IsServed service uploads false 1 signing kept_link fresh_link served_cat

avatar_link-stored_avatar_example :
    avatar_link (some service) signing uploads false 1 (some kept_link)
    ≡ served (link_for service signing (codes "cat.png"))
avatar_link-stored_avatar_example =
    avatar_link-stored_avatar service uploads false 1 signing old_link (codes "cat.png") kept_link
      cat_key stored_cat

abbrev alice : Profile
alice = record {
  id = 1;
  created_at = 5;
  updated_at = 5;
  oidc_sub = codes "alice";
  roles = user ∷ [];
  avatar_url = none;
  display_name = none;
  bio = none;
}

abbrev world : World
world = record { table = record { rows = alice ∷ []; next_id = 2 }; cache = λ key. none }

world-IsCoherent : IsCoherent sample_codec world
unfolding find_id find_sub
world-IsCoherent = record {
  keyed = (omega arith, refl, refl, tt);
  fresh = λ sub raw p hit good. cc;
}

alice_owns : (u : Profile) → some alice ≡ some u → IsOwn sample_codec world u.id u.oidc_sub
unfolding find_id
alice_owns u e =
    subst (λ (v : Profile). IsOwn sample_codec world v.id v.oidc_sub) (some_inj e) own_row
  where
    some_inj : {a b : Profile} → some a ≡ some b → a ≡ b
    some_inj x = cc

    own_row : IsOwn sample_codec world 1 (codes "alice")
    own_row p h = cc

abbrev changes : Changes
changes = record { avatar_url = some old_link; display_name = some (codes "Alice"); bio = none }

abbrev web : Text → Option Url
web t = some (record {
  scheme = codes "https";
  host = codes "s3.example";
  path = [];
  raw_query = [];
  fragment = [];
})

abbrev moment : Moment
moment = record {
  uploads = uploads;
  check_fails = false;
  read_fails = false;
  signing = signing;
  faults = no_faults;
  now = 9;
  has_pub_sub = true;
}

abbrev updated : Profile
updated = record alice {
  avatar_url = some fresh_link;
  display_name = some (codes "Alice");
  updated_at = 9;
}

update_answered :
    (mutate_profile sample_codec web world (some service) moment (some alice) changes).result
    ≡ ok updated
unfolding mutate_profile prepared require validate_profile_update rune_count trim stored_avatar
    key_from_link cut_prefix is_unsafe cut_byte owned_by get_upload_by_filepath same permanent_link
    update update_profile changed to_model_profile avatar_link link_for
update_answered = refl

mutate_profile-IsUpdated_example :
    IsUpdated sample_codec web
      (some service)
      moment
      (some alice)
      changes
      (mutate_profile sample_codec web world (some service) moment (some alice) changes)
      updated
mutate_profile-IsUpdated_example =
    mutate_profile-IsUpdated sample_codec web world (some service) moment (some alice) changes
      updated world-IsCoherent alice_owns (inl refl) update_answered

abbrev one_taken : Slots
one_taken = record { capacity = 1; taken = 1 }

subscribed :
    profile_updated (some alice) true (some (with_subscription_budget 1)) ≡ (some one_taken, ok tt)
unfolding profile_updated require with_subscription_budget
subscribed = refl

Conn-bounds_example : (length (alice ∷ []) ≤ 1) × (one_taken.taken ≡ length (alice ∷ []))
Conn-bounds_example =
    Conn-bounds 1 one_taken (alice ∷ []) (Conn.subscribes alice Conn.opened subscribed)

-- A process with one subscriber of Alice.
abbrev one_subscriber : PubSub
one_subscriber = (subscribe_for_user 1 new_pub_sub).0

mutate_profile-IsBroadcast_example :
    IsBroadcast sample_codec
      (some alice)
      (mutate_profile sample_codec web world (some service) moment (some alice) changes)
      one_subscriber
    × (broadcast sample_codec false
          (mutate_profile sample_codec web world
            (some service)
            moment
            (some alice)
            changes).published
          one_subscriber
        ≡ some one_subscriber)
mutate_profile-IsBroadcast_example =
    mutate_profile-IsBroadcast sample_codec web world (some service) moment (some alice) changes
      updated world-IsCoherent alice_owns (inl refl) refl update_answered
      (Reach.next Reach.begun (Step.started 1)) (omega arith)

-- ===== src/Auth/Samples.antt =====
-- Test data of authentication: a library that knows one token, its keys, and a request that carries it.
use lite_end_go.Base.{ℕ, true, false, Option, none, some, List, [], ◌∷◌, ◌++◌, Result, ok, err}
use lite_end_go.Strings.{Text, codes}
use lite_end_go.Http.{Request}
use lite_end_go.Samples.{sample_codec, sample_request}
use lite_end_go.Profile.Store.{user, Profile}
use lite_end_go.Profile.Service.{no_faults}
use lite_end_go.Profile.Service.Coherence.{IsCoherent}
use lite_end_go.Profile.Service.History.{fresh_world}
use lite_end_go.Auth.KeySet.{
  Cause, other_error, IdToken, Library, Jwk, JwksReply, answered, Loaded, KeySet,
  new_cached_key_set,
}
use lite_end_go.Auth.Resolve.{State, Moment}

abbrev pub alice_token : IdToken
alice_token = record { sub = codes "alice"; nonce = false; at_hash = false }

abbrev pub checked_by : List ℕ → Text → Result (List Cause) Text
checked_by [] jwt = err (other_error ∷ [])
checked_by (k ∷ ks) jwt = ok jwt

abbrev pub answer_of : Text → Option (Result (List Cause) Text) → Result (List Cause) ℕ
answer_of raw none = err (other_error ∷ [])
answer_of raw (some (ok payload)) = ok 900
answer_of raw (some (err e)) = err e

abbrev pub sample_library : Library
sample_library = record {
  key_id = λ jwt. codes "k1";
  verify_with = checked_by;
  asks = λ raw. true;
  answer = answer_of;
  claims = λ raw. ok alice_token;
}

abbrev pub k1 : Jwk
k1 = record { kid = codes "k1"; use_for = codes "sig"; is_public = true; key = 11 }

abbrev pub k2 : Jwk
k2 = record { kid = codes "k2"; use_for = codes "sig"; is_public = true; key = 12 }

abbrev pub one_key : JwksReply
one_key = answered 200 (some (k1 ∷ []))

abbrev pub key_set : KeySet
key_set = new_cached_key_set 30 1 600

abbrev pub old_keys : Loaded
old_keys = record { keys = 11 ∷ []; kids = codes "k1" ∷ []; loaded_at = 100 }

abbrev pub aged : KeySet
aged = record {
  min_interval = 30;
  retry_every = 1;
  max_age = 600;
  loaded = some old_keys;
  fetched_at = some 100;
}

abbrev pub token : Text
token = codes "header.payload.signature"

abbrev pub state : State
state = record { world = fresh_world; key_set = key_set }

abbrev pub moment : Moment
moment = record { now = 50; done = 51; jwks = one_key; first = no_faults; second = no_faults }

-- The header asks for another identity.
abbrev pub signed_request : Request
signed_request = record (sample_request [] (codes "203.0.113.7:443")) {
  authorization = codes "bearer " ++ token;
  x_mock_sub = codes "mallory";
}

abbrev pub alice_profile : Profile
alice_profile = record {
  id = 1;
  created_at = 50;
  updated_at = 50;
  oidc_sub = codes "alice";
  roles = user ∷ [];
  avatar_url = none;
  display_name = none;
  bio = none;
}

pub start-IsCoherent : IsCoherent sample_codec fresh_world
start-IsCoherent = record { keyed = tt; fresh = λ sub raw p hit good. cc }

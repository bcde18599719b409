-- ===== src/Graph/Pipeline/Tests.antt =====
-- An operation of a socket that the token opened.
use lite_end_go.Base.{ℕ, ◌≡◌, refl, true, false, Option, none, some, [], ◌∷◌, ok}
use lite_end_go.Strings.{Text, codes, same}
use lite_end_go.Samples.{sample_codec}
use lite_end_go.Profile.Store.{get_profile_by_oidc_sub, create_profile}
use lite_end_go.Profile.Service.{find_or_create_by_sub, from_cache, find_or_create_row}
use lite_end_go.Auth.KeySet.{verify_signature, renew, needs_fetch, new_cached_key_set, refresh}
use lite_end_go.Auth.Verifier.{accept_claims, verify}
use lite_end_go.Graph.Transport.{Document, select, no_more, field, count_fields}
use lite_end_go.Graph.Pipeline.{Operation, admit}
use lite_end_go.Graph.Pipeline.Laws.{IsAdmitted, admit-IsAdmitted}
use lite_end_go.Middleware.RateLimit.{Reply, counted, allow}
use lite_end_go.Auth.Samples.{sample_library, token, state, moment, alice_profile, start-IsCoherent}

-- An operation of that socket, within the budget of its key.
abbrev an_operation : Operation
an_operation = record {
  is_ws = true;
  key = codes "rl:auth:203.0.113.7";
  creds = some (token, []);
  user = none;
  query = codes "{ me { id } }";
}

abbrev no_number : ℕ → Text
no_number n = []

-- `{ me { id } }`.
abbrev me_document : Document
me_document = record {
  operations =
      select (field (codes "me") (select (field (codes "id") no_more) no_more)) no_more ∷ [];
  fragments = [];
}

abbrev parse_me : Text → Option Document
parse_me q = some me_document

abbrev one_left : Text → Reply
one_left key = counted 1 0

operation_is_admitted :
    (admit no_number parse_me one_left sample_codec sample_library false true true state moment
      an_operation).1
    ≡ ok (some alice_profile)
unfolding admit allow count_fields verify verify_signature renew needs_fetch new_cached_key_set
    refresh same accept_claims find_or_create_by_sub from_cache find_or_create_row
    get_profile_by_oidc_sub create_profile
operation_is_admitted = refl

admit-IsAdmitted_example :
    IsAdmitted no_number parse_me one_left sample_codec sample_library state moment token
      an_operation alice_profile
      (admit no_number parse_me one_left sample_codec sample_library false true true state moment
        an_operation).0
admit-IsAdmitted_example =
    (admit-IsAdmitted no_number parse_me one_left sample_codec sample_library state moment true
        an_operation token [] (refl, refl) refl start-IsCoherent).0
      alice_profile operation_is_admitted

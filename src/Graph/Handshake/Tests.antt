-- ===== src/Graph/Handshake/Tests.antt =====
-- The handshake of a socket with a token.
use lite_end_go.Base.{◌≡◌, refl, false, some, [], ◌++◌, ok}
use lite_end_go.Strings.{codes, same, equal_fold}
use lite_end_go.Samples.{sample_codec}
use lite_end_go.Profile.Store.{get_profile_by_oidc_sub, create_profile}
use lite_end_go.Profile.Service.{find_or_create_by_sub, from_cache, find_or_create_row}
use lite_end_go.Auth.KeySet.{new_cached_key_set, needs_fetch, verify_signature, renew, refresh}
use lite_end_go.Auth.Verifier.{accept_claims, verify}
use lite_end_go.Auth.Resolve.{strip_bearer, resolve}
use lite_end_go.Graph.Handshake.{Socket, init_socket}
use lite_end_go.Graph.Handshake.Laws.{IsOpenedFor, init_socket-IsOpenedFor}
use lite_end_go.Auth.Samples.{sample_library, token, state, moment, alice_profile, start-IsCoherent}

-- The socket that the token opens, with a minute's grace.
abbrev alice_socket : Socket
alice_socket = record {
  user = alice_profile;
  creds = (token, []);
  slots = record { capacity = 10; taken = 0 };
  deadline = some 960;
}

socket_opened :
    (init_socket sample_codec sample_library false state moment 60 (codes "Bearer " ++ token) []).1
    ≡ ok alice_socket
unfolding init_socket resolve verify verify_signature renew needs_fetch new_cached_key_set refresh
    same accept_claims find_or_create_by_sub from_cache find_or_create_row get_profile_by_oidc_sub
    create_profile equal_fold
socket_opened = refl

init_socket-IsOpenedFor_example :
    IsOpenedFor sample_codec sample_library state moment 60
      (strip_bearer (codes "Bearer " ++ token))
      alice_socket
      (init_socket sample_codec sample_library false state moment 60
        (codes "Bearer " ++ token)
        []).0
init_socket-IsOpenedFor_example =
    init_socket-IsOpenedFor sample_codec sample_library state moment 60 (codes "Bearer " ++ token)
      [] alice_socket start-IsCoherent socket_opened

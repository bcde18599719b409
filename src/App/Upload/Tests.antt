-- ===== src/App/Upload/Tests.antt =====
-- An upload with a token, from the socket to the store.
use lite_end_go.Base.{◌≡◌, refl, true, false, [], ◌∷◌}
use lite_end_go.Strings.{Text, cut_last_byte, equal_fold, same}
use lite_end_go.Http.{Response}
use lite_end_go.Samples.{sample_codec, sample_ip_text}
use lite_end_go.Middleware.RateLimit.{Reply, counted, allow}
use lite_end_go.Middleware.RealIp.{real_ip, forwarded_client_ip}
use lite_end_go.Auth.Samples.{sample_library, state, moment, signed_request, start-IsCoherent}
use lite_end_go.Upload.Samples.{
  service, detect, draws, decimal, all_well, no_store, cat_part, png_file, new_key, all-Settled,
}
use lite_end_go.Upload.Handler.{
  Stream, part, ends, created, refused, read_files, part_action, upload,
}
use lite_end_go.Auth.Resolve.{bearer_token}
use lite_end_go.Auth.Verifier.{verify, accept_claims}
use lite_end_go.Auth.KeySet.{verify_signature, renew, needs_fetch, new_cached_key_set, refresh}
use lite_end_go.Profile.Service.{find_or_create_by_sub, from_cache, find_or_create_row}
use lite_end_go.Profile.Store.{get_profile_by_oidc_sub}
use lite_end_go.Upload.Process.{
  limit_reader, process_file, allowed_mime, read_up_to, base, object_key, ext,
}
use lite_end_go.Upload.Links.{link_for}
use lite_end_go.Upload.Filename.{bounded_filename}
use lite_end_go.Upload.Save.{save_metadata, save_from, put_object, record_file}
use lite_end_go.Upload.Table.{create_upload, find_path}
use lite_end_go.App.Upload.{Env, post_upload, stored, allowed, IsUploaded, post_upload-IsUploaded}

abbrev one_left : Text → Reply
one_left key = counted 1 0

abbrev env : Env
env = record {
  ip = sample_ip_text;
  number_text = decimal;
  trusted_hops = 0;
  limiter = one_left;
  codec = sample_codec;
  lib = sample_library;
  detect_mime = detect;
  draws = draws;
  now = 5;
  replies = all_well;
  files = service;
}

abbrev body : Stream
body = part cat_part ends

upload_created :
    (post_upload env state no_store moment true signed_request body).answer
    ≡ created (png_file ∷ [])
unfolding post_upload bearer_token real_ip forwarded_client_ip equal_fold verify verify_signature
    renew needs_fetch new_cached_key_set refresh same accept_claims find_or_create_by_sub from_cache
    find_or_create_row get_profile_by_oidc_sub read_files part_action allow limit_reader
    process_file allowed_mime read_up_to link_for base object_key bounded_filename ext cut_last_byte
    upload save_metadata save_from put_object record_file create_upload find_path
upload_created = refl

post_upload-IsUploaded_example :
    ((post_upload env state no_store moment true signed_request body).answer
        ≡ created (png_file ∷ [])
      → (allowed env signed_request ≡ true)
        × IsUploaded env state no_store moment
            (real_ip sample_ip_text 0 signed_request)
            body
            (png_file ∷ [])
            (post_upload env state no_store moment true signed_request body))
    × (allowed env signed_request ≡ false
        → (a : Response) × (post_upload env state no_store moment true signed_request body
            ≡ stored state (no_store, refused a)))
post_upload-IsUploaded_example =
    post_upload-IsUploaded env state no_store moment true signed_request body (png_file ∷ [])
      start-IsCoherent (tt, new_key, all-Settled)

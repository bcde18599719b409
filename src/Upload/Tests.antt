-- ===== src/Upload/Tests.antt =====
-- Uploads at concrete inputs.
use lite_end_go.Base.{
  ℕ, arith, ◌≡◌, ◌≢◌, ◌≤◌, refl, ◌⊎◌, true, some, [], ◌∷◌, ◌++◌, map, length, All, ok,
}
use lite_end_go.Strings.{
  Text, codes, same, has_byte, cut_prefix, cut_byte, cut_last_byte, has_prefix, contains,
}
use lite_end_go.Http.{Response, write_error}
use lite_end_go.Middleware.RateLimit.{allow}
use lite_end_go.Upload.Table.{find_path, create_upload}
use lite_end_go.Upload.Links.{permanent_link, link_for, key_from_link, is_unsafe}
use lite_end_go.Upload.Links.Laws.{IsPlainKey, key_from_link-IsPlainKey}
use lite_end_go.Upload.Filename.{bounded_filename}
use lite_end_go.Upload.Process.{
  allowed_mime, read_up_to, limit_reader, base, ext, object_key, process_file,
}
use lite_end_go.Upload.Save.{
  Store, Replies, stored, insert_failed, put_object, record_file, save_from, save_metadata,
}
use lite_end_go.Upload.Save.Laws.{IsBacked, claim, claim_of}
use lite_end_go.Upload.Save.Batch.{IsSaved, save_metadata-IsSaved}
use lite_end_go.Upload.Save.Ambiguity.{save_metadata-unbacked}
use lite_end_go.Upload.Handler.{
  part, ends, Answer, created, refused, bad_request, part_action, read_files, upload,
  upload_max_files,
}
use lite_end_go.Upload.Handler.Laws.{IsFrom}
use lite_end_go.Upload.Handler.Created.{upload-created, upload-refused}
use lite_end_go.Upload.Samples.{
  service, signing, detect, png, png_file, no_store, all_well, decimal, new_key, all-Settled, draws,
  cat_part,
}

abbrev cat_key : Text
cat_key = codes "2026/01/02/03-04/cat.png"

cat_plain : IsPlainKey cat_key
unfolding is_unsafe has_byte has_prefix contains
cat_plain = record { safe = refl; no_query = refl }

cat_link :
    key_from_link service (codes "https://s3.example/uploads/cat.png?v=1") ≡ some (codes "cat.png")
unfolding key_from_link cut_prefix is_unsafe cut_byte
cat_link = refl

key_from_link-IsPlainKey_example :
    IsPlainKey (codes "cat.png")
    × ((codes "https://s3.example/uploads/cat.png?v=1" ≡ permanent_link service (codes "cat.png"))
        ⊎ ((query : Text) × (codes "https://s3.example/uploads/cat.png?v=1"
              ≡ permanent_link service (codes "cat.png") ++ b'?' ∷ query)))
key_from_link-IsPlainKey_example =
    key_from_link-IsPlainKey service (codes "https://s3.example/uploads/cat.png?v=1")
      (codes "cat.png") cat_link

png_processed :
    (process_file detect service signing
      (codes "d")
      (codes "cat")
      (codes "mine.txt")
      (codes "image/gif")
      png).1
    ≡ ok png_file
unfolding process_file allowed_mime same read_up_to link_for base object_key bounded_filename ext
    cut_last_byte
png_processed = refl

save_metadata-IsSaved_example :
    (n : ℕ) × IsSaved decimal service no_store 7 0
      (png_file ∷ [])
      (save_metadata decimal 5 service all_well no_store (png_file ∷ []) (codes "203.0.113.7") 7)
      n
save_metadata-IsSaved_example =
    save_metadata-IsSaved decimal service 5 all_well (codes "203.0.113.7") 7 no_store
      (png_file ∷ []) tt new_key all-Settled

-- The insert commits, and its connection breaks.
abbrev broken_insert : ℕ → Replies
broken_insert i = record { put = stored; insert = insert_failed true; removed = true }

save_metadata-unbacked_example :
    ¬ IsBacked
      (save_metadata decimal 5 service broken_insert no_store
        (png_file ∷ [])
        (codes "203.0.113.7")
        7).0
save_metadata-unbacked_example =
    save_metadata-unbacked decimal service 5 broken_insert (codes "203.0.113.7") 7 no_store png_file
      (new_key.0) refl refl refl

one_file : (read_files detect true draws service 0 [] (part cat_part ends)).1 ≡ ok (png_file ∷ [])
unfolding read_files part_action allow limit_reader process_file allowed_mime same read_up_to
    link_for base object_key bounded_filename ext cut_last_byte
one_file = refl

abbrev uploaded : Store × Answer
uploaded =
    upload detect true draws decimal 5 all_well service no_store true (some 7) (codes "203.0.113.7")
      (part cat_part ends)

answers_created : uploaded ≡ (uploaded.0, created (png_file ∷ []))
unfolding upload save_metadata save_from put_object record_file create_upload find_path read_files
    part_action allow limit_reader process_file allowed_mime same read_up_to link_for base
    object_key bounded_filename ext cut_last_byte
answers_created = refl

upload-created_example :
    (1 ≤ length (png_file ∷ []))
    × (length (png_file ∷ []) ≤ upload_max_files)
    × All (IsFrom detect (part cat_part ends)) (png_file ∷ [])
    × (map claim uploaded.0.uploads.rows
        ≡ map claim no_store.uploads.rows ++ map (claim_of 7) (png_file ∷ []))
    × IsBacked uploaded.0
upload-created_example =
    upload-created detect true draws decimal 5 all_well service no_store uploaded.0 7
      (codes "203.0.113.7") (part cat_part ends) (png_file ∷ []) answers_created tt new_key
      all-Settled

abbrev empty_answer : Response
empty_answer = bad_request (codes "No valid files uploaded")

none_uploaded :
    upload detect true draws decimal 5 all_well service no_store true
      (some 7)
      (codes "203.0.113.7")
      ends
    ≡ (no_store, refused empty_answer)
unfolding upload read_files
none_uploaded = refl

not_500 : empty_answer.status ≢ 500
unfolding write_error
not_500 h = omega arith

upload-refused_example : no_store ≡ no_store
upload-refused_example =
    upload-refused detect true draws decimal 5 all_well service no_store no_store true (some 7)
      (codes "203.0.113.7") ends empty_answer none_uploaded not_500

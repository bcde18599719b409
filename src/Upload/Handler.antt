-- ===== src/Upload/Handler.antt =====
-- internal/upload/handler.go: `POST /upload`. The multipart reader is a stream of parts.
pub mod Laws
pub mod Created
use lite_end_go.Base.{
  ℕ, suc, Bool, true, false, Option, none, some, List, [], ◌∷◌, ◌++◌, ltb, if◌then◌else◌, is_empty,
  Result, ok, err,
}
use lite_end_go.Strings.{Text, codes}
use lite_end_go.Http.{Response, write_error}
use lite_end_go.Middleware.RateLimit.{Reply, allow}
use lite_end_go.Upload.Links.{Service, Signing}
use lite_end_go.Upload.Process.{
  Body, SavedFile, ProcessError, disallowed_mime, file_too_large, limit_reader, process_file,
  upload_max_file_size,
}
use lite_end_go.Upload.Save.{Store, Replies, Outcome, all_saved, save_metadata}

-- `config.UploadMaxFiles`.
abbrev pub upload_max_files : ℕ
upload_max_files = 10

pub record Part : Type 0 where
  pub filename : Text
  pub content_type : Text
  pub body : Body

-- `NextPart`, until the end of the body or an error.
pub data Stream : Type 0 where
  ends malformed : Stream
  part : Part → Stream → Stream

-- What is drawn or asked for the file of that number: its directory and random name, the answers of
-- the object store, the reply to its event of the quota.
pub record Draw : Type 0 where
  pub dir : Text
  pub uuid : Text
  pub signing : Signing
  pub quota : Reply

-- How the loop of `readFiles` goes on after a part.
pub data Action : Type 0 where
  stop : Response → Action
  go_on : (file_count : ℕ) → List SavedFile → Action

abbrev pub bad_request : Text → Response
bad_request msg = write_error [] 400 msg

abbrev pub processed : ℕ → Service × Result ProcessError SavedFile → Service × Action
processed n (s, ok f) = (s, go_on n (f ∷ []))
processed n (s, err disallowed_mime) = (s, go_on n [])
processed n (s, err file_too_large) = (s, stop (bad_request (codes "File too large")))
processed n (s, err other) = (s, stop (bad_request (codes "Failed to process file")))

-- Whether the quota refuses; without one it never does.
abbrev pub over_quota : Bool → Reply → Bool
over_quota false reply = false
over_quota true reply = if (allow reply).0 then false else true

-- What `upload` writes: an error, or 201 with the files.
pub data Answer : Type 0 where
  refused : Response → Answer
  created : List SavedFile → Answer

abbrev pub answer_saved : List SavedFile → Store × Outcome → Store × Answer
answer_saved saved (st, all_saved) = (st, created saved)
answer_saved saved (st, failed) =
    (st, refused (write_error [] 500 (codes "Failed to save metadata")))

module _ (detect_mime : Text → Text) (has_quota : Bool) (draws : ℕ → Draw) where
  -- One part, after `file_count` files.
  unfoldable pub part_action : Service → ℕ → Part → Service × Action
  part_action s file_count p =
      if is_empty p.filename
      then (s, go_on file_count [])
      else if ltb upload_max_files (suc file_count)
      then (s, stop (bad_request (codes "Too many files")))
      else if over_quota has_quota (draws (suc file_count)).quota
      then (s, stop (write_error [] 429 (codes "Upload quota exceeded")))
      else processed (suc file_count) (
          process_file detect_mime s (draws (suc file_count)).signing (draws (suc file_count)).dir
            (draws (suc file_count)).uuid p.filename p.content_type
            (limit_reader (suc upload_max_file_size) p.body))

  -- The loop of `readFiles`.
  unfoldable pub read_files :
      Service → ℕ → List SavedFile → Stream → Service × Result Response (List SavedFile)
  read_files s file_count saved ends = (s, ok saved)
  read_files s file_count saved malformed =
      (s, err (bad_request (codes "Malformed multipart body")))
  read_files s file_count saved (part p rest) =
      let (s', action) = part_action s file_count p in
      elim action [
        | stop response ↦ (s', err response)
        | go_on n more ↦ read_files s' n (saved ++ more) rest
      ]

  module _ (number_text : ℕ → Text) (now : ℕ) (replies : ℕ → Replies) where
    abbrev pub store_batch :
        Store → Text → ℕ → Service × Result Response (List SavedFile) → Store × Answer
    store_batch st ip owner_id (s, err response) = (st, refused response)
    store_batch st ip owner_id (s, ok []) =
        (st, refused (bad_request (codes "No valid files uploaded")))
    store_batch st ip owner_id (s, ok (f ∷ fs)) =
        answer_saved (f ∷ fs) (save_metadata number_text now s replies st (f ∷ fs) ip owner_id)

    -- `upload`: whether the request is multipart, its user, its address and its parts.
    unfoldable pub upload : Service → Store → Bool → Option ℕ → Text → Stream → Store × Answer
    upload s st false user ip parts = (st, refused (bad_request (codes "Request is not multipart")))
    upload s st true none ip parts = (st, refused (write_error [] 401 (codes "Not authenticated")))
    upload s st true (some user_id) ip parts = store_batch st ip user_id (read_files s 0 [] parts)

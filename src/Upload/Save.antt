-- ===== src/Upload/Save.antt =====
-- `SaveMetadata`, `putObject` and `removeObject` of internal/upload/service.go: a batch is stored one
-- file at a time, its object before its row. What the object store and the database answer is the
-- argument `Replies`, for each file by its place in the batch.
pub mod Laws
pub mod Steps
pub mod Batch
pub mod Ambiguity
use lite_end_go.Base.{
  ℕ, suc, Bool, true, false, not, ◌||◌, Option, none, some, List, [], ◌∷◌, ◌++◌, ◌/◌, if◌then◌else◌,
  length,
}
use lite_end_go.Strings.{Text, codes, same}
use lite_end_go.Upload.Table.{Uploads, NewUpload, create_upload}
use lite_end_go.Upload.Links.{Service}
use lite_end_go.Upload.Process.{SavedFile, base}

-- An object of the bucket, with the headers that it is served under.
pub record Object : Type 0 where
  pub key : Text
  pub bytes : Text
  pub content_type : Text
  pub content_disposition : Text
  pub cache_control : Text

unfoldable pub has_object : Text → List Object → Bool
has_object key [] = false
has_object key (o ∷ os) = same o.key key || has_object key os

unfoldable pub drop_object : Text → List Object → List Object
drop_object key [] = []
drop_object key (o ∷ os) = if same o.key key then drop_object key os else o ∷ drop_object key os

-- The shared state of every replica.
pub record Store : Type 0 where
  pub uploads : Uploads
  pub objects : List Object

-- A call that reports a failure may have taken effect all the same: it has `landed`.
pub data PutReply : Type 0 where
  stored : PutReply
  put_failed : (landed : Bool) → PutReply

pub data InsertReply : Type 0 where
  inserted : InsertReply
  insert_failed : (landed : Bool) → InsertReply

pub record Replies : Type 0 where
  pub put : PutReply
  pub insert : InsertReply
  pub removed : Bool

-- What `SaveMetadata` returns; the error tells how many files are committed.
pub data Outcome : Type 0 where
  all_saved : Outcome
  put_error insert_error : (committed : ℕ) → Outcome

abbrev pub add_object : Store → Object → Store
add_object st o = record st { objects = o ∷ st.objects }

-- `removeObject`, which only logs a failure.
unfoldable pub remove_object : Store → Bool → SavedFile → Store
remove_object st removed f =
    if removed then record st { objects = drop_object f.key st.objects } else st

-- The row of a file.
unfoldable pub upload_of : SavedFile → Text → ℕ → NewUpload
upload_of f ip owner_id = record {
  filepath = f.key;
  original_filename = f.original_filename;
  extension = f.extension;
  size = f.size;
  mimetype = f.mimetype;
  uploader_ip = ip;
  uploader_profile_id = some owner_id;
}

-- `CreateUpload`: whether it reports success. A duplicate key is refused by the table.
abbrev pub insert_row : Store → Option Uploads → InsertReply → Store × Bool
insert_row st none reply = (st, false)
insert_row st (some t) inserted = (record st { uploads = t }, true)
insert_row st (some t) (insert_failed true) = (record st { uploads = t }, false)
insert_row st (some t) (insert_failed false) = (st, false)

abbrev pub undo_failed : Bool → SavedFile → Store × Bool → Store × Bool
undo_failed removed f (st, true) = (st, true)
undo_failed removed f (st, false) = (remove_object st removed f, false)

-- The insert of one file, undone by the removal of its object.
unfoldable pub record_file : ℕ → Store → Replies → SavedFile → Text → ℕ → Store × Bool
record_file now st r f ip owner_id =
    undo_failed r.removed f
      (insert_row st (create_upload now st.uploads (upload_of f ip owner_id)) r.insert)

module _ (number_text : ℕ → Text) where
  -- The object of a file, as `putObject` describes it; `linkTTL` is in nanoseconds.
  unfoldable pub object_of : Service → SavedFile → Object
  object_of s f = record {
    key = f.key;
    bytes = f.bytes;
    content_type = f.mimetype;
    content_disposition = codes "inline; filename=\"" ++ (base f.key ++ codes "\"");
    cache_control =
        if s.public
        then codes "public, max-age=31536000, immutable"
        else codes "private, max-age=" ++ number_text (s.link_ttl / 1_000_000_000);
  }

  -- `putObject`: whether it reports success.
  unfoldable pub put_object : Service → Store → PutReply → SavedFile → Store × Bool
  put_object s st stored f = (add_object st (object_of s f), true)
  put_object s st (put_failed true) f = (add_object st (object_of s f), false)
  put_object s st (put_failed false) f = (st, false)

  -- The loop, from the file at place `i`.
  unfoldable pub save_from :
      ℕ → Service → (ℕ → Replies) → Text → ℕ → ℕ → Store → List SavedFile → Store × Outcome
  save_from now s replies ip owner_id i st [] = (st, all_saved)
  save_from now s replies ip owner_id i st (f ∷ fs) =
      let (st1, put_ok) = put_object s st (replies i).put f in
      let (st2, insert_ok) = record_file now st1 (replies i) f ip owner_id in
      let rest = save_from now s replies ip owner_id (suc i) st2 fs in
      if put_ok then if insert_ok then rest else (st2, insert_error i) else (st1, put_error i)

  -- `SaveMetadata`.
  unfoldable pub save_metadata :
      ℕ → Service → (ℕ → Replies) → Store → List SavedFile → Text → ℕ → Store × Outcome
  unfolding save_from
  save_metadata now s replies st files ip owner_id = save_from now s replies ip owner_id 0 st files

-- ===== src/Upload/Save/Steps.antt =====
-- The insert of one file of `SaveMetadata`.
use lite_end_go.Base.{ℕ, ◌≡◌, refl, Bool, true, false, none, some, [], ◌∷◌, ◌++◌}
use lite_end_go.Strings.{Text}
use lite_end_go.Upload.Table.{Upload, Uploads, new_row, find_path, create_upload}
use lite_end_go.Upload.Process.{SavedFile}
use lite_end_go.Upload.Save.{
  Store, InsertReply, inserted, insert_failed, Replies, remove_object, upload_of, insert_row,
  undo_failed, record_file,
}
use lite_end_go.Upload.Save.Laws.{IsBacked, Backed-drop, Settled, claim, claim_of}

-- The insert of one file: its row is added, or nothing but its object is gone.
abbrev pub Recorded : Store → SavedFile → ℕ → Store × Bool → Type 0
Recorded st f owner_id (st', true) =
    (u : Upload) × (st'.uploads.rows ≡ st.uploads.rows ++ u ∷ [])
    × (claim u ≡ claim_of owner_id f)
    × (st'.objects ≡ st.objects)
Recorded st f owner_id (st', false) = (st'.uploads ≡ st.uploads) × IsBacked st'

remove_object-Recorded :
    (st : Store) (removed : Bool) (f : SavedFile) (owner_id : ℕ)
    → IsBacked st
    → find_path f.key st.uploads.rows ≡ none
    → Recorded st f owner_id (remove_object st removed f, false)
unfolding remove_object
remove_object-Recorded st true f owner_id b new =
    (refl, Backed-drop f.key st.objects st.uploads.rows new b)
remove_object-Recorded st false f owner_id b new = (refl, b)

undo_failed-Recorded :
    (st : Store) (t : Uploads) (reply : InsertReply) (removed : Bool) (f : SavedFile) (owner_id : ℕ)
    (u : Upload)
    → IsBacked st
    → find_path f.key st.uploads.rows ≡ none
    → t.rows ≡ st.uploads.rows ++ u ∷ []
    → claim u ≡ claim_of owner_id f
    → Settled reply
    → Recorded st f owner_id (undo_failed removed f (insert_row st (some t) reply))
undo_failed-Recorded st t inserted removed f owner_id u b new rows c settled = (u, rows, c, refl)
undo_failed-Recorded st t (insert_failed true) removed f owner_id u b new rows c settled = cc
undo_failed-Recorded st t (insert_failed false) removed f owner_id u b new rows c settled =
    remove_object-Recorded st removed f owner_id b new

pub record_file-Recorded :
    (now : ℕ) (st : Store) (r : Replies) (f : SavedFile) (ip : Text) (owner_id : ℕ)
    → IsBacked st
    → find_path f.key st.uploads.rows ≡ none
    → Settled r.insert
    → Recorded st f owner_id (record_file now st r f ip owner_id)
unfolding record_file create_upload upload_of
record_file-Recorded now st r f ip owner_id b new settled =
    rw (new, create_upload)
      (undo_failed-Recorded st _ r.insert r.removed f owner_id
        (new_row st.uploads.next_id now (upload_of f ip owner_id)) b new refl refl settled)

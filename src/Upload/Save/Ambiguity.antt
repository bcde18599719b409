-- ===== src/Upload/Save/Ambiguity.antt =====
-- An insert that commits although it is reported as failed.
use lite_end_go.Base.{
  ℕ, ◌≡◌, refl, sym, ◌∙◌, inl, inr, Bool, true, false, none, List, [], ◌∷◌, ◌++◌, if◌then◌else◌,
  Bool-cases,
}
use lite_end_go.Strings.{Text, same}
use lite_end_go.Upload.Table.{Upload, new_row, find_path, create_upload}
use lite_end_go.Upload.Links.{Service}
use lite_end_go.Upload.Process.{SavedFile}
use lite_end_go.Upload.Save.{
  Object, has_object, drop_object, Store, PutReply, stored, insert_failed, Replies, Outcome,
  object_of, add_object, put_object, remove_object, upload_of, record_file, save_from,
  save_metadata,
}
use lite_end_go.Upload.Save.Laws.{Backed, IsBacked}

has_object-dropped : (key : Text) (os : List Object) → has_object key (drop_object key os) ≡ false
unfolding has_object drop_object
has_object-dropped key [] = refl
has_object-dropped key (o ∷ os) = elim (Bool-cases (same o.key key)) [
  | inl e ↦ rw (e, drop_object) (has_object-dropped key os)
  | inr e ↦ rw (e, drop_object) (rw (e, has_object-dropped key os, has_object))
]

Backed-last :
    (os : List Object) (us : List Upload) (u : Upload)
    → Backed os (us ++ u ∷ [])
    → has_object u.filepath os ≡ true
Backed-last os [] u b = b.0
Backed-last os (v ∷ us) u b = Backed-last os us u b.1

true_not_false : ¬ (true ≡ false)
true_not_false e = cc

landed_row :
    (now : ℕ) (st : Store) (r : Replies) (f : SavedFile) (ip : Text) (owner_id : ℕ)
    → find_path f.key st.uploads.rows ≡ none
    → r.insert ≡ insert_failed true
    → r.removed ≡ true
    → ¬ IsBacked (record_file now st r f ip owner_id).0
unfolding record_file create_upload upload_of remove_object
landed_row now st r f ip owner_id new insert removed =
    rw (insert, removed, new, create_upload, remove_object)
      λ b. absurd (
        true_not_false (
          sym (
            Backed-last (drop_object f.key st.objects) st.uploads.rows
              (new_row st.uploads.next_id now (upload_of f ip owner_id)) b)
          ∙ has_object-dropped f.key st.objects))

refuted :
    (x : Store × Bool) (rest : Store × Outcome) (o : Outcome)
    → x.1 ≡ false
    → ¬ IsBacked x.0
    → ¬ IsBacked (if x.1 then rest else (x.0, o)).0
refuted (st, true) rest o e unbacked = absurd (true_not_false e)
refuted (st, false) rest o e unbacked = unbacked

record_file_fails :
    (now : ℕ) (st : Store) (r : Replies) (f : SavedFile) (ip : Text) (owner_id : ℕ)
    → find_path f.key st.uploads.rows ≡ none
    → r.insert ≡ insert_failed true
    → (record_file now st r f ip owner_id).1 ≡ false
unfolding record_file create_upload upload_of
record_file_fails now st r f ip owner_id new insert = rw (insert, new, create_upload) refl

module _ (number_text : ℕ → Text) (s : Service) (now : ℕ) (replies : ℕ → Replies) (ip : Text)
    (owner_id : ℕ) where
  put_stored :
      (st : Store) (reply : PutReply) (f : SavedFile)
      → reply ≡ stored
      → put_object number_text s st reply f ≡ (add_object st (object_of number_text s f), true)
  unfolding put_object
  put_stored st reply f e = rw (e, put_object)

  -- If the insert of a file commits and is reported as failed, as on a connection that breaks after the
  -- commit, the rollback leaves a row without its object.
  pub save_metadata-unbacked :
      (st : Store) (f : SavedFile)
      → find_path f.key st.uploads.rows ≡ none
      → (replies 0).put ≡ stored
      → (replies 0).insert ≡ insert_failed true
      → (replies 0).removed ≡ true
      → ¬ IsBacked (save_metadata number_text now s replies st (f ∷ []) ip owner_id).0
  unfolding save_metadata save_from
  save_metadata-unbacked st f new put insert removed = rw (put_stored st (replies 0).put f put) (
      refuted
        (record_file now (add_object st (object_of number_text s f)) (replies 0) f ip owner_id) _ _
        (record_file_fails now (add_object st (object_of number_text s f)) (replies 0) f ip owner_id
          new insert)
        (landed_row now (add_object st (object_of number_text s f)) (replies 0) f ip owner_id new
          insert removed))

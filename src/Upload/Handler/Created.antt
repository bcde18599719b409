-- ===== src/Upload/Handler/Created.antt =====
-- The answers of `POST /upload`: what is committed when it says created, and what it leaves alone.
use lite_end_go.Base.{
  ℕ, ◌≤◌, ◌≡◌, ◌≢◌, refl, sym, ◌∙◌, ap, subst, ◌⊎◌, inl, inr, Bool, true, false, Option, none, some,
  List, [], ◌∷◌, ◌++◌, map, arith, length, take, All, Result, ok, err,
}
use lite_end_go.Strings.{Text}
use lite_end_go.Http.{Response, write_error}
use lite_end_go.Upload.Links.{Service}
use lite_end_go.Upload.Process.{SavedFile}
use lite_end_go.Upload.Save.{
  Store, Replies, Outcome, all_saved, put_error, insert_error, save_metadata,
}
use lite_end_go.Upload.Save.Laws.{IsBacked, NewKeys, Settled, claim, claim_of}
use lite_end_go.Upload.Save.Batch.{IsSaved, save_metadata-IsSaved}
use lite_end_go.Upload.Handler.{
  Stream, Draw, Answer, refused, created, read_files, answer_saved, store_batch, upload,
  upload_max_files,
}
use lite_end_go.Upload.Handler.Laws.{IsFrom, read_files-IsAccepted}

take-length : {A : Type 0} (xs : List A) → take (length xs) xs ≡ xs
take-length [] = refl
take-length (x ∷ xs) = ap (◌∷◌ x) (take-length xs)

module _ (detect_mime : Text → Text) (has_quota : Bool) (draws : ℕ → Draw) (number_text : ℕ → Text)
    (now : ℕ) where
  module _ (replies : ℕ → Replies) (s : Service) where
    -- A refusal that is not the failed commit leaves the store alone.
    abbrev Kept : Store → Store × Answer → Type 0
    Kept st (st', created files) = Unit
    Kept st (st', refused response) = (response.status ≡ 500) ⊎ (st' ≡ st)

    answer_saved-Kept :
        (st : Store) (files : List SavedFile) (x : Store × Outcome) → Kept st (answer_saved files x)
    unfolding write_error
    answer_saved-Kept st files (st', all_saved) = tt
    answer_saved-Kept st files (st', put_error c) = inl refl
    answer_saved-Kept st files (st', insert_error c) = inl refl

    store_batch-Kept :
        (st : Store) (addr : Text) (owner_id : ℕ) (x : Service × Result Response (List SavedFile))
        → Kept st
            (store_batch detect_mime has_quota draws number_text now replies st addr owner_id x)
    store_batch-Kept st addr owner_id (s', err response) = inr refl
    store_batch-Kept st addr owner_id (s', ok []) = inr refl
    store_batch-Kept st addr owner_id (s', ok (f ∷ fs)) = answer_saved-Kept st (f ∷ fs) _

    -- An upload that is refused with any status but 500 has stored neither an object nor a row.
    pub upload-refused :
        (st st' : Store) (multipart : Bool) (user : Option ℕ) (addr : Text) (parts : Stream)
        (response : Response)
        → upload detect_mime has_quota draws number_text now replies s st multipart user addr parts
          ≡ (st', refused response)
        → response.status ≢ 500
        → st' ≡ st
    unfolding upload
    upload-refused st st' false user addr parts response e other = sym (ap (λ q. q.0) e)
    upload-refused st st' true none addr parts response e other = sym (ap (λ q. q.0) e)
    upload-refused st st' true (some user_id) addr parts response e other = ground (
      arith,
      subst (Kept st) e
          (store_batch-Kept st addr user_id (read_files detect_mime has_quota draws s 0 [] parts)),
    )

    -- The answer is created only for files that were read, that are not none, and that are all committed.
    abbrev Committed :
        Store → Text → ℕ → Service × Result Response (List SavedFile) → Store × Answer → Type 0
    Committed st addr owner_id got (st', refused response) = Unit
    Committed st addr owner_id got (st', created files) =
        (got.1 ≡ ok files)
        × (1 ≤ length files)
        × (save_metadata number_text now got.0 replies st files addr owner_id ≡ (st', all_saved))

    answer_saved-Committed :
        (st : Store) (addr : Text) (owner_id : ℕ) (s' : Service) (f : SavedFile)
        (fs : List SavedFile) (x : Store × Outcome)
        → save_metadata number_text now s' replies st (f ∷ fs) addr owner_id ≡ x
        → Committed st addr owner_id (s', ok (f ∷ fs)) (answer_saved (f ∷ fs) x)
    answer_saved-Committed st addr owner_id s' f fs (st', all_saved) e = (refl, omega arith, e)
    answer_saved-Committed st addr owner_id s' f fs (st', put_error c) e = tt
    answer_saved-Committed st addr owner_id s' f fs (st', insert_error c) e = tt

    store_batch-Committed :
        (st : Store) (addr : Text) (owner_id : ℕ) (x : Service × Result Response (List SavedFile))
        → Committed st addr owner_id x
            (store_batch detect_mime has_quota draws number_text now replies st addr owner_id x)
    store_batch-Committed st addr owner_id (s', err response) = tt
    store_batch-Committed st addr owner_id (s', ok []) = tt
    store_batch-Committed st addr owner_id (s', ok (f ∷ fs)) =
        answer_saved-Committed st addr owner_id s' f fs _ refl

    all_reported :
        (n : ℕ) (st : Store) (owner_id : ℕ) (s' : Service) (files : List SavedFile) (st' : Store)
        → IsSaved number_text s' st owner_id 0 files (st', all_saved) n
        → map claim st'.uploads.rows ≡ map claim st.uploads.rows ++ map (claim_of owner_id) files
    all_reported n st owner_id s' files st' v =
        v.rows
        ∙ ap (λ fs. map claim st.uploads.rows ++ map (claim_of owner_id) fs)
            (ap (λ k. take k files) v.reports ∙ take-length files)

    -- From a store in which every row has its object, with keys that are new and failed inserts that did not land:
    -- an upload that is answered as created has stored between one and ten files, each accepted whole from a
    -- part of the request; it has appended a row of the user for each of them, in order, and every row still
    -- has its object.
    pub upload-created :
        (st st' : Store) (owner_id : ℕ) (addr : Text) (parts : Stream) (files : List SavedFile)
        → upload detect_mime has_quota draws number_text now replies s st true
            (some owner_id)
            addr
            parts
          ≡ (st', created files)
        → IsBacked st
        → NewKeys st.uploads.rows files
        → ((j : ℕ) → Settled (replies j).insert)
        → (1 ≤ length files)
          × (length files ≤ upload_max_files)
          × All (IsFrom detect_mime parts) files
          × (map claim st'.uploads.rows
              ≡ map claim st.uploads.rows ++ map (claim_of owner_id) files)
          × IsBacked st'
    unfolding upload
    upload-created st st' owner_id addr parts files e backed new settled =
        let got = read_files detect_mime has_quota draws s 0 [] parts in
        let (read, some_file, saved) =
          subst (Committed st addr owner_id got) e (store_batch-Committed st addr owner_id got) in
        let (few, from) = read_files-IsAccepted detect_mime has_quota draws s parts files read in
        let (n, v) =
          save_metadata-IsSaved number_text got.0 now replies addr owner_id st files backed new
            settled in
        let v' = subst (λ x. IsSaved number_text got.0 st owner_id 0 files x n) saved v in
        (some_file, few, from, all_reported n st owner_id got.0 files st' v', v'.backed)

-- ===== src/Upload/Save/Batch.antt =====
-- `SaveMetadata` over a whole batch.
use lite_end_go.Base.{
  ℕ, suc, ◌≡◌, refl, sym, ◌∙◌, ap, subst, inl, inr, Bool, true, false, none, List, [], ◌∷◌, ◌++◌,
  map, arith, if◌then◌else◌, Bool-cases, length, take,
}
use mathlib.Core.List.{map-append, append_assoc, append-nil}
use lite_end_go.Strings.{Text}
use lite_end_go.Strings.Laws.{same_refl}
use lite_end_go.Upload.Table.{Upload, Uploads, find_path}
use lite_end_go.Upload.Links.{Service}
use lite_end_go.Upload.Process.{SavedFile}
use lite_end_go.Upload.Save.{
  Object, has_object, Store, PutReply, stored, put_failed, Replies, Outcome, all_saved, put_error,
  insert_error, object_of, add_object, put_object, record_file, save_from, save_metadata,
}
use lite_end_go.Upload.Save.Laws.{
  IsBacked, Backed-add, Backed-append, NotIn, NewKeys, NewKeys-append, Settled, claim, claim_of,
  Reports,
}
use lite_end_go.Upload.Save.Steps.{Recorded, record_file-Recorded}

module _ (number_text : ℕ → Text) (s : Service) where
  -- A put that reports success has added the file's object; one that does not has kept every row backed.
  abbrev Put : Store → SavedFile → Store × Bool → Type 0
  Put st f (st', true) = st' ≡ add_object st (object_of number_text s f)
  Put st f (st', false) = (st'.uploads ≡ st.uploads) × IsBacked st'

  put_object-Put :
      (st : Store) (reply : PutReply) (f : SavedFile)
      → IsBacked st
      → Put st f (put_object number_text s st reply f)
  unfolding put_object
  put_object-Put st stored f b = refl
  put_object-Put st (put_failed true) f b =
      (refl, Backed-add (object_of number_text s f) st.objects st.uploads.rows b)
  put_object-Put st (put_failed false) f b = (refl, b)

  has_object-object_of :
      (os : List Object) (f : SavedFile) → has_object f.key (object_of number_text s f ∷ os) ≡ true
  unfolding has_object object_of
  has_object-object_of os f = rw (same_refl f.key)

  -- What is left by the batch `fs` from place `i`: the first `n` files have their rows, in order and with
  -- their owner, the outcome tells `n`, and every row has its object.
  pub record IsSaved (st : Store) (owner_id i : ℕ) (fs : List SavedFile) (x : Store × Outcome)
      (n : ℕ) : Type 0 where
    pub rows :
        map claim x.0.uploads.rows
        ≡ map claim st.uploads.rows ++ map (claim_of owner_id) (take n fs)
    pub reports : Reports i n (length fs) x.1
    pub backed : IsBacked x.0

  module _ (now : ℕ) (replies : ℕ → Replies) (ip : Text) (owner_id : ℕ) where
    Put-true :
        (st : Store) (f : SavedFile) (x : Store × Bool)
        → Put st f x
        → x.1 ≡ true
        → x.0 ≡ add_object st (object_of number_text s f)
    Put-true st f (st', true) h e = h
    Put-true st f (st', false) h e = cc

    Put-false :
        (st : Store) (f : SavedFile) (x : Store × Bool)
        → Put st f x
        → x.1 ≡ false
        → (x.0.uploads ≡ st.uploads) × IsBacked x.0
    Put-false st f (st', true) h e = cc
    Put-false st f (st', false) h e = h

    Recorded-true :
        (st : Store) (f : SavedFile) (x : Store × Bool)
        → Recorded st f owner_id x
        → x.1 ≡ true
        → (u : Upload) × (x.0.uploads.rows ≡ st.uploads.rows ++ u ∷ [])
          × (claim u ≡ claim_of owner_id f)
          × (x.0.objects ≡ st.objects)
    Recorded-true st f (st', true) h e = h
    Recorded-true st f (st', false) h e = cc

    Recorded-false :
        (st : Store) (f : SavedFile) (x : Store × Bool)
        → Recorded st f owner_id x
        → x.1 ≡ false
        → (x.0.uploads ≡ st.uploads) × IsBacked x.0
    Recorded-false st f (st', true) h e = cc
    Recorded-false st f (st', false) h e = h

    abbrev Saves : ℕ → Store → List SavedFile → Store × Outcome → Type 0
    Saves i st fs x = (n : ℕ) × IsSaved st owner_id i fs x n

    none_saved :
        (i : ℕ) (st st' : Store) (f : SavedFile) (fs : List SavedFile) (o : Outcome)
        → st'.uploads ≡ st.uploads
        → IsBacked st'
        → Reports i 0 (suc (length fs)) o
        → Saves i st (f ∷ fs) (st', o)
    none_saved i st st' f fs o same_rows b r = (
      0,
      record {
        rows = ap (λ (t : Uploads). map claim t.rows) same_rows ∙ sym (append-nil _);
        reports = r;
        backed = b;
      },
    )

    Reports-next :
        (i n len : ℕ) (o : Outcome) → Reports (suc i) n len o → Reports i (suc n) (suc len) o
    Reports-next i n len all_saved r = omega arith
    Reports-next i n len (put_error c) r = omega arith
    Reports-next i n len (insert_error c) r = omega arith

    one_more :
        (i : ℕ) (st st' : Store) (f : SavedFile) (fs : List SavedFile) (u : Upload)
        (x : Store × Outcome)
        → st'.uploads.rows ≡ st.uploads.rows ++ u ∷ []
        → claim u ≡ claim_of owner_id f
        → Saves (suc i) st' fs x
        → Saves i st (f ∷ fs) x
    one_more i st st' f fs u x rows c (n, v) = (
      suc n,
      record {
        rows =
            v.rows
            ∙ ap (λ us. map claim us ++ map (claim_of owner_id) (take n fs)) rows
            ∙ rw (map-append claim st.uploads.rows (u ∷ []), append_assoc)
                (ap (λ q. map claim st.uploads.rows ++ q ∷ map (claim_of owner_id) (take n fs)) c);
        reports = Reports-next i n (length fs) x.1 v.reports;
        backed = v.backed;
      },
    )

    committed-IsBacked :
        (st st' : Store) (f : SavedFile) (u : Upload)
        → IsBacked (add_object st (object_of number_text s f))
        → st'.uploads.rows ≡ st.uploads.rows ++ u ∷ []
        → claim u ≡ claim_of owner_id f
        → st'.objects ≡ object_of number_text s f ∷ st.objects
        → IsBacked st'
    committed-IsBacked st st' f u b rows c objects =
        rw (rows, objects)
          (Backed-append (object_of number_text s f ∷ st.objects) st.uploads.rows u b (
            ap (λ q. has_object (q.0) (object_of number_text s f ∷ st.objects)) c
            ∙ has_object-object_of st.objects f))

    after_put :
        (i : ℕ) (st : Store) (f : SavedFile) (fs : List SavedFile)
        → IsBacked st
        → find_path f.key st.uploads.rows ≡ none
        → NotIn f.key fs
        → NewKeys st.uploads.rows fs
        → Settled (replies i).insert
        → ((st' : Store)
            → IsBacked st'
            → NewKeys st'.uploads.rows fs
            → Saves (suc i) st' fs (save_from number_text now s replies ip owner_id (suc i) st' fs))
        → let x =
            record_file now (add_object st (object_of number_text s f)) (replies i) f ip owner_id in
          Saves i st (f ∷ fs) (
            if x.1
            then save_from number_text now s replies ip owner_id (suc i) x.0 fs
            else (x.0, insert_error i))
    after_put i st f fs b new apart keys settled ih =
        let st1 : Store = add_object st (object_of number_text s f) in
        let b1 : IsBacked st1 =
          Backed-add (object_of number_text s f) st.objects st.uploads.rows b in
        let x = record_file now st1 (replies i) f ip owner_id in
        let h = record_file-Recorded now st1 (replies i) f ip owner_id b1 new settled in
        elim (Bool-cases x.1) [
          | inr e ↦
              let (same_rows, b') = Recorded-false st1 f x h e in
              rw e
                (none_saved i st x.0 f fs (insert_error i) same_rows b' (omega arith, omega arith))
          | inl e ↦
              let (u, rows, c, objects) = Recorded-true st1 f x h e in
              rw e (
                one_more i st x.0 f fs u _ rows c (
                  ih x.0 (committed-IsBacked st x.0 f u b1 rows c objects) (
                    rw rows (
                      NewKeys-append st.uploads.rows u fs keys
                        (subst (λ k. NotIn k fs) (sym (ap (λ q. q.0) c)) apart)))))
        ]

    save_from-Saves :
        (i : ℕ) (st : Store) (fs : List SavedFile)
        → IsBacked st
        → NewKeys st.uploads.rows fs
        → ((j : ℕ) → Settled (replies j).insert)
        → Saves i st fs (save_from number_text now s replies ip owner_id i st fs)
    unfolding save_from
    save_from-Saves i st [] b keys settled =
        (0, record { rows = sym (append-nil _); reports = refl; backed = b })
    save_from-Saves i st (f ∷ fs) b (new, apart, keys) settled =
        let put = put_object number_text s st (replies i).put f in
        let put_ok = put_object-Put st (replies i).put f b in
        elim (Bool-cases put.1) [
          | inr e ↦
              let (same_rows, b') = Put-false st f put put_ok e in
              rw e
                (none_saved i st put.0 f fs (put_error i) same_rows b' (omega arith, omega arith))
          | inl e ↦
              rw (e, Put-true st f put put_ok e)
                (after_put i st f fs b new apart keys (settled i)
                  (λ st' b' keys'. save_from-Saves (suc i) st' fs b' keys' settled))
        ]

    -- A batch whose keys are new and whose failed inserts did not land: some first files are committed with
    -- their owner, the outcome counts them, and every row of the table has its object in the bucket.
    pub save_metadata-IsSaved :
        (st : Store) (fs : List SavedFile)
        → IsBacked st
        → NewKeys st.uploads.rows fs
        → ((j : ℕ) → Settled (replies j).insert)
        → (n : ℕ) × IsSaved st owner_id 0 fs
            (save_metadata number_text now s replies st fs ip owner_id)
            n
    unfolding save_metadata
    save_metadata-IsSaved st fs b keys settled = save_from-Saves 0 st fs b keys settled

-- ===== src/Upload/Process/Laws.antt =====
-- What a file that passes `ProcessFile` is.
use lite_end_go.Base.{
  ℕ, zero, suc, ltb-false→le, ◌≤◌, ◌≡◌, refl, sym, ◌∙◌, ap, inl, inr, true, none, some, [], ◌∷◌,
  arith, ltb, Bool-cases, Option-cases, length, take, Result, ok, err, Result-cases,
}
use lite_end_go.Strings.{Text}
use lite_end_go.Upload.Links.{Service, Signing, LinkError, link_for}
use lite_end_go.Upload.Filename.{bounded_filename}
use lite_end_go.Upload.Process.{
  upload_max_file_size, sniff_len, allowed_mime, object_key, Body, whole, broken, read_up_to,
  SavedFile, ProcessError, checked_file, process_file, linked,
}

pub take_all : (n : ℕ) (t : Text) → length (take (suc n) t) ≤ n → take (suc n) t ≡ t
take_all n [] h = refl
take_all zero (x ∷ t) h = absurd (omega arith)
take_all (suc n) (x ∷ t) h = ap (◌∷◌ x) (take_all n t (omega arith))

pub length-take_long : (n : ℕ) (t : Text) → n ≤ length t → length (take n t) ≡ n
length-take_long zero t h = refl
length-take_long (suc n) [] h = absurd (omega arith)
length-take_long (suc n) (x ∷ t) h = ap suc (length-take_long n t (omega arith))

some-injective : {t u : Text} → some t ≡ some u → t ≡ u
some-injective e = cc

none_not_some : {t : Text} → none ≡ some t → ⊥
none_not_some e = cc

-- A read that stays below its bound has the whole body.
read_up_to_all :
    (n : ℕ) (body : Body) (t : Text)
    → read_up_to (suc n) body ≡ some t
    → length t ≤ n
    → body ≡ whole t
unfolding read_up_to
read_up_to_all n (whole b) t e h =
    let taken : take (suc n) b ≡ t = some-injective e in
    ap whole (sym (take_all n b (rw taken h)) ∙ taken)
read_up_to_all n (broken b) t e h = elim (Bool-cases (ltb (length b) (suc n))) [
  | inl short ↦ absurd (none_not_some (rw short at e))
  | inr long ↦
      let taken : take (suc n) b ≡ t = some-injective (rw long at e) in
      absurd
        (past_end (ap length (sym taken) ∙ length-take_long (suc n) b (ltb-false→le _ _ long)) h)
]
  where
    past_end : {m : ℕ} → m ≡ suc n → m ≤ n → ⊥
    past_end e h = omega arith

-- A file that is accepted: the whole body arrived, it is no longer than the limit, and the type that
-- was detected in it is on the list.
pub record IsAccepted (detect_mime : Text → Text) (body : Body) (f : SavedFile) : Type 0 where
  pub complete : body ≡ whole f.bytes
  pub sized : f.size ≡ length f.bytes
  pub bounded : f.size ≤ upload_max_file_size
  pub detected : f.mimetype ≡ detect_mime (take sniff_len f.bytes)
  pub allowed : allowed_mime f.mimetype ≡ true

read_up_to_whole :
    (n : ℕ) (body : Body) (t head : Text)
    → body ≡ whole t
    → read_up_to n body ≡ some head
    → head ≡ take n t
unfolding read_up_to
read_up_to_whole n body t head e h = some-injective (sym h ∙ ap (read_up_to n) e)

module _ (detect_mime : Text → Text) where
  -- The tests that an accepted body has passed, with the head that was sniffed.
  record HasPassed (mimetype : Text) (body : Body) (detected content head : Text) : Type 0 where
    sniffed : read_up_to sniff_len body ≡ some head
    is_detected : detected ≡ detect_mime head
    is_allowed : allowed_mime (detect_mime head) ≡ true
    all_read : read_up_to (suc upload_max_file_size) body ≡ some content
    fits : length content ≤ upload_max_file_size

  checked_file-HasPassed :
      (mimetype : Text) (body : Body) (detected content : Text)
      → checked_file detect_mime mimetype body ≡ ok (detected, content)
      → (head : Text) × HasPassed mimetype body detected content head
  unfolding checked_file
  checked_file-HasPassed mimetype body detected content e =
      elim (Option-cases (read_up_to sniff_len body)) [
        | inl cut ↦ absurd (ground arith)
        | inr (head, sniffed) ↦ elim (Option-cases (read_up_to (suc upload_max_file_size) body)) [
          | inl cut ↦ absurd (ground arith)
          | inr (all, all_read) ↦ (
            head,
            record {
              sniffed = sniffed;
              is_detected = ground arith;
              is_allowed = ground arith;
              all_read = ground arith;
              fits = ground arith;
            },
          )
        ]
      ]

  checked_file-eq_ok :
      (mimetype : Text) (body : Body) (detected content : Text)
      → checked_file detect_mime mimetype body ≡ ok (detected, content)
      → (body ≡ whole content)
        × (length content ≤ upload_max_file_size)
        × (detected ≡ detect_mime (take sniff_len content))
        × (allowed_mime detected ≡ true)
  checked_file-eq_ok mimetype body detected content e =
      let (head, p) = checked_file-HasPassed mimetype body detected content e in
      let complete = read_up_to_all upload_max_file_size body content p.all_read p.fits in
      (
        complete,
        p.fits,
        p.is_detected
            ∙ ap detect_mime (read_up_to_whole sniff_len body content head complete p.sniffed),
        ap allowed_mime p.is_detected ∙ p.is_allowed,
      )

  module _ (s : Service) (env : Signing) (dir uuid mimetype : Text) (body : Body) where
    -- Where the file was linked, its fields are those of the checked data.
    linked-eq_ok :
        (key original detected content : Text) (x : Service × Result LinkError Text) (f : SavedFile)
        → (linked detect_mime key original detected content x).1 ≡ ok f
        → (f.bytes ≡ content) × (f.size ≡ length content) × (f.mimetype ≡ detected)
    linked-eq_ok key original detected content (s', err e) f h = cc
    linked-eq_ok key original detected content (s', ok link) f h = ground arith

    -- A file that is accepted is the whole body, within the size limit, and of an allowed type that was
    -- detected in its own first bytes, whatever type and name the client declared.
    pub process_file-IsAccepted :
        (original : Text) (f : SavedFile)
        → (process_file detect_mime s env dir uuid original mimetype body).1 ≡ ok f
        → IsAccepted detect_mime body f
    unfolding process_file
    process_file-IsAccepted original f h =
        elim (Result-cases (checked_file detect_mime mimetype body)) [
          | inr (e, refused) ↦ absurd (err_not_ok (rw (refused, process_file) at h))
          | inl ((detected, content), passed) ↦
              let (complete, fits, is_detected, is_allowed) =
                checked_file-eq_ok mimetype body detected content passed in
              let (same_bytes, same_size, same_type) =
                linked-eq_ok (object_key dir uuid detected) original detected content
                  (link_for s env (object_key dir uuid detected)) f
                  (rw (passed, process_file) at h) in
              record {
                complete = complete ∙ ap whole (sym same_bytes);
                sized = same_size ∙ ap length (sym same_bytes);
                bounded = size_le same_size fits;
                detected =
                    same_type
                    ∙ is_detected
                    ∙ ap (λ t. detect_mime (take sniff_len t)) (sym same_bytes);
                allowed = ap allowed_mime same_type ∙ is_allowed;
              }
        ]
      where
        err_not_ok : {e : ProcessError} → err e ≡ ok f → ⊥
        err_not_ok x = cc

        size_le : {n : ℕ} → f.size ≡ n → n ≤ upload_max_file_size → f.size ≤ upload_max_file_size
        size_le e le = omega arith

    abbrev pub renamed :
        Text → Service × Result ProcessError SavedFile → Service × Result ProcessError SavedFile
    renamed name (s', err e) = (s', err e)
    renamed name (s', ok f) = (s', ok (record f { original_filename = name }))

    linked-renamed :
        (key original other detected content : Text) (x : Service × Result LinkError Text)
        → linked detect_mime key other detected content x
          ≡ renamed (bounded_filename other) (linked detect_mime key original detected content x)
    linked-renamed key original other detected content (s', err e) = refl
    linked-renamed key original other detected content (s', ok link) = refl

    -- The client's filename reaches nothing but the recorded name: not the verdict, not the key, the
    -- link or the extension.
    pub process_file-renamed :
        (original other : Text)
        → process_file detect_mime s env dir uuid other mimetype body
          ≡ renamed
              (bounded_filename other)
              (process_file detect_mime s env dir uuid original mimetype body)
    unfolding process_file
    process_file-renamed original other =
        elim (Result-cases (checked_file detect_mime mimetype body)) [
          | inr (e, refused) ↦ rw (refused, process_file)
          | inl ((detected, content), passed) ↦
              rw (passed, process_file)
                (linked-renamed (object_key dir uuid detected) original other detected content
                  (link_for s env (object_key dir uuid detected)))
        ]

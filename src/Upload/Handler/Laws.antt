-- ===== src/Upload/Handler/Laws.antt =====
-- What `readFiles` hands on.
use lite_end_go.Base.{
  ℕ, suc, ◌+◌, ◌≤◌, ◌≡◌, refl, sym, ◌∙◌, ap, ◌⊎◌, inl, inr, Bool, List, [], ◌∷◌, ◌++◌, arith, ltb,
  subst, ltb-false→le, Bool-cases, is_empty, length, take, All, Result, ok, err,
}
use mathlib.Core.List.{append_assoc, append-nil}
use lite_end_go.Strings.{Text}
use lite_end_go.Http.{Response}
use lite_end_go.Upload.Links.{Service}
use lite_end_go.Upload.Process.{
  Body, whole, broken, SavedFile, ProcessError, disallowed_mime, file_too_large, limit_reader,
  upload_max_file_size,
}
use lite_end_go.Upload.Process.Laws.{
  IsAccepted, process_file-IsAccepted, take_all, length-take_long,
}
use lite_end_go.Upload.Handler.{
  Part, Stream, ends, malformed, part, Draw, Action, stop, go_on, part_action, processed,
  over_quota, read_files, upload_max_files,
}

whole_inj : {a b : Text} → whole a ≡ whole b → a ≡ b
whole_inj x = cc

broken_not_whole : {a b : Text} → broken a ≡ whole b → ⊥
broken_not_whole x = cc

past_limit : (n : ℕ) (u t : Text) → length t ≤ n → suc n ≤ length u → take (suc n) u ≡ t → ⊥
past_limit n u t fits long e = omega (arith, length-take_long (suc n) u long, ap length e)

-- The limit of one byte past the maximum hides nothing of a body that is accepted.
limit_reader-whole :
    (n : ℕ) (body : Body) (t : Text)
    → limit_reader (suc n) body ≡ whole t
    → length t ≤ n
    → body ≡ whole t
unfolding limit_reader
limit_reader-whole n (whole u) t h fits =
    let e : take (suc n) u ≡ t = whole_inj h in ap whole (sym (take_all n u (rw e fits)) ∙ e)
limit_reader-whole n (broken u) t h fits = elim (Bool-cases (ltb (length u) (suc n))) [
  | inl e ↦ absurd (broken_not_whole (rw e at h))
  | inr e ↦ absurd (past_limit n u t fits (ltb-false→le _ _ e) (whole_inj (rw e at h)))
]

module _ (detect_mime : Text → Text) where
  -- The file is accepted from one of the parts.
  abbrev pub IsFrom : Stream → SavedFile → Type 0
  IsFrom ends f = ⊥
  IsFrom malformed f = ⊥
  IsFrom (part p rest) f = IsAccepted detect_mime p.body f ⊎ IsFrom rest f

  abbrev Took : Part → Action → Type 0
  Took p (stop response) = Unit
  Took p (go_on n []) = Unit
  Took p (go_on n (f ∷ [])) = IsAccepted detect_mime p.body f
  Took p (go_on n (f ∷ g ∷ more)) = ⊥

  -- The count and the room that an action leaves.
  abbrev Counts : ℕ → Action → Type 0
  Counts n (stop response) = Unit
  Counts n (go_on m more) = (n + length more ≤ m) × (m ≤ upload_max_files)

  IsAccepted-unlimited :
      (body : Body) (f : SavedFile)
      → IsAccepted detect_mime (limit_reader (suc upload_max_file_size) body) f
      → IsAccepted detect_mime body f
  IsAccepted-unlimited body f a = record {
    complete =
        limit_reader-whole upload_max_file_size body f.bytes a.complete (rw⁻¹ a.sized a.bounded);
    sized = a.sized;
    bounded = a.bounded;
    detected = a.detected;
    allowed = a.allowed;
  }

  processed-Took :
      (p : Part) (n : ℕ) (x : Service × Result ProcessError SavedFile)
      → ((f : SavedFile) → x.1 ≡ ok f → IsAccepted detect_mime p.body f)
      → Took p (processed n x).1
  processed-Took p n (s, ok f) h = h f refl
  processed-Took p n (s, err disallowed_mime) h = tt
  processed-Took p n (s, err file_too_large) h = tt
  processed-Took p n (s, err ProcessError.head_unreadable) h = tt
  processed-Took p n (s, err ProcessError.body_unreadable) h = tt
  processed-Took p n (s, err ProcessError.no_link) h = tt

  processed-Counts :
      (n : ℕ) (x : Service × Result ProcessError SavedFile)
      → suc n ≤ upload_max_files
      → Counts n (processed (suc n) x).1
  processed-Counts n (s, ok f) h = (omega arith, h)
  processed-Counts n (s, err disallowed_mime) h = (omega arith, h)
  processed-Counts n (s, err file_too_large) h = tt
  processed-Counts n (s, err ProcessError.head_unreadable) h = tt
  processed-Counts n (s, err ProcessError.body_unreadable) h = tt
  processed-Counts n (s, err ProcessError.no_link) h = tt

  module _ (has_quota : Bool) (draws : ℕ → Draw) where
    part_action-Took :
        (s : Service) (n : ℕ) (p : Part)
        → n ≤ upload_max_files
        → Took p (part_action detect_mime has_quota draws s n p).1
          × Counts n (part_action detect_mime has_quota draws s n p).1
    unfolding part_action
    part_action-Took s n p h = elim (Bool-cases (is_empty p.filename)) [
      | inl e ↦ rw e (tt, (omega arith, h))
      | inr e ↦ elim (Bool-cases (ltb upload_max_files (suc n))) [
        | inl many ↦ rw (e, many) (tt, tt)
        | inr room ↦ elim (Bool-cases (over_quota has_quota (draws (suc n)).quota)) [
          | inl over ↦ rw (e, room, over) (tt, tt)
          | inr under ↦
              rw (e, room, under)
                (
                  processed-Took p (suc n) _ (λ f q.
                      IsAccepted-unlimited p.body f (process_file-IsAccepted _ _ _ _ _ _ _ _ f q)),
                  processed-Counts n _ (ltb-false→le _ _ room),
                )
        ]
      ]
    ]

    -- What the loop adds to the files it has: each is from a part of the rest, and there is room for it.
    abbrev Adds : ℕ → List SavedFile → Stream → Result Response (List SavedFile) → Type 0
    Adds n saved parts (err response) = Unit
    Adds n saved parts (ok files) =
        (more : List SavedFile) × (files ≡ saved ++ more)
        × All (IsFrom parts) more
        × (n + length more ≤ upload_max_files)

    IsFrom-later :
        (p : Part) (rest : Stream) (files : List SavedFile)
        → All (IsFrom rest) files
        → All (IsFrom (part p rest)) files
    IsFrom-later p rest [] h = tt
    IsFrom-later p rest (f ∷ files) (h, hs) = (inr h, IsFrom-later p rest files hs)

    Adds-more :
        (n m : ℕ) (saved got : List SavedFile) (p : Part) (rest : Stream)
        (x : Result Response (List SavedFile))
        → Took p (go_on m got)
        → Counts n (go_on m got)
        → Adds m (saved ++ got) rest x
        → Adds n saved (part p rest) x
    Adds-more n m saved got p rest (err response) took counts adds = tt
    Adds-more n m saved [] p rest (ok files) took (grown, room) (more, e, from, fits) =
        (more, e ∙ ap (◌++ more) (append-nil saved), IsFrom-later p rest more from, omega arith)
    Adds-more n m saved (f ∷ []) p rest (ok files) took (grown, room) (more, e, from, fits) = (
      f ∷ more,
      e ∙ append_assoc saved (f ∷ []) more,
      (inl took, IsFrom-later p rest more from),
      omega arith,
    )
    Adds-more n m saved (f ∷ g ∷ got) p rest (ok files) took counts adds = absurd took

    continued :
        (n : ℕ) (saved : List SavedFile) (p : Part) (rest : Stream) (x : Service × Action)
        → Took p x.1 × Counts n x.1
        → ((s : Service) (m : ℕ) (files : List SavedFile)
            → m ≤ upload_max_files
            → Adds m files rest (read_files detect_mime has_quota draws s m files rest).1)
        → let y : Service × Result Response (List SavedFile) = elim x.1 [
          | stop response ↦ (x.0, err response)
          | go_on m more ↦ read_files detect_mime has_quota draws x.0 m (saved ++ more) rest
        ] in
          Adds n saved (part p rest) y.1
    continued n saved p rest (s, stop response) h ih = tt
    continued n saved p rest (s, go_on m more) (took, counts) ih =
        Adds-more n m saved more p rest _ took counts (ih s m (saved ++ more) counts.1)

    read_files-Adds :
        (s : Service) (n : ℕ) (saved : List SavedFile) (parts : Stream)
        → n ≤ upload_max_files
        → Adds n saved parts (read_files detect_mime has_quota draws s n saved parts).1
    unfolding read_files
    read_files-Adds s n saved ends h = ([], sym (append-nil saved), tt, omega arith)
    read_files-Adds s n saved malformed h = tt
    read_files-Adds s n saved (part p rest) h =
        continued n saved p rest (part_action detect_mime has_quota draws s n p)
          (part_action-Took s n p h) (λ s' m files room. read_files-Adds s' m files rest room)

    -- The files that are read off a request are at most ten, and each is accepted from one of its parts:
    -- whole, within the size limit and of an allowed detected type.
    pub read_files-IsAccepted :
        (s : Service) (parts : Stream) (files : List SavedFile)
        → (read_files detect_mime has_quota draws s 0 [] parts).1 ≡ ok files
        → (length files ≤ upload_max_files) × All (IsFrom parts) files
    read_files-IsAccepted s parts files e =
        let (more, same, from, fits) =
          subst (Adds 0 [] parts) e (read_files-Adds s 0 [] parts (omega arith)) in
        (rw same (omega arith), rw same from)

-- ===== src/Upload/Save/Laws.antt =====
-- What it is for the rows of `SaveMetadata` to have their objects, and for its outcome to be right.
use lite_end_go.Base.{
  ℕ, ◌+◌, ◌<◌, ◌≡◌, refl, ◌∙◌, inl, inr, true, false, Option, none, some, List, [], ◌∷◌, ◌++◌,
  arith, Bool-cases,
}
use lite_end_go.Strings.{Text, same}
use lite_end_go.Strings.Laws.{same_iff}
use lite_end_go.Upload.Table.{Upload, find_path}
use lite_end_go.Upload.Process.{SavedFile}
use lite_end_go.Upload.Save.{
  Object, has_object, drop_object, Store, InsertReply, inserted, insert_failed, Outcome, all_saved,
  put_error, insert_error,
}

-- Every row's object is in the bucket.
abbrev pub Backed : List Object → List Upload → Type 0
Backed os [] = Unit
Backed os (u ∷ us) = (has_object u.filepath os ≡ true) × Backed os us

abbrev pub IsBacked : Store → Type 0
IsBacked st = Backed st.objects st.uploads.rows

has_object-drop_object :
    (k key : Text) (os : List Object)
    → same k key ≡ false
    → has_object key (drop_object k os) ≡ has_object key os
unfolding has_object drop_object
has_object-drop_object k key [] h = refl
has_object-drop_object k key (o ∷ os) h =
    ground (
      arith,
      same_iff o.key k,
      same_iff o.key key,
      same_iff k key,
      has_object-drop_object k key os h,
    )

pub Backed-add :
    (o : Object) (os : List Object) (us : List Upload) → Backed os us → Backed (o ∷ os) us
unfolding has_object
Backed-add o os [] b = tt
Backed-add o os (u ∷ us) (h, b) = (ground arith, Backed-add o os us b)

pub Backed-drop :
    (k : Text) (os : List Object) (us : List Upload)
    → find_path k us ≡ none
    → Backed os us
    → Backed (drop_object k os) us
unfolding find_path
Backed-drop k os [] e b = tt
Backed-drop k os (u ∷ us) e (h, b) = elim (Bool-cases (same u.filepath k)) [
  | inl this ↦ absurd (ground arith)
  | inr other ↦ (
    has_object-drop_object k u.filepath os
          (ground (arith, same_iff k u.filepath, same_iff u.filepath k))
        ∙ h,
    Backed-drop k os us (rw (other, find_path) at e) b,
  )
]

pub Backed-append :
    (os : List Object) (us : List Upload) (u : Upload)
    → Backed os us
    → has_object u.filepath os ≡ true
    → Backed os (us ++ u ∷ [])
Backed-append os [] u b h = (h, tt)
Backed-append os (v ∷ us) u (g, b) h = (g, Backed-append os us u b h)

find_path-append :
    (path : Text) (us : List Upload) (u : Upload)
    → find_path path us ≡ none
    → same u.filepath path ≡ false
    → find_path path (us ++ u ∷ []) ≡ none
unfolding find_path
find_path-append path [] u e h = rw h
find_path-append path (v ∷ us) u e h = ground (arith, find_path-append path us u)

-- No later file of the batch has that key.
abbrev pub NotIn : Text → List SavedFile → Type 0
NotIn key [] = Unit
NotIn key (g ∷ gs) = (same key g.key ≡ false) × NotIn key gs

-- The keys of a batch are new: no row has one, and no two files share one.
abbrev pub NewKeys : List Upload → List SavedFile → Type 0
NewKeys us [] = Unit
NewKeys us (f ∷ fs) = (find_path f.key us ≡ none) × NotIn f.key fs × NewKeys us fs

pub NewKeys-append :
    (us : List Upload) (u : Upload) (fs : List SavedFile)
    → NewKeys us fs
    → NotIn u.filepath fs
    → NewKeys (us ++ u ∷ []) fs
NewKeys-append us u [] k n = tt
NewKeys-append us u (f ∷ fs) (e, d, k) (h, n) =
    (find_path-append f.key us u e h, d, NewKeys-append us u fs k n)

-- The database tells the truth about failed inserts: none of them has landed.
abbrev pub Settled : InsertReply → Type 0
Settled inserted = Unit
Settled (insert_failed landed) = landed ≡ false

-- What a row claims: its object's key and its owner.
abbrev pub claim : Upload → Text × Option ℕ
claim u = (u.filepath, u.uploader_profile_id)

abbrev pub claim_of : ℕ → SavedFile → Text × Option ℕ
claim_of owner_id f = (f.key, some owner_id)

-- The outcome of a batch from place `i` of which `n` files of `len` are committed.
abbrev pub Reports : ℕ → ℕ → ℕ → Outcome → Type 0
Reports i n len all_saved = n ≡ len
Reports i n len (put_error c) = (c ≡ i + n) × (n < len)
Reports i n len (insert_error c) = (c ≡ i + n) × (n < len)

-- ===== src/Upload/Process.antt =====
-- `ProcessFile` of internal/upload/service.go: one file is checked, read and named. Content sniffing
-- (`http.DetectContentType`), the clock and `uuid.NewString` are parameters.
pub mod Laws
use lite_end_go.Base.{
  ℕ, suc, ◌*◌, Bool, true, false, Option, none, some, List, [], ◌∷◌, ◌++◌, ltb, if◌then◌else◌,
  length, take, Result, ok, err, ◌>>=◌, ◌>>◌, ◌+◌,
}
use lite_end_go.Strings.{Text, codes, same, cut_last_byte}
use lite_end_go.Upload.Links.{Service, Signing, LinkError, link_for}
use lite_end_go.Upload.Filename.{bounded_filename}

-- `config.UploadMaxFileSize`, 5 MiB.
abbrev pub upload_max_file_size : ℕ
upload_max_file_size = 5242880

abbrev pub sniff_len : ℕ
sniff_len = 512

-- `allowedMimeTypes`, each with its extension.
abbrev pub allowed_mime_types : List (Text × Text)
allowed_mime_types =
    (codes "image/png", codes ".png")
    ∷ (codes "image/jpeg", codes ".jpg")
    ∷ (codes "image/gif", codes ".gif")
    ∷ (codes "image/webp", codes ".webp")
    ∷ []

unfoldable pub lookup : Text → List (Text × Text) → Option Text
lookup k [] = none
lookup k ((j, v) ∷ m) = if same j k then some v else lookup k m

abbrev pub is_some : Option Text → Bool
is_some none = false
is_some (some t) = true

-- `AllowedMime`.
unfoldable pub allowed_mime : Text → Bool
unfolding lookup
allowed_mime mimetype = is_some (lookup mimetype allowed_mime_types)

abbrev pub or_empty : Option Text → Text
or_empty none = []
or_empty (some t) = t

-- `objectKey`: the date directory, a random name, the extension of the sniffed type.
unfoldable pub object_key : Text → Text → Text → Text
unfolding lookup
object_key dir uuid mimetype =
    dir ++ (b'/' ∷ (uuid ++ or_empty (lookup mimetype allowed_mime_types)))

-- `path.Base` of a key that does not end in a slash.
unfoldable pub base : Text → Text
base key = elim (cut_last_byte key b'/') [ none ↦ key | some (dir, name) ↦ name ]

-- `path.Ext`.
unfoldable pub ext : Text → Text
unfolding base
ext key = elim (cut_last_byte (base key) b'.') [ none ↦ [] | some (stem, e) ↦ b'.' ∷ e ]

-- A request body: all of its bytes, or those before a read fails.
pub data Body : Type 0 where
  whole broken : Text → Body

-- Reading up to `n` bytes, which fails if the failure comes first.
unfoldable pub read_up_to : ℕ → Body → Option Text
read_up_to n (whole t) = some (take n t)
read_up_to n (broken t) = if ltb (length t) n then none else some (take n t)

-- `io.LimitReader`.
unfoldable pub limit_reader : ℕ → Body → Body
limit_reader n (whole t) = whole (take n t)
limit_reader n (broken t) = if ltb (length t) n then broken t else whole (take n t)

pub record SavedFile : Type 0 where
  pub filename : Text
  pub key : Text
  pub path : Text
  pub bytes : Text
  pub original_filename : Text
  pub extension : Text
  pub size : ℕ
  pub mimetype : Text

pub data ProcessError : Type 0 where
  disallowed_mime file_too_large head_unreadable body_unreadable no_link : ProcessError

abbrev pub check : Bool → ProcessError → Result ProcessError (Unit {0})
check true e = ok tt
check false e = err e

abbrev pub or_fail : Option Text → ProcessError → Result ProcessError Text
or_fail none e = err e
or_fail (some t) e = ok t

abbrev pub within_limit : Text → Bool
within_limit t = if ltb upload_max_file_size (length t) then false else true

module _ (detect_mime : Text → Text) where
  -- The checks and reads, up to the data and its detected type.
  unfoldable pub checked_file : Text → Body → Result ProcessError (Text × Text)
  checked_file mimetype body = do
    check (allowed_mime mimetype) disallowed_mime
    head ← or_fail (read_up_to sniff_len body) head_unreadable
    check (allowed_mime (detect_mime head)) disallowed_mime
    content ← or_fail (read_up_to (suc upload_max_file_size) body) body_unreadable
    check (within_limit content) file_too_large
    ok (detect_mime head, content)

  abbrev pub saved_file : Text → Text → Text → Text → Text → SavedFile
  saved_file key link original detected content = record {
    filename = base key;
    key = key;
    path = link;
    bytes = content;
    original_filename = bounded_filename original;
    extension = ext key;
    size = length content;
    mimetype = detected;
  }

  abbrev pub linked :
      Text
      → Text
      → Text
      → Text
      → Service × Result LinkError Text
      → Service × Result ProcessError SavedFile
  linked key original detected content (s, err e) = (s, err no_link)
  linked key original detected content (s, ok link) =
      (s, ok (saved_file key link original detected content))

  -- `ProcessFile`, with the directory of the hour and the name that are drawn for it.
  unfoldable pub process_file :
      Service → Signing → Text → Text → Text → Text → Body → Service × Result ProcessError SavedFile
  unfolding checked_file
  process_file s env dir uuid original mimetype body = elim (checked_file mimetype body) [
    | err e ↦ (s, err e)
    | ok (detected, content) ↦
        let key = object_key dir uuid detected in
        linked key original detected content (link_for s env key)
  ]

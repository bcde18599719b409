-- ===== src/Upload/Filename.antt =====
-- `boundedFilename` of internal/upload/service.go: a client's filename, cut for storage.
pub mod Laws
use lite_end_go.Base.{
  ℕ, zero, suc, Bool, true, Option, none, some, leb, if◌then◌else◌, length, get_elem?, take,
}
use lite_end_go.Strings.{Text, rune_start}

-- `config.UploadMaxFilenameBytes`.
abbrev pub upload_max_filename_bytes : ℕ
upload_max_filename_bytes = 255

-- `utf8.RuneStart(name[i])`, with `i` inside the name.
abbrev pub rune_start_at : Text → ℕ → Bool
rune_start_at name i = elim (get_elem? name i) [ none ↦ true | some c ↦ rune_start c ]

-- The loop: the cut moves back while it would split a rune.
unfoldable pub cut_back : Text → ℕ → ℕ
cut_back name zero = zero
cut_back name (suc cut) = if rune_start_at name (suc cut) then suc cut else cut_back name cut

unfoldable pub bounded_filename : Text → Text
unfolding cut_back
bounded_filename name =
    if leb (length name) upload_max_filename_bytes
    then name
    else take (cut_back name upload_max_filename_bytes) name

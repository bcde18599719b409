-- ===== src/Upload/Table.antt =====
-- internal/db/sqlc/upload.sql.go: the `uploads` table and its two queries.
use lite_end_go.Base.{ℕ, suc, Option, none, some, List, [], ◌∷◌, ◌++◌, if◌then◌else◌}
use lite_end_go.Strings.{Text, same}

-- `sqlc.Upload`.
pub record Upload : Type 0 where
  pub id : ℕ
  pub created_at : ℕ
  pub updated_at : ℕ
  pub filepath : Text
  pub original_filename : Text
  pub extension : Text
  pub size : ℕ
  pub mimetype : Text
  pub uploader_ip : Text
  pub uploader_profile_id : Option ℕ

-- `CreateUploadParams`.
pub record NewUpload : Type 0 where
  pub filepath : Text
  pub original_filename : Text
  pub extension : Text
  pub size : ℕ
  pub mimetype : Text
  pub uploader_ip : Text
  pub uploader_profile_id : Option ℕ

-- The rows, oldest first, and the sequence behind `id SERIAL`.
pub record Uploads : Type 0 where
  pub rows : List Upload
  pub next_id : ℕ

unfoldable pub find_path : Text → List Upload → Option Upload
find_path path [] = none
find_path path (u ∷ us) = if same u.filepath path then some u else find_path path us

-- `GetUploadByFilepath`; `none` is `pgx.ErrNoRows`.
unfoldable pub get_upload_by_filepath : Uploads → Text → Option Upload
unfolding find_path
get_upload_by_filepath t path = find_path path t.rows

abbrev pub new_row : ℕ → ℕ → NewUpload → Upload
new_row id now n = record {
  id = id;
  created_at = now;
  updated_at = now;
  filepath = n.filepath;
  original_filename = n.original_filename;
  extension = n.extension;
  size = n.size;
  mimetype = n.mimetype;
  uploader_ip = n.uploader_ip;
  uploader_profile_id = n.uploader_profile_id;
}

-- `CreateUpload`; a path that has a row violates the unique index.
unfoldable pub create_upload : ℕ → Uploads → NewUpload → Option Uploads
unfolding find_path
create_upload now t n = elim (find_path n.filepath t.rows) [
  | none ↦ some (record { rows = t.rows ++ new_row t.next_id now n ∷ []; next_id = suc t.next_id })
  | some u ↦ none
]

-- ===== src/Upload/Samples.antt =====
-- Test data of uploads: a service with permanent links, and a request with one file.
use lite_end_go.Base.{ℕ, refl, true, false, none, some, [], ◌∷◌}
use lite_end_go.Strings.{Text, codes}
use lite_end_go.Middleware.RateLimit.{counted}
use lite_end_go.Upload.Table.{find_path}
use lite_end_go.Upload.Links.{Service, Signing}
use lite_end_go.Upload.Process.{Body, whole, SavedFile}
use lite_end_go.Upload.Save.{Store, Replies, stored, inserted}
use lite_end_go.Upload.Save.Laws.{NewKeys, Settled}
use lite_end_go.Upload.Handler.{Part, Draw}

abbrev pub service : Service
service = record {
  public_url = codes "https://s3.example/uploads";
  public = true;
  link_ttl = 3_600_000_000_000;
  signer = some (codes "eu");
}

abbrev pub signing : Signing
signing = record {
  region = none;
  client_builds = false;
  presign = λ region key ttl. some (codes "https://signed");
}

abbrev pub detect : Text → Text
detect head = codes "image/png"

abbrev pub png : Body
png = whole (137 ∷ 80 ∷ 78 ∷ 71 ∷ [])

abbrev pub png_file : SavedFile
png_file = record {
  filename = codes "cat.png";
  key = codes "d/cat.png";
  path = codes "https://s3.example/uploads/d/cat.png";
  bytes = 137 ∷ 80 ∷ 78 ∷ 71 ∷ [];
  original_filename = codes "mine.txt";
  extension = codes ".png";
  size = 4;
  mimetype = codes "image/png";
}

abbrev pub no_store : Store
no_store = record { uploads = record { rows = []; next_id = 1 }; objects = [] }

abbrev pub all_well : ℕ → Replies
all_well i = record { put = stored; insert = inserted; removed = true }

abbrev pub decimal : ℕ → Text
decimal n = n ∷ []

pub new_key : NewKeys [] (png_file ∷ [])
unfolding find_path
new_key = (refl, tt, tt)

pub all-Settled : (j : ℕ) → Settled (all_well j).insert
all-Settled j = tt

abbrev pub draws : ℕ → Draw
draws n = record { dir = codes "d"; uuid = codes "cat"; signing = signing; quota = counted 1 0 }

abbrev pub cat_part : Part
cat_part = record { filename = codes "mine.txt"; content_type = codes "image/gif"; body = png }

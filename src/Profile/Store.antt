-- ===== src/Profile/Store.antt =====
-- internal/db/sqlc/profile.sql.go: the `profiles` table and its four queries, as Postgres runs them
-- on the schema of db/migrations. Whether a query reaches the database is its caller's matter.
pub mod Laws
pub mod Updates
use lite_end_go.Base.{
  ℕ, suc, Bool, true, false, ◌&&◌, Option, none, some, List, [], ◌∷◌, ◌==◌, if◌then◌else◌, length,
}
use lite_end_go.Strings.{Text, codes, same, has_byte}

-- `sqlc.ProfileRole`.
pub data Role : Type 0 where
  admin user : Role

-- `sqlc.Profile`; a time is a number of clock ticks.
pub record Profile : Type 0 where
  pub id : ℕ
  pub created_at : ℕ
  pub updated_at : ℕ
  pub oidc_sub : Text
  pub roles : List Role
  pub avatar_url : Option Text
  pub display_name : Option Text
  pub bio : Option Text

-- The rows, newest first, and the sequence behind `id SERIAL`.
pub record Table : Type 0 where
  pub rows : List Profile
  pub next_id : ℕ

abbrev pub empty_table : Table
empty_table = record { rows = []; next_id = 1 }

-- `WHERE oidc_sub = $1`.
unfoldable pub find_sub : Text → List Profile → Option Profile
find_sub sub [] = none
find_sub sub (p ∷ ps) = if same p.oidc_sub sub then some p else find_sub sub ps

-- `WHERE id = $4`.
unfoldable pub find_id : ℕ → List Profile → Option Profile
find_id id [] = none
find_id id (p ∷ ps) = if p.id == id then some p else find_id id ps

-- `GetProfileByOIDCSub`; `none` is `pgx.ErrNoRows`.
unfoldable pub get_profile_by_oidc_sub : Table → Text → Option Profile
unfolding find_sub
get_profile_by_oidc_sub t sub = find_sub sub t.rows

-- The row of a first insert: the column defaults.
abbrev pub new_profile : ℕ → ℕ → Text → Profile
new_profile id now sub = record {
  id = id;
  created_at = now;
  updated_at = now;
  oidc_sub = sub;
  roles = user ∷ [];
  avatar_url = none;
  display_name = none;
  bio = none;
}

-- The trigger `set_updated_at` on the row of that subject.
unfoldable pub touch_sub : ℕ → Text → List Profile → List Profile
touch_sub now sub [] = []
touch_sub now sub (p ∷ ps) =
    if same p.oidc_sub sub then record p { updated_at = now } ∷ ps else p ∷ touch_sub now sub ps

-- `CreateProfile`, an upsert. A conflicting insert draws an id from the sequence too, before it
-- turns into the update that writes back the subject and fires the trigger.
unfoldable pub create_profile : ℕ → Table → Text → Table × Profile
unfolding find_sub touch_sub
create_profile now t sub = elim (find_sub sub t.rows) [
  | none ↦
      let p = new_profile t.next_id now sub in
      (record { rows = p ∷ t.rows; next_id = suc t.next_id }, p)
  | some p ↦ (
    record { rows = touch_sub now sub t.rows; next_id = suc t.next_id },
    record p { updated_at = now },
  )
]

-- The pattern `^[ \t\n\v\f\r]*$`.
abbrev pub blank_chars : Text
blank_chars = 32 ∷ 9 ∷ 10 ∷ 11 ∷ 12 ∷ 13 ∷ []

unfoldable pub is_blank : Text → Bool
unfolding has_byte
is_blank [] = true
is_blank (c ∷ s) = has_byte blank_chars c && is_blank s

-- One `CASE` of `UpdateProfile`: a field left out stays, a blank one is cleared.
unfoldable pub new_value : Option Text → Option Text → Option Text
unfolding is_blank
new_value none old = old
new_value (some text) old = if is_blank text then none else some text

-- `UpdateProfileParams`, without the id.
pub record Changes : Type 0 where
  pub avatar_url : Option Text
  pub display_name : Option Text
  pub bio : Option Text

unfoldable pub changed : ℕ → Changes → Profile → Profile
unfolding new_value
changed now c p = record p {
  avatar_url = new_value c.avatar_url p.avatar_url;
  display_name = new_value c.display_name p.display_name;
  bio = new_value c.bio p.bio;
  updated_at = now;
}

unfoldable pub set_id : ℕ → Profile → List Profile → List Profile
set_id id q [] = []
set_id id q (p ∷ ps) = if p.id == id then q ∷ ps else p ∷ set_id id q ps

-- `UpdateProfile`, with `RETURNING`.
unfoldable pub update_profile : ℕ → Table → ℕ → Changes → Option (Table × Profile)
unfolding find_id set_id changed
update_profile now t id c = elim (find_id id t.rows) [
  | none ↦ none
  | some p ↦ let q = changed now c p in some (record t { rows = set_id id q t.rows }, q)
]

-- `CountProfiles`.
unfoldable pub count_profiles : Table → ℕ
count_profiles t = length t.rows

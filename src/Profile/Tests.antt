-- ===== src/Profile/Tests.antt =====
-- Profiles at concrete inputs.
use lite_end_go.Base.{arith, ◌≡◌, refl, true, none, some, [], ◌∷◌, ok}
use lite_end_go.Strings.{Text, codes}
use lite_end_go.Samples.{sample_codec}
use lite_end_go.Profile.Store.{
  user, Profile, empty_table, Changes, find_sub, find_id, get_profile_by_oidc_sub, create_profile,
}
use lite_end_go.Profile.Service.{
  World, Faults, no_faults, from_cache, find_or_create_row, find_or_create_by_sub, find_by_sub,
}
use lite_end_go.Profile.Service.Coherence.{IsCoherent}
use lite_end_go.Profile.Service.Writes.{IsOwn}
use lite_end_go.Profile.Service.Refines.{find_or_insert, find_or_create_by_sub-refines}
use lite_end_go.Profile.Service.History.{
  fresh_world, finds_or_creates, finds, Reach, Reach-IsCoherent,
}

abbrev alice : Text
alice = codes "alice"

abbrev alice_row : Profile
alice_row = record {
  id = 1;
  created_at = 5;
  updated_at = 5;
  oidc_sub = alice;
  roles = user ∷ [];
  avatar_url = none;
  display_name = none;
  bio = none;
}

abbrev one_row : World
one_row = record { table = record { rows = alice_row ∷ []; next_id = 2 }; cache = λ key. none }

abbrev renames : Changes
renames = record { avatar_url = none; display_name = some (codes "Alice"); bio = none }

-- Redis refuses the delete of an update.
abbrev no_delete : Faults
no_delete = record no_faults { delete_fails = true }

fresh-IsCoherent : IsCoherent sample_codec fresh_world
fresh-IsCoherent = record { keyed = tt; fresh = λ sub raw p hit good. cc }

one_row-IsCoherent : IsCoherent sample_codec one_row
unfolding find_id find_sub
one_row-IsCoherent = record {
  keyed = (omega arith, refl, refl, tt);
  fresh = λ sub raw p hit good. cc;
}

alice_owns : IsOwn sample_codec one_row 1 alice
unfolding find_id
alice_owns p h = cc

creates_alice : (find_or_create_by_sub sample_codec fresh_world no_faults 5 alice).1 ≡ ok alice_row
unfolding find_or_create_by_sub from_cache find_or_create_row get_profile_by_oidc_sub create_profile
creates_alice = refl

Reach-IsCoherent_example :
    IsCoherent sample_codec
      (find_by_sub sample_codec
        (find_or_create_by_sub sample_codec fresh_world no_faults 5 alice).0
        no_delete
        alice).0
Reach-IsCoherent_example = Reach-IsCoherent sample_codec (
    Reach.next (Reach.next Reach.here (finds_or_creates no_faults 5 alice)) (finds no_delete alice))

find_or_create_by_sub-refines_example :
    ((find_or_create_by_sub sample_codec fresh_world no_faults 5 alice).0.table
      ≡ (find_or_insert 5 empty_table alice).0)
    × ((find_or_create_by_sub sample_codec fresh_world no_faults 5 alice).1
        ≡ ok (find_or_insert 5 empty_table alice).1)
find_or_create_by_sub-refines_example =
    find_or_create_by_sub-refines sample_codec fresh_world no_faults 5 alice fresh-IsCoherent refl
      refl

-- ===== src/Profile/Service/Refines.antt =====
-- Lookups of internal/profile/service.go, and what they are on the table alone.
use lite_end_go.Base.{
  ℕ, ◌≡◌, refl, ◌∙◌, inl, inr, false, Option, none, some, Option-cases, Result, ok, err,
}
use lite_end_go.Strings.{Text}
use lite_end_go.Profile.Store.{Profile, Table, find_sub, get_profile_by_oidc_sub, create_profile}
use lite_end_go.Profile.Service.{
  Codec, World, Faults, ServiceError, from_cache, create, cached, find_or_create_row, or_else,
  find_or_create_by_sub, find_row, find_by_sub, profile_not_found,
}
use lite_end_go.Profile.Service.Coherence.{IsCoherent, table-to_cache}
use lite_end_go.Profile.Service.Reads.{Read, from_cache-Read}

-- The contract of find-or-create, of the table alone.
abbrev pub find_or_insert : ℕ → Table → Text → Table × Profile
find_or_insert now t sub = elim (find_sub sub t.rows) [
  | none ↦ create_profile now t sub
  | some p ↦ (t, p)
]

-- The contract of a lookup.
abbrev pub look_up : Table → Text → Result ServiceError Profile
look_up t sub = elim (find_sub sub t.rows) [ none ↦ err profile_not_found | some p ↦ ok p ]

abbrev Answers : Table → Result ServiceError Profile → World × Result ServiceError Profile → Type 0
Answers t r x = (x.0.table ≡ t) × (x.1 ≡ r)

module _ (codec : Codec) where
  cached-Answers :
      (f : Faults) (t : Table) (r : Result ServiceError Profile)
      (x : World × Result ServiceError Profile)
      → Answers t r x
      → Answers t r (cached codec f x)
  cached-Answers f t r (w, err e) h = h
  cached-Answers f t r (w, ok p) (same_table, same_answer) =
      (table-to_cache codec w f p ∙ same_table, same_answer)

  created :
      (w : World) (f : Faults) (now : ℕ) (sub : Text)
      → f.insert_fails ≡ false
      → Answers
          (create_profile now w.table sub).0
          (ok (create_profile now w.table sub).1)
          (create w f now sub)
  unfolding create
  created w f now sub up = rw (up, create) (refl, refl)

  find_or_create_row-Answers :
      (w : World) (f : Faults) (now : ℕ) (sub : Text)
      → f.select_fails ≡ false
      → f.insert_fails ≡ false
      → Answers
          (find_or_insert now w.table sub).0
          (ok (find_or_insert now w.table sub).1)
          (find_or_create_row w f now sub)
  unfolding find_or_create_row get_profile_by_oidc_sub
  find_or_create_row-Answers w f now sub up up' = elim (Option-cases (find_sub sub w.table.rows)) [
    | inl absent ↦ rw (up, absent, find_or_create_row, find_or_insert) (created w f now sub up')
    | inr (p, there) ↦ rw (up, there, find_or_create_row, find_or_insert) (refl, refl)
  ]

  find_row-Answers :
      (w : World) (f : Faults) (sub : Text)
      → f.select_fails ≡ false
      → Answers w.table (look_up w.table sub) (find_row w f sub)
  unfolding find_row get_profile_by_oidc_sub
  find_row-Answers w f sub up = elim (Option-cases (find_sub sub w.table.rows)) [
    | inl absent ↦ rw (up, absent, find_row, look_up) (refl, refl)
    | inr (p, there) ↦ rw (up, there, find_row, look_up) (refl, refl)
  ]

  hit-find_or_insert :
      (now : ℕ) (w : World) (sub : Text) (p : Profile)
      → find_sub sub w.table.rows ≡ some p
      → Answers (find_or_insert now w.table sub).0 (ok (find_or_insert now w.table sub).1) (w, ok p)
  hit-find_or_insert now w sub p e = rw (e, find_or_insert) (refl, refl)

  hit-look_up :
      (w : World) (sub : Text) (p : Profile)
      → find_sub sub w.table.rows ≡ some p
      → Answers w.table (look_up w.table sub) (w, ok p)
  hit-look_up w sub p e = rw (e, look_up) (refl, refl)

  or_else-Answers :
      (w : World) (sub : Text) (x : World × Option Profile)
      (miss : World → World × Result ServiceError Profile)
      (spec : Table → Table × Result ServiceError Profile)
      → Read codec w sub x
      → ((p : Profile)
          → find_sub sub w.table.rows ≡ some p
          → Answers (spec w.table).0 (spec w.table).1 (w, ok p))
      → ((w' : World) → Answers (spec w'.table).0 (spec w'.table).1 (miss w'))
      → Answers (spec w.table).0 (spec w.table).1 (or_else x miss)
  or_else-Answers w sub (w', some p) miss spec (same_world, row) hit h = rw same_world (hit p row)
  or_else-Answers w sub (w', none) miss spec (v', same_table) hit h = rw (← same_table) (h w')

  -- Find-or-create gives the stored row of the subject, or inserts one, exactly as `find_or_insert` says.
  pub find_or_create_by_sub-refines :
      (w : World) (f : Faults) (now : ℕ) (sub : Text)
      → IsCoherent codec w
      → f.select_fails ≡ false
      → f.insert_fails ≡ false
      → ((find_or_create_by_sub codec w f now sub).0.table ≡ (find_or_insert now w.table sub).0)
        × ((find_or_create_by_sub codec w f now sub).1 ≡ ok (find_or_insert now w.table sub).1)
  unfolding find_or_create_by_sub
  find_or_create_by_sub-refines w f now sub v up up' =
      or_else-Answers w sub (from_cache codec w f sub) _
        (λ t. ((find_or_insert now t sub).0, ok (find_or_insert now t sub).1))
        (from_cache-Read codec w f sub v) (hit-find_or_insert now w sub)
        λ w'. cached-Answers f _ _ _ (find_or_create_row-Answers w' f now sub up up')

  -- A lookup changes no row and answers as `look_up` says.
  pub find_by_sub-refines :
      (w : World) (f : Faults) (sub : Text)
      → IsCoherent codec w
      → f.select_fails ≡ false
      → ((find_by_sub codec w f sub).0.table ≡ w.table)
        × ((find_by_sub codec w f sub).1 ≡ look_up w.table sub)
  unfolding find_by_sub
  find_by_sub-refines w f sub v up =
      or_else-Answers w sub (from_cache codec w f sub) _ (λ t. (t, look_up t sub))
        (from_cache-Read codec w f sub v) (hit-look_up w sub)
        λ w'. cached-Answers f _ _ _ (find_row-Answers w' f sub up)

-- ===== src/Profile/Service/Reads.antt =====
-- `FindOrCreateBySub`, `FindBySub` and `FindOrCreateMockUser` of internal/profile/service.go, and what they
-- serve.
use lite_end_go.Base.{
  ℕ, ◌≡◌, refl, sym, ◌∙◌, inl, inr, Option, none, some, Bool-cases, Option-cases, Result, ok, err,
}
use lite_end_go.Strings.{Text, same}
use lite_end_go.Strings.Laws.{same_iff}
use lite_end_go.Profile.Store.{Profile, find_sub, get_profile_by_oidc_sub}
use lite_end_go.Profile.Store.Laws.{
  find_sub-sub, create_profile-IsKeyed, find_sub-create_profile, find_sub-create_profile_ne,
}
use lite_end_go.Profile.Service.{
  Codec, World, Faults, ServiceError, cache_key, from_cache, create, cached, find_or_create_row,
  or_else, find_or_create_by_sub, find_row, find_by_sub, mock_sub, find_or_create_mock_user,
  as_mock,
}
use lite_end_go.Profile.Service.Coherence.{
  IsCoherent, Serves, delete-IsCoherent, to_cache-IsCoherent, table-delete, table-to_cache,
}

module _ (codec : Codec) where
  -- The cached profile is the row; a miss leaves a coherent world with the same table.
  abbrev pub Read : World → Text → World × Option Profile → Type 0
  Read w sub (w', some p) = (w' ≡ w) × (find_sub sub w.table.rows ≡ some p)
  Read w sub (w', none) = IsCoherent codec w' × (w'.table ≡ w.table)

  pub from_cache-Read :
      (w : World) (f : Faults) (sub : Text)
      → IsCoherent codec w
      → Read w sub (from_cache codec w f sub)
  unfolding from_cache
  from_cache-Read w f sub v = elim (Bool-cases f.get_fails) [
    | inl e ↦ rw (e, from_cache) (v, refl)
    | inr e ↦ elim (Option-cases (w.cache (cache_key sub))) [
      | inl miss ↦ rw (e, miss, from_cache) (v, refl)
      | inr (raw, hit) ↦ elim (Option-cases (codec.decode raw)) [
        | inl bad ↦
            rw (e, hit, bad, from_cache)
              (delete-IsCoherent codec w f sub v, table-delete codec w f (cache_key sub))
        | inr (p, good) ↦ rw (e, hit, good, from_cache) (refl, v.fresh sub raw p hit good)
      ]
    ]
  ]

  cached-Serves :
      (f : Faults) (sub : Text) (x : World × Result ServiceError Profile)
      → Serves codec sub x
      → Serves codec sub (cached codec f x)
  cached-Serves f sub (w, err e) h = h
  cached-Serves f sub (w, ok p) (v, row) =
      let own : find_sub p.oidc_sub w.table.rows ≡ some p =
        simp (find_sub-sub sub w.table.rows row) row in
      (to_cache-IsCoherent codec w f p v own, rw (table-to_cache codec w f p) row)

  -- A new row is nobody's but its subject's, of whom the cache held nothing.
  create-Serves :
      (w : World) (f : Faults) (now : ℕ) (sub : Text)
      → IsCoherent codec w
      → find_sub sub w.table.rows ≡ none
      → Serves codec sub (create w f now sub)
  unfolding create
  create-Serves w f now sub v absent = elim (Bool-cases f.insert_fails) [
    | inl e ↦ rw (e, create) (v, tt)
    | inr e ↦
        rw (e, create)
          (
            record {
              keyed = create_profile-IsKeyed now w.table sub v.keyed;
              fresh = λ other. elim (Bool-cases (same sub other)) [
                | inl this ↦ λ raw p hit good. absurd (
                    none_not_some (
                      sym absent
                      ∙ v.fresh sub raw p (rw (← (same_iff sub other).0 this) at hit) good))
                | inr ne ↦ λ raw p hit good.
                    find_sub-create_profile_ne now w.table sub other ne
                    ∙ v.fresh other raw p hit good
              ];
            },
            find_sub-create_profile now w.table sub,
          )
  ]
    where
      none_not_some : {p : Profile} → none ≡ some p → ⊥
      none_not_some h = cc

  find_or_create_row-Serves :
      (w : World) (f : Faults) (now : ℕ) (sub : Text)
      → IsCoherent codec w
      → Serves codec sub (find_or_create_row w f now sub)
  unfolding find_or_create_row get_profile_by_oidc_sub
  find_or_create_row-Serves w f now sub v = elim (Bool-cases f.select_fails) [
    | inl e ↦ rw (e, find_or_create_row) (v, tt)
    | inr e ↦ elim (Option-cases (find_sub sub w.table.rows)) [
      | inl absent ↦ rw (e, absent, find_or_create_row) (create-Serves w f now sub v absent)
      | inr (p, there) ↦ rw (e, there, find_or_create_row) (v, there)
    ]
  ]

  find_row-Serves :
      (w : World) (f : Faults) (sub : Text)
      → IsCoherent codec w
      → Serves codec sub (find_row w f sub)
  unfolding find_row get_profile_by_oidc_sub
  find_row-Serves w f sub v = elim (Bool-cases f.select_fails) [
    | inl e ↦ rw (e, find_row) (v, tt)
    | inr e ↦ elim (Option-cases (find_sub sub w.table.rows)) [
      | inl absent ↦ rw (e, absent, find_row) (v, tt)
      | inr (p, there) ↦ rw (e, there, find_row) (v, there)
    ]
  ]

  or_else-Serves :
      (w : World) (sub : Text) (x : World × Option Profile)
      (miss : World → World × Result ServiceError Profile)
      → IsCoherent codec w
      → Read w sub x
      → ((w' : World) → IsCoherent codec w' → Serves codec sub (miss w'))
      → Serves codec sub (or_else x miss)
  or_else-Serves w sub (w', some p) miss v (same_world, row) h = rw same_world (v, row)
  or_else-Serves w sub (w', none) miss v (v', _) h = h w' v'

  -- Whatever fails, the cache stays coherent, and a profile that is returned is the subject's row.
  pub find_or_create_by_sub-Serves :
      (w : World) (f : Faults) (now : ℕ) (sub : Text)
      → IsCoherent codec w
      → Serves codec sub (find_or_create_by_sub codec w f now sub)
  unfolding find_or_create_by_sub
  find_or_create_by_sub-Serves w f now sub v =
      or_else-Serves w sub (from_cache codec w f sub) _ v (from_cache-Read w f sub v)
        λ w' v'. cached-Serves f sub _ (find_or_create_row-Serves w' f now sub v')

  pub find_by_sub-Serves :
      (w : World) (f : Faults) (sub : Text)
      → IsCoherent codec w
      → Serves codec sub (find_by_sub codec w f sub)
  unfolding find_by_sub
  find_by_sub-Serves w f sub v =
      or_else-Serves w sub (from_cache codec w f sub) _ v (from_cache-Read w f sub v)
        λ w' v'. cached-Serves f sub _ (find_row-Serves w' f sub v')

  -- The mock user is created at most once, and never put into the cache as it is row_served.
  pub find_or_create_mock_user-IsCoherent :
      (w : World) (f : Faults) (now : ℕ)
      → IsCoherent codec w
      → IsCoherent codec (find_or_create_mock_user w f now).0
  unfolding find_or_create_mock_user get_profile_by_oidc_sub
  find_or_create_mock_user-IsCoherent w f now v = elim (Bool-cases f.select_fails) [
    | inl e ↦ rw (e, find_or_create_mock_user) v
    | inr e ↦ elim (Option-cases (find_sub mock_sub w.table.rows)) [
      | inl absent ↦
          rw (e, absent, find_or_create_mock_user)
            (row_served (create w f now mock_sub) (create-Serves w f now mock_sub v absent))
      | inr (p, there) ↦ rw (e, there, find_or_create_mock_user) v
    ]
  ]
    where
      row_served :
          (x : World × Result ServiceError Profile)
          → Serves codec mock_sub x
          → IsCoherent codec (as_mock x).0
      row_served (w', err e) h = h.0
      row_served (w', ok p) h = h.0

-- ===== src/Profile/Service/Writes.antt =====
-- `Update` of internal/profile/service.go and the cache.
use lite_end_go.Base.{
  ℕ, ◌≡◌, subst, sym, ◌∙◌, ap, ◌⊎◌, inl, inr, true, false, some, Bool-cases, Option-cases, ok,
}
use lite_end_go.Strings.{Text}
use lite_end_go.Profile.Store.{Profile, Table, Changes, find_sub, find_id, update_profile}
use lite_end_go.Profile.Store.Updates.{
  update_profile-IsKeyed, find_sub-update_profile, find_sub-update_profile_ne, update_profile-sub,
  update_profile-some,
}
use lite_end_go.Profile.Service.{
  Codec, World, Faults, delete, cache_key, to_cache, invalidate, update,
}
use lite_end_go.Profile.Service.Coherence.{
  Fresh, IsCoherent, Serves, FreshBut, delete-FreshBut, delete-Fresh, to_cache-FreshBut,
  to_cache-Fresh, to_cache-failed, Fresh-everywhere, table-delete, table-to_cache,
}

module _ (codec : Codec) where
  refreshed_self :
      (w : World) (f : Faults) (p : Profile)
      → find_sub p.oidc_sub w.table.rows ≡ some p
      → (f.delete_fails ≡ false) ⊎ (f.set_fails ≡ false)
      → Fresh codec (to_cache codec (delete w f (cache_key p.oidc_sub)) f p) p.oidc_sub
  refreshed_self w f p row one = elim (Bool-cases f.set_fails) [
    | inl down ↦
        rw (to_cache-failed codec (delete w f (cache_key p.oidc_sub)) f p down)
          (delete-Fresh codec w f p.oidc_sub (other_up down one))
    | inr up ↦ to_cache-Fresh codec (delete w f (cache_key p.oidc_sub)) f p up (
        ap (λ (t : Table). find_sub p.oidc_sub t.rows)
          (table-delete codec w f (cache_key p.oidc_sub))
        ∙ row)
  ]
    where
      other_up :
          f.set_fails ≡ true
          → (f.delete_fails ≡ false) ⊎ (f.set_fails ≡ false)
          → f.delete_fails ≡ false
      other_up down (inl e) = e
      other_up down (inr e) = cc

  -- The two cache calls of an update: a world that is right but for one subject is right about it too,
  -- if one of the calls gets through.
  refreshed :
      (w : World) (f : Faults) (p : Profile)
      → FreshBut codec w p.oidc_sub
      → find_sub p.oidc_sub w.table.rows ≡ some p
      → (f.delete_fails ≡ false) ⊎ (f.set_fails ≡ false)
      → (other : Text) → Fresh codec (to_cache codec (delete w f (cache_key p.oidc_sub)) f p) other
  refreshed w f p but row one other =
      Fresh-everywhere codec (to_cache codec (delete w f (cache_key p.oidc_sub)) f p) p.oidc_sub
        (to_cache-FreshBut codec (delete w f (cache_key p.oidc_sub)) f p
          (delete-FreshBut codec w f p.oidc_sub but))
        (refreshed_self w f p row one) other

  -- The profile of an update is the caller's own.
  abbrev pub IsOwn : World → ℕ → Text → Type 0
  IsOwn w id sub = (p : Profile) → find_id id w.table.rows ≡ some p → p.oidc_sub ≡ sub

  update_row-Serves :
      (w : World) (f : Faults) (now id : ℕ) (c : Changes) (t : Table) (q : Profile)
      → IsCoherent codec w
      → update_profile now w.table id c ≡ some (t, q)
      → (f.delete_fails ≡ false) ⊎ (f.set_fails ≡ false)
      → Serves codec q.oidc_sub
          (to_cache codec (delete (record w { table = t }) f (cache_key q.oidc_sub)) f q, ok q)
  update_row-Serves w f now id c t q v e one =
      let w1 : World = record w { table = t } in
      let row = find_sub-update_profile now w.table id c e v.keyed in
      let same_table : (to_cache codec (delete w1 f (cache_key q.oidc_sub)) f q).table ≡ t =
        table-to_cache codec _ f q ∙ table-delete codec w1 f (cache_key q.oidc_sub) in
      (
        record {
          keyed = rw same_table (update_profile-IsKeyed now w.table id c e v.keyed);
          fresh =
              refreshed w1 f q
                (λ other ne raw p hit good.
                  find_sub-update_profile_ne now w.table id c e v.keyed other ne
                  ∙ v.fresh other raw p hit good)
                row one;
        },
        rw same_table row,
      )

  -- An update of the caller's own profile keeps the cache coherent unless Redis refuses both the delete
  -- and the set, and a profile that it returns is the stored row.
  pub update-Serves :
      (w : World) (f : Faults) (now id : ℕ) (sub : Text) (c : Changes)
      → IsCoherent codec w
      → IsOwn w id sub
      → (f.delete_fails ≡ false) ⊎ (f.set_fails ≡ false)
      → Serves codec sub (update codec w f now id sub c)
  unfolding update invalidate
  update-Serves w f now id sub c v own one = elim (Bool-cases f.update_fails) [
    | inl e ↦ rw (e, update) (v, tt)
    | inr e ↦ elim (Option-cases (update_profile now w.table id c)) [
      | inl missing ↦ rw (e, missing, update) (v, tt)
      | inr ((t, q), done) ↦
          let (p, there, _, _) = update_profile-some now w.table id c done in
          let is_sub : q.oidc_sub ≡ sub =
            sym (update_profile-sub now w.table id c done v.keyed p there) ∙ own p there in
          rw (e, done, update)
            (subst
              (λ s.
                Serves codec s
                  (to_cache codec (delete (record w { table = t }) f (cache_key s)) f q, ok q))
              is_sub (update_row-Serves w f now id c t q v done one))
    ]
  ]

-- ===== src/Profile/Service/Coherence.antt =====
-- What it is for the cache of internal/profile/service.go to agree with the database.
use lite_end_go.Base.{
  ◌≡◌, refl, sym, ◌∙◌, inl, inr, true, false, Option, none, some, arith, Bool-cases, Result, ok,
  err,
}
use lite_end_go.Strings.{Text, same}
use lite_end_go.Strings.Laws.{same_iff, same_refl}
use lite_end_go.Profile.Store.{Profile, find_sub}
use lite_end_go.Profile.Store.Laws.{IsKeyed}
use lite_end_go.Profile.Service.{
  Codec, World, Faults, ServiceError, put, delete, cache_key, to_cache,
}

same-cache_key : (a b : Text) → same (cache_key a) (cache_key b) ≡ same a b
unfolding same cache_key
same-cache_key a b = refl

module _ (codec : Codec) where
  -- What the cache holds for a subject, if it decodes, is the subject's row.
  abbrev pub Fresh : World → Text → Type 0
  Fresh w sub =
      (raw : Text) (p : Profile)
      → w.cache (cache_key sub) ≡ some raw
      → codec.decode raw ≡ some p
      → find_sub sub w.table.rows ≡ some p

  pub record IsCoherent (w : World) : Type 0 where
    pub keyed : IsKeyed w.table
    pub fresh : (sub : Text) → Fresh w sub

  -- A profile that is returned is the subject's row.
  abbrev pub IsRow : World → Text → Result ServiceError Profile → Type 0
  IsRow w sub (ok p) = find_sub sub w.table.rows ≡ some p
  IsRow w sub (err e) = Unit

  abbrev pub Serves : Text → World × Result ServiceError Profile → Type 0
  Serves sub (w, r) = IsCoherent w × IsRow w sub r

  -- The cache is right about every other subject.
  abbrev pub FreshBut : World → Text → Type 0
  FreshBut w sub = (other : Text) → same sub other ≡ false → Fresh w other

  Fresh-of_none : (w : World) (sub : Text) → w.cache (cache_key sub) ≡ none → Fresh w sub
  Fresh-of_none w sub e raw p e' d = absurd (none_not_some (sym e ∙ e'))
    where
      none_not_some : {t : Text} → none ≡ some t → ⊥
      none_not_some h = cc

  put_other :
      (w : World) (sub other : Text) (v : Option Text)
      → same sub other ≡ false
      → Fresh w other
      → Fresh (record w { cache = put w.cache (cache_key sub) v }) other
  put_other w sub other v h f raw p e d = f raw p (rw (same-cache_key sub other, h) at e) d

  pub delete-FreshBut :
      (w : World) (f : Faults) (sub : Text)
      → FreshBut w sub
      → FreshBut (delete w f (cache_key sub)) sub
  unfolding delete
  delete-FreshBut w f sub h = elim (Bool-cases f.delete_fails) [
    | inl e ↦ rw e h
    | inr e ↦ rw e (λ other ne. put_other w sub other none ne (h other ne))
  ]

  pub delete-Fresh :
      (w : World) (f : Faults) (sub : Text)
      → f.delete_fails ≡ false
      → Fresh (delete w f (cache_key sub)) sub
  unfolding delete
  delete-Fresh w f sub e = rw e (
      Fresh-of_none (record w { cache = put w.cache (cache_key sub) none }) sub
        (rw (same_refl (cache_key sub))))

  pub to_cache-FreshBut :
      (w : World) (f : Faults) (p : Profile)
      → FreshBut w p.oidc_sub
      → FreshBut (to_cache codec w f p) p.oidc_sub
  unfolding to_cache
  to_cache-FreshBut w f p h = elim (Bool-cases f.set_fails) [
    | inl e ↦ rw e h
    | inr e ↦ rw e (λ other ne. put_other w p.oidc_sub other _ ne (h other ne))
  ]

  pub to_cache-Fresh :
      (w : World) (f : Faults) (p : Profile)
      → f.set_fails ≡ false
      → find_sub p.oidc_sub w.table.rows ≡ some p
      → Fresh (to_cache codec w f p) p.oidc_sub
  unfolding to_cache
  to_cache-Fresh w f p e row = rw e λ raw q e' d.
      ground (arith, row, same_refl (cache_key p.oidc_sub), codec.decode-encode p, d, e')

  pub Fresh-everywhere :
      (w : World) (sub : Text) → FreshBut w sub → Fresh w sub → (other : Text) → Fresh w other
  Fresh-everywhere w sub but this other = elim (Bool-cases (same sub other)) [
    | inl e ↦ rw ((same_iff sub other).0 e) at this
    | inr e ↦ but other e
  ]

  pub all_but : (w : World) (sub : Text) → IsCoherent w → FreshBut w sub
  all_but w sub v other _ = v.fresh other

  pub table-delete : (w : World) (f : Faults) (key : Text) → (delete w f key).table ≡ w.table
  unfolding delete
  table-delete w f key = ground arith

  pub table-to_cache :
      (w : World) (f : Faults) (p : Profile) → (to_cache codec w f p).table ≡ w.table
  unfolding to_cache
  table-to_cache w f p = ground arith

  pub delete-failed :
      (w : World) (f : Faults) (key : Text) → f.delete_fails ≡ true → delete w f key ≡ w
  unfolding delete
  delete-failed w f key e = rw e

  pub to_cache-failed :
      (w : World) (f : Faults) (p : Profile) → f.set_fails ≡ true → to_cache codec w f p ≡ w
  unfolding to_cache
  to_cache-failed w f p e = rw e

  -- Deleting an entry hurts no one.
  pub delete-IsCoherent :
      (w : World) (f : Faults) (sub : Text) → IsCoherent w → IsCoherent (delete w f (cache_key sub))
  delete-IsCoherent w f sub v = record {
    keyed = rw (table-delete w f (cache_key sub)) v.keyed;
    fresh = λ other. elim (Bool-cases f.delete_fails) [
      | inl e ↦ rw (delete-failed w f (cache_key sub) e) (v.fresh other)
      | inr e ↦
          Fresh-everywhere (delete w f (cache_key sub)) sub
            (delete-FreshBut w f sub (all_but w sub v)) (delete-Fresh w f sub e) other
    ];
  }

  pub to_cache-IsCoherent :
      (w : World) (f : Faults) (p : Profile)
      → IsCoherent w
      → find_sub p.oidc_sub w.table.rows ≡ some p
      → IsCoherent (to_cache codec w f p)
  to_cache-IsCoherent w f p v row = record {
    keyed = rw (table-to_cache w f p) v.keyed;
    fresh = λ other. elim (Bool-cases f.set_fails) [
      | inl e ↦ rw (to_cache-failed w f p e) (v.fresh other)
      | inr e ↦
          Fresh-everywhere (to_cache codec w f p) p.oidc_sub
            (to_cache-FreshBut w f p (all_but w p.oidc_sub v)) (to_cache-Fresh w f p e row) other
    ];
  }

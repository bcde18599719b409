-- ===== src/Graph/Operations/Laws.antt =====
-- The outcomes of updates.
use lite_end_go.Base.{
  ◌≡◌, refl, sym, ◌∙◌, ap, ◌⊎◌, inl, inr, Bool, true, false, not, Option, none, some, arith,
  if◌then◌else◌, Result, ok, err, ◌>>=◌, ◌>>◌, Result-cases,
}
use lite_end_go.Strings.{Text}
use lite_end_go.Profile.Store.{Profile, Changes, find_sub}
use lite_end_go.Profile.Service.{Codec, World, ServiceError, update}
use lite_end_go.Profile.Service.Coherence.{IsCoherent, Serves}
use lite_end_go.Profile.Service.Writes.{IsOwn, update-Serves}
use lite_end_go.Upload.Links.{Service}
use lite_end_go.Config.{Url}
use lite_end_go.Auth.Guards.{require}
use lite_end_go.Graph.Avatar.{
  GraphError, too_long, allow_if, avatar_allowed, validate_profile_update, avatar_link,
  stored_avatar, to_model_profile,
}
use lite_end_go.Graph.Operations.{Moment, guarded, Outcome, prepared, finished, mutate_profile}

bind-ok :
    {A B : Type 0} (r : Result GraphError A) (k : A → Result GraphError B) (b : B)
    → (r >>= k) ≡ ok b
    → (a : A) × (r ≡ ok a) × (k a ≡ ok b)
bind-ok (ok a) k b h = (a, refl, h)
bind-ok (err e) k b h = cc

allow_if-ok : (b : Bool) (message : Text) → allow_if b message ≡ ok tt → b ≡ true
allow_if-ok true message h = refl
allow_if-ok false message h = cc

allow_if-then :
    (b : Bool) (message : Text) (k : Result GraphError (Unit {0}))
    → (allow_if b message >> k) ≡ ok tt
    → (b ≡ true) × (k ≡ ok tt)
allow_if-then true message k h = (refl, h)
allow_if-then false message k h = cc

-- The input is within its limits.
pub record IsWithin (parse_url : Text → Option Url) (c : Changes) : Type 0 where
  pub name_fits : too_long 100 c.display_name ≡ false
  pub bio_fits : too_long 1000 c.bio ≡ false
  pub avatar_fits : too_long 2048 c.avatar_url ≡ false
  pub avatar_opens : avatar_allowed parse_url c.avatar_url ≡ true

validate_profile_update-IsWithin :
    (parse_url : Text → Option Url) (c : Changes)
    → validate_profile_update parse_url c ≡ ok tt
    → IsWithin parse_url c
unfolding validate_profile_update
validate_profile_update-IsWithin parse_url c h =
    let (a, h1) = allow_if-then _ _ _ h in
    let (b, h2) = allow_if-then _ _ _ h1 in
    let (d, h3) = allow_if-then _ _ _ h2 in
    record {
      name_fits = not_true _ a;
      bio_fits = not_true _ b;
      avatar_fits = not_true _ d;
      avatar_opens = allow_if-ok _ _ h3;
    }
  where
    not_true : (b : Bool) → not b ≡ true → b ≡ false
    not_true b x = ground arith

guarded-require :
    (user : Option Profile) (u : Profile) → guarded (require user) ≡ ok u → user ≡ some u
unfolding require
guarded-require none u h = cc
guarded-require (some v) u h = ground arith

-- The caller of an update is authenticated, its input within the limits, and its avatar as it may be stored.
record IsPrepared (parse_url : Text → Option Url) (files : Option Service) (m : Moment)
    (user : Option Profile) (c : Changes) (u : Profile) (avatar : Option Text) : Type 0 where
  caller : user ≡ some u
  within : IsWithin parse_url c
  storable : stored_avatar files m.uploads m.check_fails u.id c.avatar_url ≡ ok avatar

prepared-IsPrepared :
    (parse_url : Text → Option Url) (files : Option Service) (m : Moment) (user : Option Profile)
    (c : Changes) (u : Profile) (avatar : Option Text)
    → prepared parse_url files m user c ≡ ok (u, avatar)
    → IsPrepared parse_url files m user c u avatar
unfolding prepared
prepared-IsPrepared parse_url files m user c u avatar h =
    let (v, is_user, h1) = bind-ok _ _ _ h in
    let (nothing, valid, h2) = bind-ok _ _ _ h1 in
    let (a, stored, h3) = bind-ok _ _ _ h2 in
    let same_user : v ≡ u = (pair_inj h3).0 in
    record {
      caller = guarded-require user v is_user ∙ ap some same_user;
      within = validate_profile_update-IsWithin parse_url c valid;
      storable =
          ap (λ (p : Profile). stored_avatar files m.uploads m.check_fails p.id c.avatar_url)
            (sym same_user)
          ∙ stored
          ∙ ap ok (pair_inj h3).1;
    }
  where
    pair_inj :
        {v : Profile} {a : Option Text}
        → ◌≡◌ {A = Result GraphError (Profile × Option Text)} (ok (v, a)) (ok (u, avatar))
        → (v ≡ u) × (a ≡ avatar)
    pair_inj e = (cc, cc)

module _ (codec : Codec) (parse_url : Text → Option Url) where
  -- The caller is authenticated and the input within its limits; the cache stays coherent, and the caller's row
  -- is what is published, and what is answered but for its avatar, which is served from it.
  pub record IsUpdated (files : Option Service) (m : Moment) (user : Option Profile) (c : Changes)
      (x : Outcome) (answer : Profile) : Type 0 where
    pub u : Profile
    pub q : Profile
    pub caller : user ≡ some u
    pub within : IsWithin parse_url c
    pub coherent : IsCoherent codec x.world
    pub row : find_sub u.oidc_sub x.world.table.rows ≡ some q
    pub published : x.published ≡ (if m.has_pub_sub then some q else none)
    pub shown : answer ≡ record q {
      avatar_url = (avatar_link files m.signing m.uploads m.read_fails q.id q.avatar_url).1;
    }

  finished-IsUpdated :
      (files : Option Service) (m : Moment) (user : Option Profile) (c : Changes)
      (u answer : Profile) (x : World × Result ServiceError Profile)
      → user ≡ some u
      → IsWithin parse_url c
      → Serves codec u.oidc_sub x
      → (finished files m x).result ≡ ok answer
      → IsUpdated files m user c (finished files m x) answer
  unfolding to_model_profile
  finished-IsUpdated files m user c u answer (w, err e) is_user within served h = cc
  finished-IsUpdated files m user c u answer (w, ok q) is_user within (coherent, row) h = record {
    u = u;
    q = q;
    caller = is_user;
    within = within;
    coherent = coherent;
    row = row;
    published = refl;
    shown = sym (ok_inj h);
  }
    where
      ok_inj : {a b : Profile} → ◌≡◌ {A = Result GraphError Profile} (ok a) (ok b) → a ≡ b
      ok_inj e = cc

  -- An update that is answered, of an own row, with a coherent cache and one of its Redis calls through, is of an
  -- authenticated caller and within the limits; the caller's new row is published and answered.
  pub mutate_profile-IsUpdated :
      (w : World) (files : Option Service) (m : Moment) (user : Option Profile) (c : Changes)
      (answer : Profile)
      → IsCoherent codec w
      → ((u : Profile) → user ≡ some u → IsOwn codec w u.id u.oidc_sub)
      → (m.faults.delete_fails ≡ false) ⊎ (m.faults.set_fails ≡ false)
      → (mutate_profile codec parse_url w files m user c).result ≡ ok answer
      → IsUpdated files m user c (mutate_profile codec parse_url w files m user c) answer
  unfolding mutate_profile
  mutate_profile-IsUpdated w files m user c answer coherent own one h =
      elim (Result-cases (prepared parse_url files m user c)) [
        | inr (e, refused) ↦ absurd (err_not_ok (rw (refused, mutate_profile) at h))
        | inl ((u, avatar), passed) ↦
            let v = prepared-IsPrepared parse_url files m user c u avatar passed in
            rw (passed, mutate_profile)
              (finished-IsUpdated files m user c u answer
                (update codec w m.faults m.now u.id u.oidc_sub (record c { avatar_url = avatar }))
                v.caller v.within
                (update-Serves codec w m.faults m.now u.id u.oidc_sub
                  (record c { avatar_url = avatar }) coherent (own u v.caller) one)
                (rw (passed, mutate_profile) at h))
      ]
    where
      err_not_ok : {e : GraphError} → err e ≡ ok answer → ⊥
      err_not_ok x = cc

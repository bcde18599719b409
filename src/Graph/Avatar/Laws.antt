-- ===== src/Graph/Avatar/Laws.antt =====
-- Whose files an avatar can show.
use lite_end_go.Base.{
  ℕ, ◌≡◌, refl, sym, ◌∙◌, ap, ◌⊎◌, inl, inr, Bool, true, false, Option, none, some, [], arith,
  Option-cases, Result, ok, err,
}
use lite_end_go.Strings.{Text}
use lite_end_go.Upload.Table.{Uploads}
use lite_end_go.Upload.Links.{
  Service, Signing, LinkError, link_for, owned_by, key_from_link, permanent_link,
}
use lite_end_go.Upload.Links.Laws.{key_from_link-link, key_from_link-IsPlainKey}
use lite_end_go.Graph.Avatar.{GraphError, served, own_link, avatar_link, own_key, stored_avatar}

module _ (s : Service) (t : Uploads) (fails : Bool) (profile_id : ℕ) where
  -- The text names no file of ours, or is the permanent link of a file that the profile uploaded.
  abbrev pub IsOwnOrForeign : Text → Type 0
  IsOwnOrForeign link =
      (key_from_link s link ≡ none)
      ⊎ ((key : Text) × (link ≡ permanent_link s key)
          × (key_from_link s link ≡ some key)
          × (owned_by t fails key profile_id ≡ some true))

  own_key-ok :
      (key kept : Text) (o : Option Bool)
      → own_key s key o ≡ ok (some kept)
      → (o ≡ some true) × (kept ≡ permanent_link s key)
  own_key-ok key kept none h = cc
  own_key-ok key kept (some false) h = cc
  own_key-ok key kept (some true) h = (refl, cc)

  key_of_permanent :
      (link key : Text)
      → key_from_link s link ≡ some key
      → key_from_link s (permanent_link s key) ≡ some key
  key_of_permanent link key ours =
      (key_from_link-link s key [] (key_from_link-IsPlainKey s link key ours).0).0

  -- What is stored as an avatar is somebody else's URL, or the permanent link of a file that its profile
  -- uploaded, whatever form of the link the client sent.
  pub stored_avatar-IsOwnOrForeign :
      (link kept : Text)
      → stored_avatar (some s) t fails profile_id (some link) ≡ ok (some kept)
      → IsOwnOrForeign kept
  unfolding stored_avatar
  stored_avatar-IsOwnOrForeign link kept h = elim (Option-cases (key_from_link s link)) [
    | inl foreign ↦
        inl (ap (key_from_link s) (sym (ok_inj (rw (foreign, stored_avatar) at h))) ∙ foreign)
    | inr (key, ours) ↦
        let (owned, permanent) =
          own_key-ok key kept (owned_by t fails key profile_id) (rw (ours, stored_avatar) at h) in
        inr (key, permanent, ap (key_from_link s) permanent ∙ key_of_permanent link key ours, owned)
  ]
    where
      ok_inj :
          {u : Text}
          → ◌≡◌ {A = Result GraphError (Option Text)} (ok (some u)) (ok (some kept))
          → u ≡ kept
      ok_inj e = cc

  module _ (env : Signing) where
    -- What is served as an avatar is the stored text itself, which names no file of ours, or a link that was
    -- just made for a file that the profile uploaded.
    abbrev pub IsServed : Text → Text → Type 0
    IsServed stored link =
        ((key_from_link s stored ≡ none) × (link ≡ stored))
        ⊎ ((key : Text) × (key_from_link s stored ≡ some key)
            × (owned_by t fails key profile_id ≡ some true)
            × ((link_for s env key).1 ≡ ok link))

    served-ok :
        (x : Service × Result LinkError Text) (link : Text)
        → (served x).1 ≡ some link
        → x.1 ≡ ok link
    served-ok (s', err e) link h = cc
    served-ok (s', ok l) link h = ground arith

    own_link-ok :
        (key link : Text) (o : Option Bool)
        → (own_link s env key o).1 ≡ some link
        → (o ≡ some true) × ((link_for s env key).1 ≡ ok link)
    own_link-ok key link none h = cc
    own_link-ok key link (some false) h = cc
    own_link-ok key link (some true) h = (refl, served-ok (link_for s env key) link h)

    -- An avatar that is served is the stored URL of somebody else, or a link that was just made for a file that
    -- the profile uploaded.
    pub avatar_link-IsServed :
        (stored link : Text)
        → (avatar_link (some s) env t fails profile_id (some stored)).1 ≡ some link
        → IsServed stored link
    unfolding avatar_link
    avatar_link-IsServed stored link h = elim (Option-cases (key_from_link s stored)) [
      | inl foreign ↦ inl (foreign, sym (some_inj (rw (foreign, avatar_link) at h)))
      | inr (key, ours) ↦
          let (owned, made) =
            own_link-ok key link (owned_by t fails key profile_id) (rw (ours, avatar_link) at h) in
          inr (key, ours, owned, made)
    ]
      where
        some_inj : {u v : Text} → some u ≡ some v → u ≡ v
        some_inj e = cc

    -- A link of ours that a profile stores, in any form, is served as a fresh link to the same file.
    pub avatar_link-stored_avatar :
        (link key kept : Text)
        → key_from_link s link ≡ some key
        → stored_avatar (some s) t fails profile_id (some link) ≡ ok (some kept)
        → avatar_link (some s) env t fails profile_id (some kept) ≡ served (link_for s env key)
    unfolding avatar_link stored_avatar
    avatar_link-stored_avatar link key kept ours h =
        let (owned, permanent) =
          own_key-ok key kept (owned_by t fails key profile_id) (rw (ours, stored_avatar) at h) in
        rw (permanent, key_of_permanent link key ours, avatar_link, owned) refl

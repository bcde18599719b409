-- ===== src/Profile/Service/History.antt =====
-- Every history of requests, expiries and Redis failures.
use lite_end_go.Base.{ℕ, ◌≡◌, ◌⊎◌, inl, inr, Bool-cases, false, none, some}
use lite_end_go.Strings.{Text, same}
use lite_end_go.Profile.Store.{Changes, empty_table}
use lite_end_go.Profile.Service.{
  Codec, World, Faults, put, cache_key, find_or_create_by_sub, find_by_sub,
  find_or_create_mock_user, update,
}
use lite_end_go.Profile.Service.Coherence.{IsCoherent}
use lite_end_go.Profile.Service.Reads.{
  find_or_create_by_sub-Serves, find_by_sub-Serves, find_or_create_mock_user-IsCoherent,
}
use lite_end_go.Profile.Service.Writes.{IsOwn, update-Serves}

-- A process that has just started on an empty database and cache.
abbrev pub fresh_world : World
fresh_world = record { table = empty_table; cache = λ key. none }

none_not_some : {t : Text} → none ≡ some t → ⊥
none_not_some h = cc

module _ (codec : Codec) where
  -- One request, or one cache entry that reaches its TTL. An update is the caller's own, and at least
  -- one of its two calls to Redis gets through.
  pub data Step (w : World) : World → Type 0 where
    finds_or_creates :
        (f : Faults) (now : ℕ) (sub : Text) → Step w (find_or_create_by_sub codec w f now sub).0
    finds : (f : Faults) (sub : Text) → Step w (find_by_sub codec w f sub).0
    mocks : (f : Faults) (now : ℕ) → Step w (find_or_create_mock_user w f now).0
    updates :
        (f : Faults) (now id : ℕ) (sub : Text) (c : Changes)
        → IsOwn codec w id sub
        → (f.delete_fails ≡ false) ⊎ (f.set_fails ≡ false)
        → Step w (update codec w f now id sub c).0
    expires : (key : Text) → Step w (record w { cache = put w.cache key none })

  pub data Reach (w : World) : World → Type 0 where
    here : Reach w w
    next : {u v : World} → Reach w u → Step u v → Reach w v

  expire-IsCoherent :
      (w : World) (key : Text)
      → IsCoherent codec w
      → IsCoherent codec (record w { cache = put w.cache key none })
  expire-IsCoherent w key v = record {
    keyed = v.keyed;
    fresh = λ sub raw p hit good. elim (Bool-cases (same key (cache_key sub))) [
      | inl gone ↦ absurd (none_not_some (rw (gone) at hit))
      | inr kept ↦ v.fresh sub raw p (rw (kept) at hit) good
    ];
  }

  pub Step-IsCoherent : {w u : World} → Step w u → IsCoherent codec w → IsCoherent codec u
  Step-IsCoherent {w} (finds_or_creates f now sub) v =
      (find_or_create_by_sub-Serves codec w f now sub v).0
  Step-IsCoherent {w} (finds f sub) v = (find_by_sub-Serves codec w f sub v).0
  Step-IsCoherent {w} (mocks f now) v = find_or_create_mock_user-IsCoherent codec w f now v
  Step-IsCoherent {w} (updates f now id sub c own one) v =
      (update-Serves codec w f now id sub c v own one).0
  Step-IsCoherent {w} (expires key) v = expire-IsCoherent w key v

  Reach-IsCoherent_from : {w u : World} → IsCoherent codec w → Reach w u → IsCoherent codec u
  Reach-IsCoherent_from v here = v
  Reach-IsCoherent_from v (next r s) = Step-IsCoherent s (Reach-IsCoherent_from v r)

  -- From an empty start every history leaves subjects and ids unique, and a cache that never disagrees
  -- with the database.
  pub Reach-IsCoherent : {w : World} → Reach fresh_world w → IsCoherent codec w
  Reach-IsCoherent r =
      Reach-IsCoherent_from
        (record { keyed = tt; fresh = λ sub raw p hit good. absurd (none_not_some hit) }) r

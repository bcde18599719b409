-- ===== src/Graph/Subscriptions/Laws.antt =====
-- How many subscriptions one connection can hold.
use lite_end_go.Base.{
  ℕ, suc, ◌≤◌, ◌≡◌, refl, sym, ◌∙◌, ap, subst, inl, inr, Bool, true, false, Option, none, some,
  List, [], ◌∷◌, ◌++◌, arith, ltb, Bool-cases, ltb→lt, length, length-append, Result, ok, err,
}
use lite_end_go.Auth.Guards.{require}
use lite_end_go.Profile.Store.{Profile}
use lite_end_go.Graph.Avatar.{GraphError}
use lite_end_go.Graph.Subscriptions.{
  Slots, with_subscription_budget, acquire_subscription, release, profile_updated,
}

-- The life of a connection: the live subscriptions, each by the caller that opened it. A subscription that is
-- refused is not live, and any live one may end.
pub data Conn (n : ℕ) : Slots → List Profile → Type 0 where
  opened : Conn n (with_subscription_budget n) []
  subscribes :
      {s t : Slots} {live : List Profile} (u : Profile)
      → Conn n s live
      → profile_updated (some u) true (some s) ≡ (some t, ok tt)
      → Conn n t (u ∷ live)
  refuses :
      {s t : Slots} {live : List Profile} {e : GraphError} (user : Option Profile)
      (has_pub_sub : Bool)
      → Conn n s live
      → profile_updated user has_pub_sub (some s) ≡ (some t, err e)
      → Conn n t live
  ends :
      {s : Slots} (before : List Profile) (u : Profile) (after : List Profile)
      → Conn n s (before ++ u ∷ after)
      → Conn n (release s) (before ++ after)

-- The slots that are taken are the live subscriptions, within the capacity.
record Counts (n : ℕ) (s : Slots) (live : List Profile) : Type 0 where
  same_capacity : s.capacity ≡ n
  held : s.taken ≡ length live
  fits : s.taken ≤ n

-- What a subscription does to the slots: it takes one that is free, or leaves them alone.
abbrev Takes : Slots → Option Slots × Result GraphError (Unit {0}) → Type 0
Takes s (some t, ok r) = (t ≡ record s { taken = suc s.taken }) × (suc s.taken ≤ s.capacity)
Takes s (some t, err e) = t ≡ s
Takes s (none, r) = ⊥

acquire_subscription-Takes : (s : Slots) → Takes s (acquire_subscription (some s))
unfolding acquire_subscription
acquire_subscription-Takes s = elim (Bool-cases (ltb s.taken s.capacity)) [
  | inl e ↦ rw e (refl, ltb→lt _ _ e)
  | inr e ↦ rw e refl
]

profile_updated-Takes :
    (user : Option Profile) (has_pub_sub : Bool) (s : Slots)
    → Takes s (profile_updated user has_pub_sub (some s))
unfolding profile_updated require
profile_updated-Takes none has_pub_sub s = refl
profile_updated-Takes (some u) false s = refl
profile_updated-Takes (some u) true s = acquire_subscription-Takes s

Conn-Counts : (n : ℕ) {s : Slots} {live : List Profile} → Conn n s live → Counts n s live
unfolding with_subscription_budget release
Conn-Counts n opened = record { same_capacity = refl; held = refl; fits = omega arith }
Conn-Counts n (subscribes {s} {t} {live} u c e) =
    let v = Conn-Counts n c in
    let (same, room) = subst (Takes s) e (profile_updated-Takes (some u) true s) in
    record {
      same_capacity = ap (λ (x : Slots). x.capacity) same ∙ v.same_capacity;
      held = ap (λ (x : Slots). x.taken) same ∙ ap suc v.held;
      fits = omega (arith, ap (λ (x : Slots). x.taken) same, v.same_capacity);
    }
Conn-Counts n (refuses {s} {t} {live} user has_pub_sub c e) =
    subst (λ x. Counts n x live)
      (sym (subst (Takes s) e (profile_updated-Takes user has_pub_sub s))) (Conn-Counts n c)
Conn-Counts n (ends {s} before u after c) =
    let v = Conn-Counts n c in
    record {
      same_capacity = v.same_capacity;
      held = omega (arith, v.held, length-append before (u ∷ after), length-append before after);
      fits = omega (arith, v.fits);
    }

-- However callers subscribe and leave, a connection holds at most as many live subscriptions as its budget, and
-- its slots are taken exactly by them, so that one that ended makes room.
pub Conn-bounds :
    (n : ℕ) (s : Slots) (live : List Profile)
    → Conn n s live
    → (length live ≤ n) × (s.taken ≡ length live)
Conn-bounds n s live c = let v = Conn-Counts n c in (omega (arith, v.held, v.fits), v.held)

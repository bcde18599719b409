-- ===== src/Profile/PubSub/Table.antt =====
-- The well-formedness of the table of subscribers, kept by a subscription's start and end.
use lite_end_go.Base.{
  ℕ, suc, ◌≡◌, ◌≢◌, refl, ap, ◌∙◌, ◌<◌, inl, inr, Bool, true, false, not, ◌&&◌, ◌||◌, some, List,
  [], ◌∷◌, arith, ◌==◌, ==_iff, if◌then◌else◌, Bool-cases,
}
use lite_end_go.Profile.PubSub.{
  Channel, new_channel, PubSub, new_pub_sub, set_at, members, has_channel, subscribe_for_user,
  without, close, with_channel, kept, unsubscribe,
}
use lite_end_go.Profile.PubSub.Laws.{has_channel-without}

-- Whether the channel is registered for the profile.
abbrev pub listens : PubSub → ℕ → ℕ → Bool
listens ps id out = has_channel (members (ps.subs id)) out

-- Registered channels are open and of one profile each, no inner map is empty.
pub record Sound (ps : PubSub) : Type 0 where
  pub is_open : (id out : ℕ) → listens ps id out ≡ true → (ps.channels out).closed ≡ false
  pub is_made : (id out : ℕ) → listens ps id out ≡ true → out < ps.made
  pub is_single : (id jd out : ℕ) → listens ps id out ≡ true → listens ps jd out ≡ true → id ≡ jd
  pub no_empty : (id : ℕ) → ps.subs id ≢ some []

pub new_pub_sub-Sound : Sound new_pub_sub
unfolding has_channel
new_pub_sub-Sound = record {
  is_open = λ id out h. cc;
  is_made = λ id out h. cc;
  is_single = λ id jd out h k. cc;
  no_empty = λ id h. cc;
}

-- Who listens after a subscription.
subscribe-listens :
    (u : ℕ) (ps : PubSub) (id out : ℕ)
    → listens (subscribe_for_user u ps).0 id out
      ≡ ((u == id && ps.made == out) || listens ps id out)
unfolding subscribe_for_user has_channel
subscribe-listens u ps id out = elim (Bool-cases (u == id)) [
  | inl e ↦ let same : u ≡ id = (==_iff u id).0 e in rw (e, same) refl
  | inr e ↦ rw e refl
]

cons-ne-nil : {o : ℕ} {outs : List ℕ} → some (o ∷ outs) ≢ some []
cons-ne-nil h = cc

pub subscribe_for_user-Sound : (u : ℕ) (ps : PubSub) → Sound ps → Sound (subscribe_for_user u ps).0
unfolding subscribe_for_user
subscribe_for_user-Sound u ps s = record {
  is_open = λ id out h. opened id out (rw (subscribe-listens u ps id out) at h);
  is_made = λ id out h. made id out (rw (subscribe-listens u ps id out) at h);
  is_single = λ id jd out h k.
      single id jd out (rw (subscribe-listens u ps id out) at h)
        (rw (subscribe-listens u ps jd out) at k);
  no_empty = λ id. full id;
}
  where
    opened :
        (id out : ℕ)
        → ((u == id && ps.made == out) || listens ps id out) ≡ true
        → (set_at ps.made new_channel ps.channels out).closed ≡ false
    opened id out h = elim (Bool-cases (ps.made == out)) [
      | inl e ↦ rw e refl
      | inr e ↦ rw e (s.is_open id out (ground arith))
    ]

    made :
        (id out : ℕ) → ((u == id && ps.made == out) || listens ps id out) ≡ true → out < suc ps.made
    made id out h = ground (arith, s.is_made id out)

    single :
        (id jd out : ℕ)
        → ((u == id && ps.made == out) || listens ps id out) ≡ true
        → ((u == jd && ps.made == out) || listens ps jd out) ≡ true
        → id ≡ jd
    single id jd out h k = ground (arith, s.is_made id out, s.is_made jd out, s.is_single id jd out)

    full : (id : ℕ) → set_at u (some (ps.made ∷ members (ps.subs u))) ps.subs id ≢ some []
    full id h = elim (Bool-cases (u == id)) [
      | inl e ↦ cons-ne-nil (rw (e, if◌then◌else◌) at h)
      | inr e ↦ s.no_empty id (rw (e, if◌then◌else◌) at h)
    ]

-- What an end of a subscription leaves of the channels.
abbrev closed_at : ℕ → PubSub → ℕ → Channel
closed_at out ps = set_at out (record (ps.channels out) { closed = true }) ps.channels

abbrev pub ended : ℕ → ℕ → PubSub → PubSub
unfolding without
ended u out ps = record ps {
  subs = set_at u (kept (without out (members (ps.subs u)))) ps.subs;
  channels = closed_at out ps;
}

members-kept : (outs : List ℕ) → members (kept outs) ≡ outs
members-kept [] = refl
members-kept (o ∷ outs) = refl

kept-ne : (outs : List ℕ) → kept outs ≢ some []
kept-ne [] h = cc
kept-ne (o ∷ outs) h = cc

-- A registered channel is open, so its end does not panic.
pub unsubscribe-ended :
    (u out : ℕ) (ps : PubSub)
    → Sound ps
    → listens ps u out ≡ true
    → unsubscribe u out ps ≡ some (ended u out ps)
unfolding unsubscribe close ended
unsubscribe-ended u out ps s h =
    ap (with_channel _ out) (closes (ps.channels out) (s.is_open u out h))
  where
    closes : (c : Channel) → c.closed ≡ false → close c ≡ some (record c { closed = true })
    closes c e = rw e refl

pub ended-listens :
    (u out : ℕ) (ps : PubSub) (id j : ℕ)
    → listens (ended u out ps) id j ≡ (listens ps id j && not (u == id && out == j))
unfolding ended
ended-listens u out ps id j = elim (Bool-cases (u == id)) [
  | inl e ↦
      let same : u ≡ id = (==_iff u id).0 e in
      rw (e, if◌then◌else◌)
        (ap (λ l. has_channel l j) (members-kept (without out (members (ps.subs u))))
          ∙ has_channel-without out (members (ps.subs u)) j
          ∙ ap (λ k. listens ps k j && not (out == j)) same)
  | inr e ↦ rw (e, if◌then◌else◌) (plain (listens ps id j))
]
  where
    plain : (b : Bool) → b ≡ (b && true)
    plain true = refl
    plain false = refl

pub ended-Sound :
    (u out : ℕ) (ps : PubSub) → Sound ps → listens ps u out ≡ true → Sound (ended u out ps)
unfolding ended
ended-Sound u out ps s h = record {
  is_open = λ id j l. opened id j (rw (ended-listens u out ps id j) at l);
  is_made = λ id j l. s.is_made id j (still id j (rw (ended-listens u out ps id j) at l));
  is_single = λ id jd j l k.
      s.is_single id jd j (still id j (rw (ended-listens u out ps id j) at l))
        (still jd j (rw (ended-listens u out ps jd j) at k));
  no_empty = λ id. full id;
}
  where
    still :
        (id j : ℕ) → (listens ps id j && not (u == id && out == j)) ≡ true → listens ps id j ≡ true
    still id j l = ground arith

    opened :
        (id j : ℕ)
        → (listens ps id j && not (u == id && out == j)) ≡ true
        → (closed_at out ps j).closed ≡ false
    opened id j l = elim (Bool-cases (out == j)) [
      | inl e ↦
          let same : out ≡ j = (==_iff out j).0 e in
          let one : u ≡ id = s.is_single u id j (rw same at h) (still id j l) in
          ground (arith, ==_iff u id)
      | inr e ↦ rw e (s.is_open id j (still id j l))
    ]

    full : (id : ℕ) → set_at u (kept (without out (members (ps.subs u)))) ps.subs id ≢ some []
    full id k = elim (Bool-cases (u == id)) [
      | inl e ↦ kept-ne _ (rw (e, if◌then◌else◌) at k)
      | inr e ↦ s.no_empty id (rw (e, if◌then◌else◌) at k)
    ]

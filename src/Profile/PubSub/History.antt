-- ===== src/Profile/PubSub/History.antt =====
-- The steps of a process's subscriptions, and what holds of each event along them.
use lite_end_go.Base.{
  ℕ, ◌≡◌, ◌≢◌, refl, sym, ap, ◌∙◌, ◌<◌, inl, inr, Bool, true, false, Option, none, some, ◌==◌,
  ==_iff, ==_refl, if◌then◌else◌, Bool-cases, Option-cases, subst,
}
use lite_end_go.Strings.{Text, cut_prefix}
use lite_end_go.Numbers.{parse_int32, ℤ, pos, negsuc}
use lite_end_go.Profile.Store.{Profile}
use lite_end_go.Profile.Service.{Codec}
use lite_end_go.Profile.PubSub.{
  profile_channel, Channel, PubSub, new_pub_sub, set_at, members, subscribe_for_user, offered,
  unsubscribe, with_channels, deliver, emptied, receive, Message, for_profile, for_id, for_raw,
  dispatch, publish,
}
use lite_end_go.Profile.PubSub.Laws.{after_offer, offer_all-Offered, dispatch-publish}
use lite_end_go.Profile.PubSub.Table.{
  listens, Sound, new_pub_sub-Sound, subscribe_for_user-Sound, ended, ended-Sound,
  unsubscribe-ended,
}

-- The same table over other channels, which are closed where these are.
Sound-channels :
    (ps : PubSub) (after : ℕ → Channel)
    → Sound ps
    → ((j : ℕ) → (after j).closed ≡ (ps.channels j).closed)
    → Sound (record ps { channels = after })
Sound-channels ps after s same = record {
  is_open = λ id out h. same out ∙ s.is_open id out h;
  is_made = s.is_made;
  is_single = s.is_single;
  no_empty = s.no_empty;
}

-- The state after an event: its listeners were offered the profile, all else is as before.
abbrev pub Delivered : Profile → ℕ → PubSub → PubSub → Type 0
Delivered p id ps ps' =
    (ps'.subs ≡ ps.subs)
    × (ps'.made ≡ ps.made)
    × ((j : ℕ)
        → ps'.channels j
          ≡ (if listens ps id j then after_offer p (ps.channels j) else ps.channels j))

by_listening :
    (p : Profile) (b : Bool) (c : Channel) → (if b then after_offer p c else c).closed ≡ c.closed
by_listening p true c = refl
by_listening p false c = refl

pub deliver-Delivered :
    (p : Profile) (id : ℕ) (ps : PubSub)
    → Sound ps
    → (ps' : PubSub) × (deliver p id ps ≡ some ps') × Delivered p id ps ps' × Sound ps'
unfolding deliver
deliver-Delivered p id ps s =
    let (after, e, each) = offer_all-Offered p (members (ps.subs id)) ps.channels (s.is_open id) in
    (
      record ps { channels = after },
      ap (with_channels ps) e,
      (refl, refl, each),
      Sound-channels ps after s (λ j. ap (λ c. c.closed) (each j) ∙ by_listening p _ _),
    )

module _ (codec : Codec) where
  -- No message makes the dispatcher panic.
  dispatch-Sound :
      (m : Message) (ps : PubSub)
      → Sound ps
      → (ps' : PubSub) × (dispatch codec m ps ≡ some ps') × Sound ps'
  unfolding dispatch for_profile
  dispatch-Sound m ps s = raw (cut_prefix m.channel profile_channel)
    where
      decoded :
          (o : Option Profile) (id : ℕ)
          → (ps' : PubSub) × (for_profile codec o id ps ≡ some ps') × Sound ps'
      decoded none id = (ps, refl, s)
      decoded (some p) id = let (ps', e, d, t) = deliver-Delivered p id ps s in (ps', e, t)

      numbered :
          (o : Option ℤ) → (ps' : PubSub) × (for_id codec m.payload o ps ≡ some ps') × Sound ps'
      numbered none = (ps, refl, s)
      numbered (some (negsuc n)) = (ps, refl, s)
      numbered (some (pos id)) = decoded (codec.decode m.payload) id

      raw :
          (o : Option Text) → (ps' : PubSub) × (for_raw codec m.payload o ps ≡ some ps') × Sound ps'
      raw none = (ps, refl, s)
      raw (some t) = numbered (parse_int32 t)

  -- One step: a subscription starts, the context of a registered one ends, Redis sends any message,
  -- or a subscriber receives.
  pub data Step : PubSub → PubSub → Type 0 where
    started : {ps : PubSub} (u : ℕ) → Step ps (subscribe_for_user u ps).0
    stopped :
        {ps ps' : PubSub} (u out : ℕ)
        → listens ps u out ≡ true
        → unsubscribe u out ps ≡ some ps'
        → Step ps ps'
    sent : {ps ps' : PubSub} (m : Message) → dispatch codec m ps ≡ some ps' → Step ps ps'
    received :
        {ps ps' : PubSub} (out : ℕ) (p : Profile) → receive out ps ≡ some (p, ps') → Step ps ps'

  pub data Reach : PubSub → Type 0 where
    begun : Reach new_pub_sub
    next : {ps ps' : PubSub} → Reach ps → Step ps ps' → Reach ps'

abbrev emptied_at : ℕ → PubSub → PubSub
emptied_at out ps = record ps { channels = set_at out (emptied (ps.channels out)) ps.channels }

receive-buffer :
    (out : ℕ) (ps : PubSub) (p : Profile)
    → (ps.channels out).buffer ≡ some p
    → receive out ps ≡ some (p, emptied_at out ps)
unfolding receive
receive-buffer out ps p h = rw (receive, h) refl

receive-empty : (out : ℕ) (ps : PubSub) → (ps.channels out).buffer ≡ none → receive out ps ≡ none
unfolding receive
receive-empty out ps h = rw (receive, h) refl

some-snd : {x y : Profile × PubSub} → some x ≡ some y → x.1 ≡ y.1
some-snd h = ap (λ x. x.1) (some-inj h)
  where
    some-inj : {x y : Profile × PubSub} → some x ≡ some y → x ≡ y
    some-inj k = cc

some_inv : {a b : PubSub} → some a ≡ some b → a ≡ b
some_inv h = cc

emptied_at-Sound : (out : ℕ) (ps : PubSub) → Sound ps → Sound (emptied_at out ps)
emptied_at-Sound out ps s = Sound-channels ps _ s (λ j. same j)
  where
    same :
        (j : ℕ)
        → (set_at out (emptied (ps.channels out)) ps.channels j).closed ≡ (ps.channels j).closed
    same j = elim (Bool-cases (out == j)) [
      | inl e ↦ rw (e, if◌then◌else◌) (ap (λ k. (ps.channels k).closed) ((==_iff out j).0 e))
      | inr e ↦ rw e refl
    ]

receive-Sound :
    (out : ℕ) (ps : PubSub) {p : Profile} {ps' : PubSub}
    → Sound ps
    → receive out ps ≡ some (p, ps')
    → Sound ps'
receive-Sound out ps s h = elim (Option-cases (ps.channels out).buffer) [
  | inl e ↦ absurd (none-ne-some (sym (receive-empty out ps e) ∙ h))
  | inr (q, e) ↦
      subst Sound (some-snd (sym (receive-buffer out ps q e) ∙ h)) (emptied_at-Sound out ps s)
]
  where
    none-ne-some : {a : Profile × PubSub} → none ≢ some a
    none-ne-some k = cc

Step-Sound : (codec : Codec) {ps ps' : PubSub} → Sound ps → Step codec ps ps' → Sound ps'
Step-Sound codec s (started u) = subscribe_for_user-Sound u _ s
Step-Sound codec {ps} s (stopped u out h e) =
    subst Sound (some_inv (sym (unsubscribe-ended u out ps s h) ∙ e)) (ended-Sound u out ps s h)
Step-Sound codec {ps} s (sent m e) =
    let (after, e', t) = dispatch-Sound codec m ps s in subst Sound (some_inv (sym e' ∙ e)) t
Step-Sound codec {ps} s (received out p e) = receive-Sound out ps s e

pub Reach-Sound : (codec : Codec) {ps : PubSub} → Reach codec ps → Sound ps
Reach-Sound codec begun = new_pub_sub-Sound
Reach-Sound codec (next r step) = Step-Sound codec (Reach-Sound codec r) step

-- In any state that a process gets to by starts and ends of subscriptions, messages of any content
-- and receives, no message makes `dispatch` send on a closed channel, and the end of a subscription
-- that is registered closes an open one.
pub Reach-no_panic :
    (codec : Codec) {ps : PubSub}
    → Reach codec ps
    → ((m : Message) → (ps' : PubSub) × (dispatch codec m ps ≡ some ps'))
      × ((u out : ℕ) → listens ps u out ≡ true → (ps' : PubSub) × (unsubscribe u out ps ≡ some ps'))
Reach-no_panic codec {ps} r =
    let s = Reach-Sound codec r in
    (
      λ m. let (ps', e, t) = dispatch-Sound codec m ps s in (ps', e),
      λ u out h. (ended u out ps, unsubscribe-ended u out ps s h),
    )

-- In such a state, a published profile whose id is an int32 is offered to exactly the channels that
-- are registered for its id; other channels, and the registrations, stay as they are.
pub dispatch-Delivered :
    (codec : Codec) {ps : PubSub} (p : Profile)
    → Reach codec ps
    → p.id < 2_147_483_648
    → (ps' : PubSub) × (dispatch codec (publish codec p) ps ≡ some ps') × Delivered p p.id ps ps'
dispatch-Delivered codec {ps} p r h =
    let (ps', e, d, t) = deliver-Delivered p p.id ps (Reach-Sound codec r) in
    (ps', dispatch-publish codec p ps h ∙ e, d)

-- What a subscriber receives first after the event: what was waiting, else the event's profile.
abbrev pub first_received : Profile → Option Profile → Profile
first_received p none = p
first_received p (some q) = q

offered-first : (p : Profile) (b : Option Profile) → offered p b ≡ some (first_received p b)
offered-first p none = refl
offered-first p (some q) = refl

emptied_at-buffer : (out : ℕ) (ps : PubSub) → ((emptied_at out ps).channels out).buffer ≡ none
emptied_at-buffer out ps = rw (==_refl out) refl

-- In such a state, after a published profile is dispatched, a subscriber of it receives it, or the
-- earlier profile that was still waiting, and then nothing more: behind a full buffer the published
-- profile is lost.
pub receive-dispatch :
    (codec : Codec) {ps : PubSub} (p : Profile) (out : ℕ)
    → Reach codec ps
    → p.id < 2_147_483_648
    → listens ps p.id out ≡ true
    → (ps' : PubSub) × (ps'' : PubSub) × (dispatch codec (publish codec p) ps ≡ some ps')
      × (receive out ps' ≡ some (first_received p (ps.channels out).buffer, ps''))
      × (receive out ps'' ≡ none)
receive-dispatch codec {ps} p out r h l =
    let (ps', e, (same_subs, same_made, each)) = dispatch-Delivered codec p r h in
    let here : ps'.channels out ≡ after_offer p (ps.channels out) =
      each out ∙ ap (λ b. if b then after_offer p (ps.channels out) else ps.channels out) l in
    let waiting = ap (λ c. c.buffer) here ∙ offered-first p (ps.channels out).buffer in
    (
      ps',
      emptied_at out ps',
      e,
      receive-buffer out ps' _ waiting,
      receive-empty out (emptied_at out ps') (emptied_at-buffer out ps'),
    )

-- ===== src/Profile/PubSub/Laws.antt =====
-- What an event does to the channels of a process.
use lite_end_go.Base.{
  ℕ, ◌≡◌, refl, ap, ◌∙◌, ◌<◌, inl, inr, Bool, true, false, not, ◌&&◌, ◌||◌, Option, none, some,
  List, [], ◌∷◌, arith, ◌==◌, ==_iff, ==_refl, if◌then◌else◌, Bool-cases,
}
use lite_end_go.Strings.Laws.{cut_prefix-append}
use lite_end_go.Numbers.{format_int}
use lite_end_go.Numbers.Laws.{parse_int32-format_int}
use lite_end_go.Profile.Store.{Profile}
use lite_end_go.Profile.Service.{Codec}
use lite_end_go.Profile.PubSub.{
  profile_channel, channel_for, Channel, PubSub, set_at, has_channel, without, offered, offer,
  offer_all, deliver, publish, for_profile, for_id, for_raw, dispatch,
}

pub has_channel-without :
    (out : ℕ) (outs : List ℕ) (j : ℕ)
    → has_channel (without out outs) j ≡ (has_channel outs j && not (out == j))
unfolding has_channel without
has_channel-without out [] j = refl
has_channel-without out (o ∷ outs) j = ground (arith, has_channel-without out outs j)

-- Every listed channel is open.
abbrev pub AllOpen : List ℕ → (ℕ → Channel) → Type 0
AllOpen outs channels = (j : ℕ) → has_channel outs j ≡ true → (channels j).closed ≡ false

abbrev pub after_offer : Profile → Channel → Channel
after_offer p c = record c { buffer = offered p c.buffer }

pub offer-open : (p : Profile) (c : Channel) → c.closed ≡ false → offer p c ≡ some (after_offer p c)
unfolding offer
offer-open p c h = rw h

offered-twice : (p : Profile) (b : Option Profile) → offered p (offered p b) ≡ offered p b
offered-twice p none = refl
offered-twice p (some q) = refl

-- The channels after an event: exactly the listed ones were offered the profile.
abbrev pub Offered : Profile → List ℕ → (ℕ → Channel) → (ℕ → Channel) → Type 0
Offered p outs channels after =
    (j : ℕ) → after j ≡ (if has_channel outs j then after_offer p (channels j) else channels j)

set_at-closed :
    (p : Profile) (o j : ℕ) (channels : ℕ → Channel)
    → (set_at o (after_offer p (channels o)) channels j).closed ≡ (channels j).closed
set_at-closed p o j channels = elim (Bool-cases (o == j)) [
  | inl e ↦ rw (e, if◌then◌else◌) (ap (λ k. (channels k).closed) ((==_iff o j).0 e))
  | inr e ↦ rw e refl
]

offered-step :
    (p : Profile) (o j : ℕ) (b : Bool) (channels : ℕ → Channel)
    → (if b
        then after_offer p (set_at o (after_offer p (channels o)) channels j)
        else set_at o (after_offer p (channels o)) channels j)
      ≡ (if o == j || b then after_offer p (channels j) else channels j)
offered-step p o j b channels = elim (Bool-cases (o == j)) [
  | inl e ↦ let same : o ≡ j = (==_iff o j).0 e in rw (e, same) (twice b (channels j))
  | inr e ↦ rw e refl
]
  where
    twice :
        (b : Bool) (c : Channel)
        → (if b then after_offer p (after_offer p c) else after_offer p c) ≡ after_offer p c
    twice true c = ap (λ x. record c { buffer = x }) (offered-twice p c.buffer)
    twice false c = refl

offer_all-cons :
    (p : Profile) (o : ℕ) (outs : List ℕ) (channels : ℕ → Channel) {c : Channel}
    → offer p (channels o) ≡ some c
    → offer_all p (o ∷ outs) channels ≡ offer_all p outs (set_at o c channels)
unfolding offer_all
offer_all-cons p o outs channels h = rw (offer_all, h) refl

-- With open channels the loop does not panic, and whoever is not listed gets nothing.
pub offer_all-Offered :
    (p : Profile) (outs : List ℕ) (channels : ℕ → Channel)
    → AllOpen outs channels
    → (after : ℕ → Channel) × (offer_all p outs channels ≡ some after)
      × Offered p outs channels after
unfolding offer_all has_channel
offer_all-Offered p [] channels open_all = (channels, refl, λ j. refl)
offer_all-Offered p (o ∷ outs) channels open_all =
    let first = offer-open p (channels o) (open_all o (rw (==_refl o) refl)) in
    let (after, e, each) =
      offer_all-Offered p outs (set_at o (after_offer p (channels o)) channels)
        (λ j h. set_at-closed p o j channels ∙ open_all j (ground arith)) in
    (
      after,
      offer_all-cons p o outs channels first ∙ e,
      λ j. each j ∙ offered-step p o j (has_channel outs j) channels,
    )

-- What is published is handed to the listeners of its profile.
pub dispatch-publish :
    (codec : Codec) (p : Profile) (ps : PubSub)
    → p.id < 2_147_483_648
    → dispatch codec (publish codec p) ps ≡ deliver p p.id ps
unfolding dispatch publish channel_for deliver for_profile
dispatch-publish codec p ps h =
    ap (λ r. for_raw codec (codec.encode p) r ps)
      (cut_prefix-append profile_channel (format_int p.id))
    ∙ ap (λ r. for_id codec (codec.encode p) r ps) (parse_int32-format_int p.id h)
    ∙ ap (λ r. for_profile codec r p.id ps) (codec.decode-encode p)

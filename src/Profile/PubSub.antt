-- ===== src/Profile/PubSub.antt =====
-- internal/profile/pubsub.go: profile events over Redis, and the table of local subscribers that a
-- process hands them to. The lock of the table makes each operation one step. Redis carries a
-- message as it was published; `encoding/json` on a profile is the parameter `Codec`.
pub mod Laws
pub mod Table
pub mod History
mod Tests
use lite_end_go.Base.{
  ℕ, suc, ◌≡◌, Bool, true, false, not, ◌&&◌, ◌||◌, Option, none, some, List, [], ◌∷◌, ◌++◌, ◌==◌,
  if◌then◌else◌, length, is_empty,
}
use lite_end_go.Strings.{Text, codes, cut_prefix}
use lite_end_go.Numbers.{format_int, parse_int32, ℤ, pos, negsuc}
use lite_end_go.Profile.Store.{Profile}
use lite_end_go.Profile.Service.{Codec}

abbrev pub profile_channel : Text
profile_channel = codes "profile:updated:"

-- `channelFor`; the ids of the table are not negative.
unfoldable pub channel_for : ℕ → Text
channel_for user_id = profile_channel ++ format_int user_id

-- A Go channel of one profile: its buffer has one slot.
pub record Channel : Type 0 where
  pub buffer : Option Profile
  pub closed : Bool

abbrev pub new_channel : Channel
new_channel = record { buffer = none; closed = false }

-- `subs`, whose inner maps are lists of channels, and the channels made so far, by number.
pub record PubSub : Type 0 where
  pub subs : ℕ → Option (List ℕ)
  pub channels : ℕ → Channel
  pub made : ℕ

abbrev pub new_pub_sub : PubSub
new_pub_sub = record { subs = λ id. none; channels = λ out. new_channel; made = 0 }

abbrev pub set_at {ℓ} : {A : Type ℓ} → ℕ → A → (ℕ → A) → ℕ → A
set_at i a m j = if i == j then a else m j

-- A missing inner map reads as an empty one.
abbrev pub members : Option (List ℕ) → List ℕ
members none = []
members (some outs) = outs

unfoldable pub has_channel : List ℕ → ℕ → Bool
has_channel [] out = false
has_channel (o ∷ outs) out = o == out || has_channel outs out

-- `SubscribeForUser`, up to the goroutine that waits for the end of its context.
unfoldable pub subscribe_for_user : ℕ → PubSub → PubSub × ℕ
subscribe_for_user user_id ps = (
  record {
    subs = set_at user_id (some (ps.made ∷ members (ps.subs user_id))) ps.subs;
    channels = set_at ps.made new_channel ps.channels;
    made = suc ps.made;
  },
  ps.made,
)

-- `delete` on the inner map.
unfoldable pub without : ℕ → List ℕ → List ℕ
without out [] = []
without out (o ∷ outs) = let rest = without out outs in if o == out then rest else o ∷ rest

-- `close(out)`; `none` is the panic on a channel that is closed already.
unfoldable pub close : Channel → Option Channel
close c = if c.closed then none else some (record c { closed = true })

abbrev pub with_channel : PubSub → ℕ → Option Channel → Option PubSub
with_channel ps out none = none
with_channel ps out (some c) = some (record ps { channels = set_at out c ps.channels })

-- The inner map after the `delete`s: an empty one is dropped.
abbrev pub kept : List ℕ → Option (List ℕ)
kept [] = none
kept (o ∷ outs) = some (o ∷ outs)

-- The goroutine of a subscription, once its context has ended.
unfoldable pub unsubscribe : ℕ → ℕ → PubSub → Option PubSub
unfolding without close
unsubscribe user_id out ps =
    let left = kept (without out (members (ps.subs user_id))) in
    with_channel (record ps { subs = set_at user_id left ps.subs }) out (close (ps.channels out))

unfoldable pub listeners : ℕ → PubSub → ℕ
listeners user_id ps = length (members (ps.subs user_id))

abbrev pub offered : Profile → Option Profile → Option Profile
offered p none = some p
offered p (some q) = some q

-- `select { case out <- p: default: }`; `none` is the panic on a closed channel.
unfoldable pub offer : Profile → Channel → Option Channel
offer p c = if c.closed then none else some (record c { buffer = offered p c.buffer })

-- The loop of `dispatch` over the listeners.
unfoldable pub offer_all : Profile → List ℕ → (ℕ → Channel) → Option (ℕ → Channel)
unfolding offer
offer_all p [] channels = some channels
offer_all p (out ∷ outs) channels = elim (offer p (channels out)) [
  | none ↦ none
  | some c ↦ offer_all p outs (set_at out c channels)
]

abbrev pub with_channels : PubSub → Option (ℕ → Channel) → Option PubSub
with_channels ps none = none
with_channels ps (some channels) = some (record ps { channels = channels })

unfoldable pub deliver : Profile → ℕ → PubSub → Option PubSub
unfolding offer_all
deliver p id ps = with_channels ps (offer_all p (members (ps.subs id)) ps.channels)

abbrev pub emptied : Channel → Channel
emptied c = record c { buffer = none }

-- `<-out` by the subscriber: the profile, if there is one to receive.
unfoldable pub receive : ℕ → PubSub → Option (Profile × PubSub)
receive out ps = elim (ps.channels out).buffer [
  | none ↦ none
  | some p ↦
      let c = emptied (ps.channels out) in
      some (p, record ps { channels = set_at out c ps.channels })
]

-- A message of Redis: its channel and its payload.
pub record Message : Type 0 where
  pub channel : Text
  pub payload : Text

module _ (codec : Codec) where
  -- `Publish`; the JSON of a profile cannot fail.
  unfoldable pub publish : Profile → Message
  unfolding channel_for
  publish p = record { channel = channel_for p.id; payload = codec.encode p }

  abbrev pub for_profile : Option Profile → ℕ → PubSub → Option PubSub
  unfolding deliver
  for_profile none id ps = some ps
  for_profile (some p) id ps = deliver p id ps

  -- No listener has a negative id, whose inner map is missing.
  abbrev pub for_id : Text → Option ℤ → PubSub → Option PubSub
  for_id payload none ps = some ps
  for_id payload (some (negsuc n)) ps = some ps
  for_id payload (some (pos id)) ps = for_profile (codec.decode payload) id ps

  abbrev pub for_raw : Text → Option Text → PubSub → Option PubSub
  for_raw payload none ps = some ps
  for_raw payload (some raw) ps = for_id payload (parse_int32 raw) ps

  -- `dispatch`; `none` is a panic.
  unfoldable pub dispatch : Message → PubSub → Option PubSub
  dispatch m ps = for_raw m.payload (cut_prefix m.channel profile_channel) ps

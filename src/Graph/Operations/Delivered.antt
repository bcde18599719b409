-- ===== src/Graph/Operations/Delivered.antt =====
-- From an update of a profile to its subscribers: internal/graph/resolver and internal/profile/pubsub.go.
use lite_end_go.Base.{
  ◌<◌, ◌≡◌, ap, ◌∙◌, subst, ◌⊎◌, Bool, true, false, Option, none, some, if◌then◌else◌, ok,
}
use lite_end_go.Strings.{Text}
use lite_end_go.Config.{Url}
use lite_end_go.Profile.Store.{Profile, Changes, find_sub}
use lite_end_go.Profile.Service.{Codec, World}
use lite_end_go.Profile.Service.Coherence.{IsCoherent}
use lite_end_go.Profile.Service.Writes.{IsOwn}
use lite_end_go.Profile.PubSub.{PubSub, dispatch, publish}
use lite_end_go.Profile.PubSub.History.{Reach, Delivered, dispatch-Delivered}
use lite_end_go.Upload.Links.{Service}
use lite_end_go.Graph.Operations.{Moment, Outcome, mutate_profile}
use lite_end_go.Graph.Operations.Laws.{mutate_profile-IsUpdated}

-- What an update does to the subscriptions of a process: its event is published, and dispatched there if
-- Redis takes the message and hands it over, as the flag says. A failure of `Publish` is logged, and the update
-- is answered all the same.
unfoldable pub broadcast : Codec → (is_handed_over : Bool) → Option Profile → PubSub → Option PubSub
unfolding dispatch publish
broadcast codec is_handed_over none ps = some ps
broadcast codec false (some p) ps = some ps
broadcast codec true (some p) ps = dispatch codec (publish codec p) ps

-- The caller's row after the update is offered to exactly its subscribers at the process.
pub record IsBroadcast (codec : Codec) (user : Option Profile) (x : Outcome) (ps : PubSub)
    : Type 0 where
  pub u : Profile
  pub q : Profile
  pub caller : user ≡ some u
  pub row : find_sub u.oidc_sub x.world.table.rows ≡ some q
  pub after : PubSub
  pub sent : broadcast codec true x.published ps ≡ some after
  pub delivered : Delivered q q.id ps after

-- An answered update of an own row with an id below 2^31, with a coherent cache, one of its Redis calls through
-- and events switched on: at a process to which Redis hands its message, in any state of its subscriptions, the caller's
-- new row is offered to exactly the channels registered for its id; at any other process nothing changes.
pub mutate_profile-IsBroadcast :
    (codec : Codec) (parse_url : Text → Option Url) (w : World) (files : Option Service)
    (m : Moment) (user : Option Profile) (c : Changes) (answer : Profile) {ps : PubSub}
    → IsCoherent codec w
    → ((u : Profile) → user ≡ some u → IsOwn codec w u.id u.oidc_sub)
    → (m.faults.delete_fails ≡ false) ⊎ (m.faults.set_fails ≡ false)
    → m.has_pub_sub ≡ true
    → (mutate_profile codec parse_url w files m user c).result ≡ ok answer
    → Reach codec ps
    → answer.id < 2_147_483_648
    → IsBroadcast codec user (mutate_profile codec parse_url w files m user c) ps
      × (broadcast codec false (mutate_profile codec parse_url w files m user c).published ps
          ≡ some ps)
unfolding broadcast
mutate_profile-IsBroadcast codec parse_url w files m user c answer {ps} coherent own one events h
      reach small =
    let v = mutate_profile-IsUpdated codec parse_url w files m user c answer coherent own one h in
    let same_id : answer.id ≡ v.q.id = ap (λ (p : Profile). p.id) v.shown in
    let (after, e, d) =
      dispatch-Delivered codec v.q reach (subst (λ k. k < 2_147_483_648) same_id small) in
    let published = v.published ∙ ap (λ b. if b then some v.q else none) events in
    (
      record {
        u = v.u;
        q = v.q;
        caller = v.caller;
        row = v.row;
        after = after;
        sent = ap (λ p. broadcast codec true p ps) published ∙ e;
        delivered = d;
      },
      ap (λ p. broadcast codec false p ps) published,
    )

-- ===== src/Graph/Bridge.antt =====
-- The bridge of `ProfileUpdated` in internal/graph/resolver/schema.resolvers.go: a goroutine that takes the
-- events of its user's channel and hands them to the client's. Which profile an event is does not change when
-- its avatar is made a link, so both sides hold profiles.
pub mod Laws
mod Tests
use lite_end_go.Base.{ℕ, suc, ◌≡◌, Bool, true, false, Option, none, some, List, [], ◌∷◌, ◌++◌}
use lite_end_go.Profile.Store.{Profile}

-- Where the goroutine is: at the outer `select`, at the inner one with an event in hand, or gone.
pub data Phase : Type 0 where
  waiting : Phase
  holding : Profile → Phase
  ended : Phase

-- The channel of the profile's events with its one slot, the client's channel, whether the context is done,
-- how often the slot of the connection was released, the events accepted by the first channel and those
-- that the client has received.
pub record Bridge : Type 0 where
  pub src : Option Profile
  pub src_closed : Bool
  pub out : Option Profile
  pub out_closed : Bool
  pub done : Bool
  pub phase : Phase
  pub released : ℕ
  pub accepted : List Profile
  pub received : List Profile

abbrev pub new_bridge : Bridge
new_bridge = record {
  src = none;
  src_closed = false;
  out = none;
  out_closed = false;
  done = false;
  phase = waiting;
  released = 0;
  accepted = [];
  received = [];
}

-- The deferred calls: the channel of the client is closed and the slot released.
unfoldable pub end_bridge : Bridge → Bridge
end_bridge b = record b { phase = ended; out_closed = true; released = suc b.released }

-- The steps of the goroutine, and of the four around it: the dispatcher, the client, the end of the context,
-- and the goroutine of `SubscribeForUser`, which closes the channel of events some time after that end.
pub data Step : Bridge → Bridge → Type 0 where
  take :
      {b : Bridge} (p : Profile)
      → b.phase ≡ waiting
      → b.src ≡ some p
      → Step b (record b { phase = holding p; src = none })
  see_closed :
      {b : Bridge} → b.phase ≡ waiting → b.src ≡ none → b.src_closed ≡ true → Step b (end_bridge b)
  see_done : {b : Bridge} → b.phase ≡ waiting → b.done ≡ true → Step b (end_bridge b)
  forward :
      {b : Bridge} (p : Profile)
      → b.phase ≡ holding p
      → b.out ≡ none
      → Step b (record b { phase = waiting; out = some p })
  give_up : {b : Bridge} (p : Profile) → b.phase ≡ holding p → b.done ≡ true → Step b (end_bridge b)
  -- the event is taken, and making its avatar a link panics
  panic :
      {b : Bridge} (p : Profile)
      → b.phase ≡ waiting
      → b.src ≡ some p
      → Step b (end_bridge (record b { src = none }))
  dispatch :
      {b : Bridge} (p : Profile)
      → b.src ≡ none
      → b.src_closed ≡ false
      → Step b (record b { src = some p; accepted = b.accepted ++ p ∷ [] })
  receive :
      {b : Bridge} (p : Profile)
      → b.out ≡ some p
      → Step b (record b { out = none; received = b.received ++ p ∷ [] })
  cancel : {b : Bridge} → Step b (record b { done = true })
  close_src :
      {b : Bridge} → b.done ≡ true → b.src_closed ≡ false → Step b (record b { src_closed = true })

pub data Reach : Bridge → Type 0 where
  begun : Reach new_bridge
  next : {b c : Bridge} → Reach b → Step b c → Reach c

-- ===== src/Graph/Bridge/Laws.antt =====
-- What a client receives, and that the slot of a subscription is released once.
use lite_end_go.Base.{
  ℕ, suc, ◌≡◌, refl, ap, ◌∙◌, subst, Bool, true, false, Option, none, some, List, [], ◌∷◌, ◌++◌,
}
use mathlib.Core.List.{append_assoc, append-nil}
use lite_end_go.Profile.Store.{Profile}
use lite_end_go.Graph.Bridge.{
  Phase, waiting, holding, ended, Bridge, end_bridge, Step, take, see_closed, see_done, forward,
  give_up, panic, dispatch, receive, cancel, close_src, Reach, begun, next,
}

abbrev pub held : Phase → List Profile
held waiting = []
held (holding p) = p ∷ []
held ended = []

abbrev pub slot : Option Profile → List Profile
slot none = []
slot (some p) = p ∷ []

-- What is on its way, after what the client has received.
abbrev pub on_the_way : Bridge → List Profile
on_the_way b = slot b.out ++ held b.phase

-- The deferred calls have run exactly if the goroutine is gone.
abbrev pub IsReleased : Phase → Bool → ℕ → Type 0
IsReleased waiting closed n = (closed ≡ false) × (n ≡ 0)
IsReleased (holding p) closed n = (closed ≡ false) × (n ≡ 0)
IsReleased ended closed n = (closed ≡ true) × (n ≡ 1)

-- Nothing is lost before the end.
abbrev pub LostOnly : Phase → Option Profile → List Profile → Type 0
LostOnly waiting src lost = lost ≡ slot src
LostOnly (holding p) src lost = lost ≡ slot src
LostOnly ended src lost = Unit

pub record IsFed (b : Bridge) : Type 0 where
  pub lost : List Profile
  pub fed : b.accepted ≡ b.received ++ (on_the_way b ++ lost)
  pub lost_only : LostOnly b.phase b.src lost
  pub once : IsReleased b.phase b.out_closed b.released

-- The events in order: received, in the client's channel, in hand, and the rest.
abbrev way : List Profile → Option Profile → List Profile → List Profile → List Profile
way received out hand lost = received ++ ((slot out ++ hand) ++ lost)

way-take :
    (r : List Profile) (o : Option Profile) (p : Profile)
    → way r o [] (p ∷ []) ≡ way r o (p ∷ []) []
way-take r o p = ap (r ++◌) (simp (append_assoc, append-nil))

way-receive :
    (r hand lost : List Profile) (p : Profile)
    → way r (some p) hand lost ≡ way (r ++ p ∷ []) none hand lost
way-receive r hand lost p = simp (append_assoc)

way-dispatch :
    (r : List Profile) (o : Option Profile) (hand lost : List Profile) (p : Profile)
    → way r o hand lost ++ p ∷ [] ≡ way r o hand (lost ++ p ∷ [])
way-dispatch r o hand lost p = simp (append_assoc)

way-drop :
    (r : List Profile) (o : Option Profile) (hand lost : List Profile)
    → way r o hand lost ≡ way r o [] (hand ++ lost)
way-drop r o hand lost = ap (r ++◌) (simp (append_assoc, append-nil))

module _ (b : Bridge) (f : IsFed b) where
  open f use {lost, fed, lost_only, once}

  lost-at : (ph : Phase) → b.phase ≡ ph → LostOnly ph b.src lost
  lost-at ph e = subst (λ x. LostOnly x b.src lost) e lost_only

  once-at : (ph : Phase) → b.phase ≡ ph → IsReleased ph b.out_closed b.released
  once-at ph e = subst (λ x. IsReleased x b.out_closed b.released) e once

  fed-at : (ph : Phase) → b.phase ≡ ph → b.accepted ≡ way b.received b.out (held ph) lost
  fed-at ph e = fed ∙ ap (λ x. way b.received b.out (held x) lost) e

  fed-take :
      (p : Profile)
      → b.phase ≡ waiting
      → b.src ≡ some p
      → b.accepted ≡ way b.received b.out (p ∷ []) []
  fed-take p e s =
      fed-at waiting e
      ∙ ap (way b.received b.out []) (lost-at waiting e ∙ ap slot s)
      ∙ way-take b.received b.out p

  IsFed-take :
      (p : Profile)
      → b.phase ≡ waiting
      → b.src ≡ some p
      → IsFed (record b { phase = holding p; src = none })
  IsFed-take p e s = record {
    lost = [];
    fed = fed-take p e s;
    lost_only = refl;
    once = once-at waiting e;
  }

  IsFed-forward :
      (p : Profile)
      → b.phase ≡ holding p
      → b.out ≡ none
      → IsFed (record b { phase = waiting; out = some p })
  IsFed-forward p e o = record {
    lost = lost;
    fed = fed-at (holding p) e ∙ ap (λ x. way b.received x (p ∷ []) lost) o;
    lost_only = lost-at (holding p) e;
    once = once-at (holding p) e;
  }

  IsFed-receive :
      (p : Profile)
      → b.out ≡ some p
      → IsFed (record b { out = none; received = b.received ++ p ∷ [] })
  IsFed-receive p o = record {
    lost = lost;
    fed =
        fed
        ∙ ap (λ x. way b.received x (held b.phase) lost) o
        ∙ way-receive b.received (held b.phase) lost p;
    lost_only = lost_only;
    once = once;
  }

  -- The end of a goroutine that is not gone yet.
  IsFed-end :
      (ph : Phase)
      → b.phase ≡ ph
      → IsReleased waiting b.out_closed b.released
      → IsFed (end_bridge b)
  unfolding end_bridge
  IsFed-end ph e (closed, n) = record {
    lost = held b.phase ++ lost;
    fed = fed ∙ way-drop b.received b.out (held b.phase) lost;
    lost_only = tt;
    once = (refl, ap suc n);
  }

lost_more :
    (ph : Phase) (src : Option Profile) (lost : List Profile) (p : Profile)
    → src ≡ none
    → LostOnly ph src lost
    → LostOnly ph (some p) (lost ++ p ∷ [])
lost_more waiting src lost p e h = ap (λ l. l ++ p ∷ []) (h ∙ ap slot e)
lost_more (holding q) src lost p e h = ap (λ l. l ++ p ∷ []) (h ∙ ap slot e)
lost_more ended src lost p e h = tt

Step-IsFed : {b c : Bridge} → IsFed b → Step b c → IsFed c
unfolding end_bridge
Step-IsFed {b} f (take p e s) = IsFed-take b f p e s
Step-IsFed {b} f (see_closed e s c) = IsFed-end b f waiting e (once-at b f waiting e)
Step-IsFed {b} f (see_done e d) = IsFed-end b f waiting e (once-at b f waiting e)
Step-IsFed {b} f (forward p e o) = IsFed-forward b f p e o
Step-IsFed {b} f (give_up p e d) = IsFed-end b f (holding p) e (once-at b f (holding p) e)
Step-IsFed {b} f (panic p e s) =
    IsFed-end (record b { phase = holding p; src = none }) (IsFed-take b f p e s) (holding p) refl
      (once-at b f waiting e)
Step-IsFed {b} f (dispatch p s c) = record {
  lost = f.lost ++ p ∷ [];
  fed = ap (λ l. l ++ p ∷ []) f.fed ∙ way-dispatch b.received b.out (held b.phase) f.lost p;
  lost_only = lost_more b.phase b.src f.lost p s f.lost_only;
  once = f.once;
}
Step-IsFed {b} f (receive p o) = IsFed-receive b f p o
Step-IsFed {b} f cancel = record {
  lost = f.lost;
  fed = f.fed;
  lost_only = f.lost_only;
  once = f.once;
}
Step-IsFed {b} f (close_src d o) = record {
  lost = f.lost;
  fed = f.fed;
  lost_only = f.lost_only;
  once = f.once;
}

Reach-IsFed : {b : Bridge} → Reach b → IsFed b
Reach-IsFed begun = record { lost = []; fed = refl; lost_only = refl; once = (refl, refl) }
Reach-IsFed (next r step) = Step-IsFed (Reach-IsFed r) step

-- Until the goroutine is gone, all accepted events are received or on their way.
abbrev pub NoneLost : Phase → Bridge → Type 0
NoneLost ended b = Unit
NoneLost ph b = b.accepted ≡ b.received ++ (on_the_way b ++ slot b.src)

-- A goroutine that is not gone can go at once.
abbrev pub CanEnd : Phase → Bridge → Type 0
CanEnd ended b = Unit
CanEnd ph b = (c : Bridge) × Step b c × (c.phase ≡ ended)

NoneLost-at : (b : Bridge) (ph : Phase) → b.phase ≡ ph → IsFed b → NoneLost ph b
NoneLost-at b waiting e f =
    f.fed ∙ ap (λ l. b.received ++ (on_the_way b ++ l)) (lost-at b f waiting e)
NoneLost-at b (holding p) e f =
    f.fed ∙ ap (λ l. b.received ++ (on_the_way b ++ l)) (lost-at b f (holding p) e)
NoneLost-at b ended e f = tt

CanEnd-at : (b : Bridge) (ph : Phase) → b.phase ≡ ph → b.done ≡ true → CanEnd ph b
unfolding end_bridge
CanEnd-at b waiting e d = (end_bridge b, see_done e d, refl)
CanEnd-at b (holding p) e d = (end_bridge b, give_up p e d, refl)
CanEnd-at b ended e d = tt

-- In every interleaving of the goroutine, the dispatcher, the client, the end of the context and the later
-- closing of the channel of events: what the client has received is the first part of what was accepted for it, in order; nothing accepted is lost
-- while the goroutine runs; its channel is closed and the slot of its subscription released once, exactly
-- when it is gone; and once the context is done it can go at once, whether the client reads or not.
pub Reach-IsBridged :
    {b : Bridge}
    → Reach b
    → ((rest : List Profile) × (b.accepted ≡ b.received ++ rest))
      × NoneLost b.phase b
      × IsReleased b.phase b.out_closed b.released
      × (b.done ≡ true → CanEnd b.phase b)
Reach-IsBridged {b} r =
    let f = Reach-IsFed r in
    (
      (on_the_way b ++ f.lost, f.fed),
      NoneLost-at b b.phase refl f,
      f.once,
      λ d. CanEnd-at b b.phase refl d,
    )

-- ===== src/Profile/PubSub/Tests.antt =====
-- Profile events at concrete inputs.
use lite_end_go.Base.{arith, ◌≡◌, ℕ, refl, true, none, some, [], ◌∷◌}
use lite_end_go.Strings.{Text, codes}
use lite_end_go.Numbers.{format_int, parse_int32, negsuc}
use lite_end_go.Samples.{sample_codec}
use lite_end_go.Profile.Store.{user, Profile}
use lite_end_go.Profile.PubSub.{
  PubSub, new_pub_sub, subscribe_for_user, unsubscribe, receive, Message, dispatch, publish,
  has_channel, listeners,
}
use lite_end_go.Profile.PubSub.Table.{listens}
use lite_end_go.Profile.PubSub.History.{
  Reach, Step, Reach-no_panic, first_received, receive-dispatch,
}

abbrev named : Text → Profile
named name = record {
  id = 7;
  created_at = 1;
  updated_at = 2;
  oidc_sub = codes "alice";
  roles = user ∷ [];
  avatar_url = none;
  display_name = some name;
  bio = none;
}

-- Profile 7 has two subscribers, profile 9 has one.
abbrev three : PubSub
three = (subscribe_for_user 9 (subscribe_for_user 7 (subscribe_for_user 7 new_pub_sub).0).0).0

three-Reach : Reach sample_codec three
three-Reach =
    Reach.next (Reach.next (Reach.next Reach.begun (Step.started 7)) (Step.started 7))
      (Step.started 9)

listeners-three : listeners 7 three ≡ 2
unfolding listeners subscribe_for_user
listeners-three = refl

format_int_two : format_int 2_147_483_647 ≡ codes "2147483647"
unfolding format_int
format_int_two = refl

parse_int32_negative : parse_int32 (codes "-12") ≡ some (negsuc 11)
unfolding parse_int32
parse_int32_negative = refl

parse_int32_over : parse_int32 (codes "2147483648") ≡ none
unfolding parse_int32
parse_int32_over = refl

listens_second : listens three 7 1 ≡ true
unfolding subscribe_for_user has_channel
listens_second = refl

Reach-no_panic_example :
    ((m : Message) → (ps' : PubSub) × (dispatch sample_codec m three ≡ some ps'))
    × ((u out : ℕ)
        → listens three u out ≡ true
        → (ps' : PubSub) × (unsubscribe u out three ≡ some ps'))
Reach-no_panic_example = Reach-no_panic sample_codec three-Reach

receive-dispatch_example :
    (ps' : PubSub) × (ps'' : PubSub) × (dispatch sample_codec
        (publish sample_codec (named (codes "Al")))
        three
      ≡ some ps')
    × (receive 1 ps' ≡ some (first_received (named (codes "Al")) (three.channels 1).buffer, ps''))
    × (receive 1 ps'' ≡ none)
receive-dispatch_example =
    receive-dispatch sample_codec (named (codes "Al")) 1 three-Reach (omega arith) listens_second

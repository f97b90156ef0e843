-- ===== src/Sessions/Tests.antt =====
-- A room's goal over two turns and a late read, and the theorems about sessions on it.
use nova_voice.Base.{ℕ, ◌≡◌, ◌≤◌, ◌+◌, refl, String, true, false, none, some, [], ◌∷◌}
use nova_voice.Domain.{execute, ActiveGoal, in_progress}
use nova_voice.Sessions.Defs.{
  RoomSession, Manager, Turn, active_goal, update, failed_targets, has_expired, past_ceiling, keep,
  settle, started_at, resolved_goal,
}
use nova_voice.Sessions.Expiry.{Within}
use nova_voice.Sessions.Ceiling.{finish, step, here, more, ceiling_despite_turns}

abbrev same_key : String → String
same_key k = k

abbrev empty_manager : Manager
empty_manager = record { follow_up = 120000000; max_lifetime = some 300000000; rooms = λ _. none }

abbrev lights_goal : ActiveGoal
lights_goal = record { summary = "lights out"; status = in_progress; pending = [] }

abbrev turn_at : ℕ → Turn
turn_at t = record {
  room_id = "kitchen";
  ended_at = t;
  decision = execute;
  active_goal = lights_goal;
  results =
      record { action_id = "a1"; target = some "lamp"; ok = false }
      ∷ record { action_id = "a2"; target = none; ok = true }
      ∷ [];
  executed = true;
}

abbrev unfinished : ActiveGoal
unfinished = record { summary = "lights out"; status = in_progress; pending = "lamp" ∷ [] }

abbrev held_at : ℕ → RoomSession
held_at t = record { goal = unfinished; updated_at = t; started_at = 1000 }

abbrev one_turn : Manager
one_turn = (update same_key empty_manager (turn_at 1000)).1

abbrev two_turns : Manager
two_turns = step same_key (finish (turn_at 100000000)) one_turn

one_turn-holds : one_turn.rooms "kitchen" ≡ some (held_at 1000)
unfolding update settle keep started_at resolved_goal failed_targets
one_turn-holds = refl

two_turns-hold : two_turns.rooms "kitchen" ≡ some (held_at 100000000)
unfolding step update settle keep started_at resolved_goal failed_targets
two_turns-hold = refl

read_back : (active_goal same_key two_turns "kitchen" 200000000).0 ≡ some unfinished
unfolding step update settle keep started_at resolved_goal failed_targets active_goal has_expired
    past_ceiling
read_back = refl

too_late : (active_goal same_key two_turns "kitchen" 300001001).0 ≡ none
unfolding step update settle keep started_at resolved_goal failed_targets active_goal has_expired
    past_ceiling
too_late = refl

ceiling_despite_turns_example :
    Within two_turns.max_lifetime 1000 200000000
    × (200000000 ≤ 100000000 + two_turns.follow_up)
    × (unfinished ≡ unfinished)
ceiling_despite_turns_example =
    ceiling_despite_turns same_key one_turn (held_at 1000) two_turns (held_at 100000000) "kitchen"
      200000000 unfinished
      (more one_turn (held_at 1000) one_turn (held_at 1000) (finish (turn_at 100000000))
        (held_at 100000000) (here one_turn (held_at 1000) one_turn-holds) two_turns-hold)
      read_back

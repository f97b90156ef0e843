-- ===== src/Sessions/Defs.antt =====
-- `SessionManager` (src/nova_voice/sessions.py). The dictionary of rooms is a function from keys, the
-- collapsing of room names to keys is a parameter, and instants are in microseconds.
use nova_voice.Base.{
  ℕ, ◌+◌, String, Bool, true, false, not, ◌&&◌, ◌||◌, Option, none, some, List, [], ◌∷◌, max, ltb,
  if◌then◌else◌, ◌==◌,
}
use nova_voice.Domain.{
  Decision, execute, ignore, GoalStatus, in_progress, satisfied, abandoned, ActiveGoal, ToolResult,
}

-- `RoomSession`
pub record RoomSession : Type 0 where
  pub goal : ActiveGoal
  pub updated_at : ℕ
  pub started_at : ℕ

abbrev pub Rooms : Type 0
Rooms = String → Option RoomSession

abbrev pub put : Rooms → String → RoomSession → Rooms
put rooms key s = λ j. if key == j then some s else rooms j

abbrev pub pop : Rooms → String → Rooms
pop rooms key = λ j. if key == j then none else rooms j

pub record Manager : Type 0 where
  pub follow_up : ℕ
  pub max_lifetime : Option ℕ
  pub rooms : Rooms

-- 1 second
abbrev pub second : ℕ
second = 1000000

-- `set_follow_up_seconds`
unfoldable pub set_follow_up : Manager → ℕ → Manager
set_follow_up m span = record m { follow_up = max second span }

-- `set_max_seconds`
unfoldable pub set_max : Manager → Option ℕ → Manager
set_max m span = record m {
  max_lifetime = elim span [ none ↦ none | some s ↦ some (max second s) ];
}

-- What a turn brings to the sessions.
pub record Turn : Type 0 where
  pub room_id : String
  pub ended_at : ℕ
  pub decision : Decision
  pub active_goal : ActiveGoal
  pub results : List ToolResult
  pub executed : Bool

abbrev pub is_execute : Decision → Bool
is_execute execute = true
is_execute _ = false

abbrev pub is_ignore : Decision → Bool
is_ignore ignore = true
is_ignore _ = false

abbrev pub is_abandoned : GoalStatus → Bool
is_abandoned abandoned = true
is_abandoned _ = false

-- Too long ago for the ceiling.
unfoldable pub past_ceiling : Option ℕ → ℕ → ℕ → Bool
past_ceiling none started now = false
past_ceiling (some life) started now = ltb (started + life) now

unfoldable pub has_expired : Manager → RoomSession → ℕ → Bool
unfolding past_ceiling
has_expired m s now =
    ltb (s.updated_at + m.follow_up) now || past_ceiling m.max_lifetime s.started_at now

-- The targets, or else the names, of the actions that failed.
unfoldable pub failed_targets : List ToolResult → List String
failed_targets [] = []
failed_targets (r ∷ rest) =
    let others = failed_targets rest in
    if r.ok
    then others
    else (elim r.target [ none ↦ r.action_id | some t ↦ if t == "" then r.action_id else t ])
      ∷ others

-- The goal as the results leave it.
unfoldable pub resolved_goal : Turn → ActiveGoal
unfolding failed_targets
resolved_goal turn =
    if is_execute turn.decision
    then elim turn.results [
      | [] ↦ turn.active_goal
      | _ ∷ _ ↦ elim (failed_targets turn.results) [
        | [] ↦ record turn.active_goal { status = satisfied; pending = [] }
        | f ∷ fs ↦ record turn.active_goal { status = in_progress; pending = f ∷ fs }
      ]
    ]
    else turn.active_goal

module _ (key : String → String) where
  -- `active_goal`, at an instant
  unfoldable pub active_goal : Manager → String → ℕ → Option ActiveGoal × Manager
  unfolding has_expired
  active_goal m room now = elim (m.rooms (key room)) [
    | none ↦ (none, m)
    | some s ↦
        if has_expired m s now
        then (none, record m { rooms = pop m.rooms (key room) })
        else (some s.goal, m)
  ]

  -- `end`
  unfoldable pub end_room : Manager → String → Manager
  end_room m room = record m { rooms = pop m.rooms (key room) }

  -- `_started_at`, of a key
  unfoldable pub started_at : Manager → String → ℕ → ℕ
  started_at m k fallback = elim (m.rooms k) [ none ↦ fallback | some s ↦ s.started_at ]

  -- A goal kept open as of the end of a turn.
  unfoldable pub keep : Manager → Turn → ActiveGoal → Manager
  unfolding started_at
  keep m turn goal = record m {
    rooms = put m.rooms (key turn.room_id) (record {
      goal = goal;
      updated_at = turn.ended_at;
      started_at = started_at m (key turn.room_id) turn.ended_at;
    });
  }

  -- The last part of `update`, on the goal that the results left.
  unfoldable pub settle : Manager → Turn → ActiveGoal → GoalStatus → Option ActiveGoal × Manager
  unfolding end_room keep
  settle m turn goal satisfied = (none, end_room m turn.room_id)
  settle m turn goal abandoned = (none, end_room m turn.room_id)
  settle m turn goal _ = (some goal, keep m turn goal)

  -- `update`
  unfoldable pub update : Manager → Turn → Option ActiveGoal × Manager
  unfolding active_goal keep end_room settle
  update m turn =
      if not turn.executed && is_execute turn.decision
      then (let (existing, m') = active_goal m turn.room_id turn.ended_at in
          elim existing [ none ↦ (none, m') | some goal ↦ (some goal, keep m' turn goal) ])
      else if is_abandoned turn.active_goal.status
      then (none, end_room m turn.room_id)
      else if is_ignore turn.decision
      then active_goal m turn.room_id turn.ended_at
      else settle m turn (resolved_goal turn) (resolved_goal turn).status

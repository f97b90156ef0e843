-- ===== src/Sessions/Expiry.antt =====
-- What a room's stored goal is, how long it lasts, and which rooms a turn changes (`SessionManager` of
-- src/nova_voice/sessions.py).
use nova_voice.Base.{
  apart, ℕ, ◌+◌, ◌≤◌, ◌≡◌, ◌≢◌, ◌⊎◌, refl, if_both, inl, inr, Bool-cases, Option-cases, String, not,
  ◌&&◌, true, false, Option, none, some, arith, eq_refl, ◌==◌,
}
use nova_voice.Domain.{
  ActiveGoal, GoalStatus, new, in_progress, needs_clarification, satisfied, abandoned,
}
use nova_voice.Sessions.Defs.{
  RoomSession, Rooms, put, pop, Manager, Turn, is_execute, is_ignore, is_abandoned, past_ceiling,
  has_expired, resolved_goal, active_goal, end_room, keep, settle, update,
}

-- The ceiling is not passed yet.
abbrev pub Within : Option ℕ → ℕ → ℕ → Type 0
Within none started now = Unit
Within (some life) started now = now ≤ started + life

unfoldable pub goal_in : Option RoomSession → Option ActiveGoal
goal_in none = none
goal_in (some s) = some s.goal

put-same : (rooms : Rooms) (k : String) (s : RoomSession) → put rooms k s k ≡ some s
put-same rooms k s = rw (eq_refl k) refl

pop-same : (rooms : Rooms) (k : String) → pop rooms k k ≡ none
pop-same rooms k = rw (eq_refl k) refl

pub past_ceiling-Within :
    (life : Option ℕ) (started now : ℕ)
    → past_ceiling life started now ≡ false
    → Within life started now
unfolding past_ceiling
past_ceiling-Within none started now h = tt
past_ceiling-Within (some life) started now h = ground arith

-- What a read returns and what it leaves behind, in its three cases.
pub active_goal-cases :
    (key : String → String) (m : Manager) (room : String) (now : ℕ)
    → ((m.rooms (key room) ≡ none) × (active_goal key m room now ≡ (none, m)))
      ⊎ ((s : RoomSession) × (m.rooms (key room) ≡ some s)
          × (has_expired m s now ≡ true)
          × (active_goal key m room now ≡ (none, end_room key m room)))
      ⊎ ((s : RoomSession) × (m.rooms (key room) ≡ some s)
          × (has_expired m s now ≡ false)
          × (active_goal key m room now ≡ (some s.goal, m)))
unfolding active_goal end_room
active_goal-cases key m room now = elim (Option-cases (m.rooms (key room))) [
  | inl e ↦ inl (e, (rw (active_goal, e) refl))
  | inr (s, e) ↦ elim (Bool-cases (has_expired m s now)) [
    | inl h ↦ inr (inl (s, e, h, (rw (active_goal, e, h) refl)))
    | inr h ↦ inr (inr (s, e, h, (rw (active_goal, e, h) refl)))
  ]
]

-- The goal that is handed back is the one stored under a key.
abbrev pub Stored : String → Option ActiveGoal × Manager → Type 0
Stored k r = r.0 ≡ goal_in (r.1.rooms k)

-- Nothing but the given key has moved.
abbrev pub Elsewhere : Manager → String → Option ActiveGoal × Manager → Type 0
Elsewhere m j r = r.1.rooms j ≡ m.rooms j

module _ (key : String → String) (m : Manager) where
  end-Stored : (room : String) → Stored (key room) (none, end_room key m room)
  unfolding end_room goal_in
  end-Stored room = rw (eq_refl (key room)) refl

  keep-Stored :
      (turn : Turn) (g : ActiveGoal) → Stored (key turn.room_id) (some g, keep key m turn g)
  unfolding keep goal_in
  keep-Stored turn g = rw (eq_refl (key turn.room_id)) refl

  settle-Stored :
      (turn : Turn) (g : ActiveGoal) (s : GoalStatus)
      → Stored (key turn.room_id) (settle key m turn g s)
  unfolding settle
  settle-Stored turn g satisfied = end-Stored turn.room_id
  settle-Stored turn g abandoned = end-Stored turn.room_id
  settle-Stored turn g new = keep-Stored turn g
  settle-Stored turn g in_progress = keep-Stored turn g
  settle-Stored turn g needs_clarification = keep-Stored turn g

  active_goal-Stored : (room : String) (now : ℕ) → Stored (key room) (active_goal key m room now)
  unfolding goal_in
  active_goal-Stored room now = elim (active_goal-cases key m room now) [
    | inl (e, a) ↦ rw (a, e) refl
    | inr (inl (s, e, h, a)) ↦ rw a (end-Stored room)
    | inr (inr (s, e, h, a)) ↦ rw (a, e) refl
  ]

  -- The goal that a turn hands back is the one its room then holds, and there is none exactly when
  -- the room holds none.
  update-is_stored : (turn : Turn) → Stored (key turn.room_id) (update key m turn)
  unfolding update goal_in
  update-is_stored turn =
      let P = Stored (key turn.room_id) in
      if_both P (not turn.executed && is_execute turn.decision) _ _
        (elim (active_goal-cases key m turn.room_id turn.ended_at) [
          | inl (e, a) ↦ rw (a, a, e) refl
          | inr (inl (s, e, h, a)) ↦ rw (a, a) (end-Stored turn.room_id)
          | inr (inr (s, e, h, a)) ↦ rw (a, a) (keep-Stored turn s.goal)
        ])
        (if_both P (is_abandoned turn.active_goal.status) _ _ (end-Stored turn.room_id) (
          if_both P (is_ignore turn.decision) _ _ (active_goal-Stored turn.room_id turn.ended_at)
            (settle-Stored turn (resolved_goal turn) (resolved_goal turn).status)))

  settle-Elsewhere :
      (j : String) (turn : Turn) (g : ActiveGoal) (s : GoalStatus)
      → (key turn.room_id == j) ≡ false
      → Elsewhere m j (settle key m turn g s)
  unfolding settle keep end_room
  settle-Elsewhere j turn g satisfied h = rw h refl
  settle-Elsewhere j turn g abandoned h = rw h refl
  settle-Elsewhere j turn g new h = rw h refl
  settle-Elsewhere j turn g in_progress h = rw h refl
  settle-Elsewhere j turn g needs_clarification h = rw h refl

  active_goal-Elsewhere :
      (j room : String) (now : ℕ)
      → (key room == j) ≡ false
      → Elsewhere m j (active_goal key m room now)
  unfolding end_room
  active_goal-Elsewhere j room now d = elim (active_goal-cases key m room now) [
    | inl (e, a) ↦ rw a refl
    | inr (inl (s, e, h, a)) ↦ rw (a, d) refl
    | inr (inr (s, e, h, a)) ↦ rw a refl
  ]

  -- A turn changes nothing outside its own room.
  update-Elsewhere :
      (turn : Turn) (j : String) → j ≢ key turn.room_id → Elsewhere m j (update key m turn)
  unfolding update keep end_room
  update-Elsewhere turn j h =
      let P = Elsewhere m j in
      let d = apart (key turn.room_id) j h in
      if_both P (not turn.executed && is_execute turn.decision) _ _
        (elim (active_goal-cases key m turn.room_id turn.ended_at) [
          | inl (e, a) ↦ rw (a, a) refl
          | inr (inl (s, e, x, a)) ↦ rw (a, a, d) refl
          | inr (inr (s, e, x, a)) ↦ rw (a, a, d) refl
        ])
        (if_both P (is_abandoned turn.active_goal.status) _ _ (rw d refl) (
          if_both P (is_ignore turn.decision) _ _
            (active_goal-Elsewhere j turn.room_id turn.ended_at d)
            (settle-Elsewhere j turn (resolved_goal turn) (resolved_goal turn).status d)))

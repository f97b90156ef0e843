-- ===== src/Sessions/Ceiling.antt =====
-- How long one goal can stay in a room (`SessionManager` of src/nova_voice/sessions.py), whatever
-- turns keep it open.
use nova_voice.Base.{
  ℕ, ◌+◌, ◌≤◌, ◌≡◌, refl, ◌∙◌, inl, inr, if_both, Bool-cases, String, not, ◌&&◌, subst, false,
  Option, none, some, arith, eq_of_==, ◌==◌,
}
use nova_voice.Domain.{
  ActiveGoal, GoalStatus, new, in_progress, needs_clarification, satisfied, abandoned,
}
use nova_voice.Sessions.Defs.{
  RoomSession, Manager, Turn, is_execute, is_ignore, is_abandoned, past_ceiling, has_expired,
  resolved_goal, active_goal, end_room, started_at, keep, settle, update,
}
use nova_voice.Sessions.Expiry.{Within, past_ceiling-Within, active_goal-cases}

-- What happens to a session manager.
pub data Event : Type 0 where
  read : (room : String) (now : ℕ) → Event
  finish : (turn : Turn) → Event

unfoldable pub step : (String → String) → Event → Manager → Manager
unfolding active_goal update
step key (read room now) m = (active_goal key m room now).1
step key (finish turn) m = (update key m turn).1

-- A session, if there is one, began then.
abbrev pub Began : Option RoomSession → ℕ → Type 0
Began none t = Unit
Began (some s) t = s.started_at ≡ t

module _ (key : String → String) (m : Manager) (j : String) (s : RoomSession) where
  -- The key's session after an operation, if there is one, began when this one did.
  abbrev Keeps : Option ActiveGoal × Manager → Type 0
  Keeps r = Began (r.1.rooms j) s.started_at

  same-Keeps : m.rooms j ≡ some s → Began (m.rooms j) s.started_at
  same-Keeps e = rw e refl

  end-Keeps : (room : String) → m.rooms j ≡ some s → Keeps (none, end_room key m room)
  unfolding end_room
  end-Keeps room e =
      if_both (λ o. Began o s.started_at) (key room == j) none (m.rooms j) tt (same-Keeps e)

  keep-Keeps :
      (turn : Turn) (g : ActiveGoal) → m.rooms j ≡ some s → Keeps (some g, keep key m turn g)
  unfolding keep started_at
  keep-Keeps turn g e = elim (Bool-cases (key turn.room_id == j)) [
    | inl d ↦ rw (started_at, d, eq_of_== (key turn.room_id) j d, e) refl
    | inr d ↦ rw (d, e) refl
  ]

  active_goal-Keeps :
      (room : String) (now : ℕ) → m.rooms j ≡ some s → Keeps (active_goal key m room now)
  active_goal-Keeps room now e = elim (active_goal-cases key m room now) [
    | inl (_, a) ↦ rw (a, e) refl
    | inr (inl (_, _, _, a)) ↦ rw a (end-Keeps room e)
    | inr (inr (_, _, _, a)) ↦ rw (a, e) refl
  ]

  settle-Keeps :
      (turn : Turn) (g : ActiveGoal) (status : GoalStatus)
      → m.rooms j ≡ some s
      → Keeps (settle key m turn g status)
  unfolding settle
  settle-Keeps turn g satisfied e = end-Keeps turn.room_id e
  settle-Keeps turn g abandoned e = end-Keeps turn.room_id e
  settle-Keeps turn g new e = keep-Keeps turn g e
  settle-Keeps turn g in_progress e = keep-Keeps turn g e
  settle-Keeps turn g needs_clarification e = keep-Keeps turn g e

  update-Keeps : (turn : Turn) → m.rooms j ≡ some s → Keeps (update key m turn)
  unfolding update
  update-Keeps turn e =
      if_both Keeps (not turn.executed && is_execute turn.decision) _ _
        (elim (active_goal-cases key m turn.room_id turn.ended_at) [
          | inl (_, a) ↦ rw (a, a, e) refl
          | inr (inl (_, _, _, a)) ↦ rw (a, a) (end-Keeps turn.room_id e)
          | inr (inr (u, _, _, a)) ↦ rw (a, a) (keep-Keeps turn u.goal e)
        ])
        (if_both Keeps (is_abandoned turn.active_goal.status) _ _ (end-Keeps turn.room_id e) (
          if_both Keeps (is_ignore turn.decision) _ _
            (active_goal-Keeps turn.room_id turn.ended_at e)
            (settle-Keeps turn (resolved_goal turn) (resolved_goal turn).status e)))

  step-Keeps : (e : Event) → m.rooms j ≡ some s → Began ((step key e m).rooms j) s.started_at
  unfolding step
  step-Keeps (read room now) h = active_goal-Keeps room now h
  step-Keeps (finish turn) h = update-Keeps turn h

-- The managers that events lead to while a key keeps holding a session, with that session.
pub data Holding (key : String → String) (j : String)
    : Manager → RoomSession → Manager → RoomSession → Type 0 where
  here : (m : Manager) (s : RoomSession) → m.rooms j ≡ some s → Holding key j m s m s
  more :
      (m : Manager) (s : RoomSession) (m' : Manager) (s' : RoomSession) (e : Event)
      (next : RoomSession)
      → Holding key j m s m' s'
      → (step key e m').rooms j ≡ some next
      → Holding key j m s (step key e m') next

module _ (key : String → String) (j : String) where
  Holding-held :
      (m : Manager) (s : RoomSession) (m' : Manager) (s' : RoomSession)
      → Holding key j m s m' s'
      → m'.rooms j ≡ some s'
  Holding-held _ _ _ _ (here m s h) = h
  Holding-held _ _ _ _ (more m s m' s' e next w h) = h

  Holding-started :
      (m : Manager) (s : RoomSession) (m' : Manager) (s' : RoomSession)
      → Holding key j m s m' s'
      → s'.started_at ≡ s.started_at
  Holding-started _ _ _ _ (here m s h) = refl
  Holding-started _ _ _ _ (more m s m' s' e next w h) =
      let k = step-Keeps key m' j s' e (Holding-held m s m' s' w) in
      subst (λ o. Began o s'.started_at) h k ∙ Holding-started m s m' s' w

-- What a session that has not expired satisfies.
fresh-Within :
    (m : Manager) (s : RoomSession) (now : ℕ)
    → has_expired m s now ≡ false
    → Within m.max_lifetime s.started_at now × (now ≤ s.updated_at + m.follow_up)
unfolding has_expired
fresh-Within m s now h =
    let k : past_ceiling m.max_lifetime s.started_at now ≡ false = ground arith in
    (past_ceiling-Within m.max_lifetime s.started_at now k, ground arith)

-- While a room keeps a session, whatever turns and reads happen, a read hands a goal back only up to
-- the ceiling after the first of them began.
pub ceiling_despite_turns :
    (key : String → String) (m : Manager) (s : RoomSession) (m' : Manager) (s' : RoomSession)
    (room : String) (now : ℕ) (g : ActiveGoal)
    → Holding key (key room) m s m' s'
    → (active_goal key m' room now).0 ≡ some g
    → Within m'.max_lifetime s.started_at now × (now ≤ s'.updated_at + m'.follow_up) × (g ≡ s'.goal)
ceiling_despite_turns key m s m' s' room now g w h =
    let held = Holding-held key (key room) m s m' s' w in
    let began = Holding-started key (key room) m s m' s' w in
    elim (active_goal-cases key m' room now) [
      | inl (_, a) ↦ (let never : none ≡ some g = cc (a, h) in cc (never))
      | inr (inl (_, _, _, a)) ↦ (let never : none ≡ some g = cc (a, h) in cc (never))
      | inr (inr (u, e, f, a)) ↦
          let same : u ≡ s' = cc (e, held) in
          let (within, recent) =
            fresh-Within m' s' now (subst (λ x. has_expired m' x now ≡ false) same f) in
          (subst (λ x. Within m'.max_lifetime x now) began within, recent, cc (a, h, same))
    ]

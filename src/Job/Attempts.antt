-- ===== src/Job/Attempts.antt =====
-- The legal moves, and the history of attempts (src/nova_voice/companion/jobs.py: `TERMINAL`,
-- `TRANSITIONS`, `_moved`, `_end_attempt`, `current_attempt`, `owns`, `lease_expired`).
use nova_voice.Base.{
  ℕ, String, Bool, true, false, not, ◌&&◌, Option, none, some, List, [], ◌∷◌, leb, eqb, exists,
  if◌then◌else◌, ◌==◌,
}
use nova_voice.Job.Record.{
  State, queued, offered, running, waiting_tool, waiting_approval, falling_back, expired,
  AttemptOutcome, Attempt, JobRecord,
}

-- What an operation does: it hands back the very record it was given, a new one, or raises
-- `IllegalTransition` from one state to another.
pub data Outcome : Type 0 where
  kept : Outcome
  moved : JobRecord → Outcome
  illegal : State → State → Outcome

-- `TERMINAL`
unfoldable pub is_terminal : State → Bool
is_terminal State.completed = true
is_terminal State.failed = true
is_terminal State.cancelled = true
is_terminal State.expired = true
is_terminal _ = false

-- `TRANSITIONS`: the moves that are legal, by the state left and the state entered
unfoldable pub allows : State → State → Bool
allows queued offered = true
allows queued falling_back = true
allows queued State.cancelled = true
allows queued expired = true
allows offered State.accepted = true
allows offered falling_back = true
allows offered State.cancelled = true
allows offered expired = true
allows State.accepted running = true
allows State.accepted falling_back = true
allows State.accepted State.cancelled = true
allows State.accepted expired = true
allows running waiting_tool = true
allows running waiting_approval = true
allows running State.completed = true
allows running State.failed = true
allows running falling_back = true
allows running State.cancelled = true
allows running expired = true
allows waiting_tool running = true
allows waiting_tool State.failed = true
allows waiting_tool falling_back = true
allows waiting_tool State.cancelled = true
allows waiting_tool expired = true
allows waiting_approval running = true
allows waiting_approval State.failed = true
allows waiting_approval State.cancelled = true
allows waiting_approval expired = true
allows falling_back State.completed = true
allows falling_back State.failed = true
allows falling_back State.cancelled = true
allows _ _ = false

-- The place of a state in the enumeration, by which two states are compared.
unfoldable pub position : State → ℕ
position queued = 0
position offered = 1
position State.accepted = 2
position running = 3
position waiting_tool = 4
position waiting_approval = 5
position falling_back = 6
position State.completed = 7
position State.failed = 8
position State.cancelled = 9
position expired = 10

unfoldable pub same_state : State → State → Bool
unfolding position
same_state a b = eqb (position a) (position b)

-- `_moved`; `changed` is the record with the keyword changes made
unfoldable pub move_to : JobRecord → State → JobRecord → ℕ → Outcome
unfolding same_state allows
move_to r target changed now =
    if same_state r.status target
    then kept
    else if not (allows r.status target)
    then illegal r.status target
    else moved (record changed { status = target; updated_at = now })

unfoldable pub is_open : Attempt → Bool
is_open a = elim a.ended_at [ none ↦ true | some _ ↦ false ]

-- `_end_attempt`: closes the named attempt in the history
unfoldable pub end_attempt :
    List Attempt → String → AttemptOutcome → Option String → ℕ → List Attempt
unfolding is_open
end_attempt [] name outcome detail now = []
end_attempt (a ∷ rest) name outcome detail now =
    (if a.attempt_id == name && is_open a
      then record a { ended_at = some now; outcome = some outcome; detail = detail }
      else a)
    ∷ end_attempt rest name outcome detail now

-- The last attempt that has not ended: the first that a scan from the end meets.
unfoldable pub last_open : List Attempt → Option Attempt
unfolding is_open
last_open [] = none
last_open (a ∷ rest) = elim (last_open rest) [
  | some b ↦ some b
  | none ↦ if is_open a then some a else none
]

unfoldable pub current_attempt : JobRecord → Option Attempt
unfolding last_open
current_attempt r = last_open r.attempts

unfoldable pub holds : Option Attempt → String → Bool
holds none name = false
holds (some a) name = a.attempt_id == name

unfoldable pub owns : JobRecord → String → Bool
unfolding current_attempt holds
owns r name = holds (current_attempt r) name

unfoldable pub lease_expired : JobRecord → ℕ → Bool
lease_expired r now = elim r.lease_expires_at [ none ↦ false | some until ↦ leb until now ]

-- `if attempt_id`: an empty text counts as none.
unfoldable pub present : Option String → Option String
present none = none
present (some s) = if s == "" then none else some s

-- The history with an attempt closed, if one is named.
unfoldable pub end_if_given :
    List Attempt → Option String → AttemptOutcome → Option String → ℕ → List Attempt
unfolding end_attempt
end_if_given attempts none outcome detail now = attempts
end_if_given attempts (some name) outcome detail now = end_attempt attempts name outcome detail now

-- The history with the attempt that is current closed, if there is one.
unfoldable pub end_current : JobRecord → AttemptOutcome → Option String → ℕ → List Attempt
unfolding current_attempt end_attempt
end_current r outcome detail now = elim (current_attempt r) [
  | none ↦ r.attempts
  | some a ↦ end_attempt r.attempts a.attempt_id outcome detail now
]

unfoldable pub has_attempt : List Attempt → String → Bool
has_attempt attempts name = exists (λ a. a.attempt_id == name) attempts

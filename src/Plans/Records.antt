-- ===== src/Plans/Records.antt =====
-- The records of a plan (src/nova_voice/durable/models.py) with their states, as far as the store and
-- the runner read them. Instants are in microseconds; a step's input is one text.
use nova_voice.Base.{ℕ, String, Bool, true, false, Option, List, eqb}

-- `PlanStepKind`
pub data Kind : Type 0 where
  tool question approval wait timer event verification retry compensation : Kind

unfoldable pub kind_rank : Kind → ℕ
kind_rank tool = 0
kind_rank question = 1
kind_rank approval = 2
kind_rank wait = 3
kind_rank timer = 4
kind_rank event = 5
kind_rank verification = 6
kind_rank retry = 7
kind_rank compensation = 8

abbrev pub same_kind : Kind → Kind → Bool
same_kind a b = eqb (kind_rank a) (kind_rank b)

-- `PlanStepState`
pub data StepState : Type 0 where
  pending leased running waiting satisfied paused blocked cancelled expired failed : StepState
  compensated : StepState

unfoldable pub step_rank : StepState → ℕ
step_rank pending = 0
step_rank leased = 1
step_rank running = 2
step_rank waiting = 3
step_rank satisfied = 4
step_rank paused = 5
step_rank blocked = 6
step_rank cancelled = 7
step_rank expired = 8
step_rank failed = 9
step_rank compensated = 10

abbrev pub same_step_state : StepState → StepState → Bool
same_step_state a b = eqb (step_rank a) (step_rank b)

-- `ExecutionState`
pub data ExecutionState : Type 0 where
  leased running succeeded failed cancelled expired : ExecutionState

-- `PlanState` and `GoalState`, which have the same values
pub data PlanState : Type 0 where
  planned active satisfied paused blocked cancelled expired failed : PlanState

-- `PlanStepRecord`
pub record Step : Type 0 where
  pub id : String
  pub created_at : ℕ
  pub updated_at : ℕ
  pub plan_id : String
  pub kind : Kind
  pub status : StepState
  pub order : ℕ
  pub depends_on : List String
  pub input : String
  pub resources : List String
  pub parallel_safe : Bool
  pub not_before : Option ℕ
  pub max_attempts : ℕ
  pub attempt : ℕ
  pub event_key : Option String
  pub compensates_step_id : Option String
  pub result_revision : Option String
  pub terminal_reason : Option String

-- `PlanRecord`
pub record Plan : Type 0 where
  pub id : String
  pub updated_at : ℕ
  pub goal_id : String
  pub status : PlanState
  pub step_ids : List String
  pub terminal_reason : Option String

-- `GoalRecord`
pub record Goal : Type 0 where
  pub id : String
  pub updated_at : ℕ
  pub status : PlanState
  pub summary : String
  pub owner_id : Option String
  pub plan_ids : List String
  pub terminal_reason : Option String

-- `ExecutionRecord`
pub record Execution : Type 0 where
  pub id : String
  pub created_at : ℕ
  pub updated_at : ℕ
  pub plan_id : String
  pub step_id : String
  pub status : ExecutionState
  pub idempotency_key : String
  pub attempt : ℕ
  pub lease_owner : String
  pub lease_token : String
  pub lease_expires_at : ℕ
  pub started_at : Option ℕ
  pub completed_at : Option ℕ
  pub result_revision : Option String
  pub error_code : Option String

abbrev pub step_id : Step → String
step_id s = s.id

abbrev pub execution_id : Execution → String
execution_id e = e.id

abbrev pub execution_key : Execution → String
execution_key e = e.idempotency_key

-- `_SUCCESS_STATES`
abbrev pub is_success : StepState → Bool
is_success StepState.satisfied = true
is_success compensated = true
is_success _ = false

-- `_TERMINAL_STATES`
abbrev pub is_terminal : StepState → Bool
is_terminal StepState.satisfied = true
is_terminal compensated = true
is_terminal StepState.blocked = true
is_terminal StepState.cancelled = true
is_terminal StepState.expired = true
is_terminal StepState.failed = true
is_terminal _ = false

-- `_EXECUTABLE_KINDS`
abbrev pub is_executable : Kind → Bool
is_executable tool = true
is_executable verification = true
is_executable retry = true
is_executable compensation = true
is_executable _ = false

-- ===== src/Plans/Lease.antt =====
-- What the lease transactions of the store make of one step and its execution, which they find by the
-- step's idempotency key (src/nova_voice/durable/store.py, `acquire_execution_sync`,
-- `mark_execution_running_sync`, `complete_execution_sync`). Generated ids and tokens are arguments.
use nova_voice.Base.{
  ℕ, ◌+◌, String, Bool, true, false, not, ◌&&◌, ◌||◌, Option, none, some, ltb, leb, if◌then◌else◌,
  ◌==◌, or_else,
}
use nova_voice.Plans.Records.{
  compensation, StepState, ExecutionState, succeeded, Step, Execution, same_kind, kind_rank,
}

abbrev pub is_succeeded : ExecutionState → Bool
is_succeeded succeeded = true
is_succeeded _ = false

-- Leased or running.
abbrev pub is_open : ExecutionState → Bool
is_open ExecutionState.leased = true
is_open ExecutionState.running = true
is_open _ = false

-- What an acquisition gives: nothing, the execution that succeeded before, or a lease, with the
-- records to be written.
pub data Grant : Type 0 where
  refused : Grant
  done : Execution → Grant
  granted : Execution → Step → Grant

-- What a worker brings to an acquisition.
pub record Bid : Type 0 where
  pub worker : String
  pub token : String
  pub execution_id : String
  pub now : ℕ
  pub lease : ℕ

-- The lease of an execution that is there already.
abbrev pub renewed : Execution → Bid → Execution
renewed e b = record e {
  status = ExecutionState.leased;
  attempt = e.attempt + 1;
  lease_owner = b.worker;
  lease_token = b.token;
  lease_expires_at = b.now + b.lease;
  started_at = none;
  completed_at = none;
  error_code = none;
  updated_at = b.now;
}

-- The first execution of a step.
abbrev pub first_execution : Step → String → Bid → Execution
first_execution s key b = record {
  id = b.execution_id;
  created_at = b.now;
  updated_at = b.now;
  plan_id = s.plan_id;
  step_id = s.id;
  status = ExecutionState.leased;
  idempotency_key = key;
  attempt = s.attempt + 1;
  lease_owner = b.worker;
  lease_token = b.token;
  lease_expires_at = b.now + b.lease;
  started_at = none;
  completed_at = none;
  result_revision = none;
  error_code = none;
}

abbrev pub leased_step : Step → ℕ → ℕ → Step
leased_step s attempt now = record s {
  status = StepState.leased;
  attempt = attempt;
  updated_at = now;
}

-- `acquire_execution_sync`, of a step and its execution
unfoldable pub acquire : Step → Option Execution → String → Bid → Grant
acquire s none key b =
    if ltb s.max_attempts (s.attempt + 1)
    then refused
    else granted (first_execution s key b) (leased_step s (s.attempt + 1) b.now)
acquire s (some e) key b =
    if is_succeeded e.status
    then done e
    else if is_open e.status && ltb b.now e.lease_expires_at
    then refused
    else if ltb s.max_attempts (e.attempt + 1)
    then refused
    else granted (renewed e b) (leased_step s (e.attempt + 1) b.now)

-- `mark_execution_running_sync`; nothing for `LeaseUnavailable`
unfoldable pub mark_running : Execution → Step → (token : String) → ℕ → Option (Execution × Step)
mark_running e s token now =
    if not (e.lease_token == token) || leb e.lease_expires_at now
    then none
    else some (
      record e {
        status = ExecutionState.running;
        started_at = or_else e.started_at (some now);
        updated_at = now;
      },
      record s { status = StepState.running; updated_at = now },
    )

-- What a worker reports of an execution.
pub record Report : Type 0 where
  pub token : String
  pub ok : Bool
  pub result_revision : Option String
  pub error_code : Option String
  pub retryable : Bool
  pub now : ℕ

-- The state of a step after a report.
unfoldable pub step_state : Execution → Step → Report → StepState
unfolding kind_rank
step_state e s r =
    if r.ok
    then (if same_kind s.kind compensation then StepState.compensated else StepState.satisfied)
    else if r.retryable && ltb e.attempt s.max_attempts
    then StepState.pending
    else StepState.failed

-- What a completion does: `LeaseUnavailable`, nothing to an execution that succeeded before, or
-- the records to be written.
pub data Completion : Type 0 where
  unavailable : Completion
  already : Completion
  completed : Execution → Step → Completion

-- `complete_execution_sync`
unfoldable pub complete : Execution → Step → Report → Completion
unfolding step_state
complete e s r =
    if not (e.lease_token == r.token)
    then unavailable
    else if is_succeeded e.status
    then already
    else completed
        (record e {
          status = if r.ok then succeeded else ExecutionState.failed;
          completed_at = some r.now;
          result_revision = r.result_revision;
          error_code = r.error_code;
          updated_at = r.now;
        })
        (record s {
          status = step_state e s r;
          result_revision = r.result_revision;
          terminal_reason = r.error_code;
          updated_at = r.now;
        })

-- What `terminate_plan_sync` makes of a step.
unfoldable pub terminate : Step → StepState → (reason : String) → ℕ → Step
terminate s status reason now = elim s.status [
  | StepState.satisfied ↦ s
  | StepState.compensated ↦ s
  | StepState.cancelled ↦ s
  | StepState.expired ↦ s
  | StepState.failed ↦ s
  | _ ↦ record s { status = status; terminal_reason = some reason; updated_at = now }
]

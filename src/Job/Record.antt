-- ===== src/Job/Record.antt =====
-- The records of a durable companion job (src/nova_voice/durable/models.py). An instant is a number
-- of microseconds, and a fraction of progress a number of millionths. The constant field
-- `schema_version` is left out.
use nova_voice.Base.{ℕ, String, Bool, Option, List}

-- `CompanionJobState`
pub data State : Type 0 where
  queued offered accepted running waiting_tool waiting_approval falling_back : State
  completed failed cancelled expired : State

pub data AttemptOutcome : Type 0 where
  accepted rejected completed failed timeout disconnected cancelled invalid : AttemptOutcome

pub data Sensitivity : Type 0 where
  ordinary personal health location mutation : Sensitivity

pub data Locality : Type 0 where
  home_lan tailnet other : Locality

-- `CompanionAttemptRecord`
pub record Attempt : Type 0 where
  pub attempt_id : String
  pub session_id : Option String
  pub started_at : ℕ
  pub ended_at : Option ℕ
  pub outcome : Option AttemptOutcome
  pub detail : Option String

-- `CompanionJobRecord`, with the fields that it has from `DurableModel`
pub record JobRecord : Type 0 where
  pub id : String
  pub created_at : ℕ
  pub updated_at : ℕ
  pub expires_at : Option ℕ
  pub workload : String
  pub status : State
  pub input_revision : String
  pub idempotency_key : String
  pub trace_id : String
  pub sensitivity : Sensitivity
  pub locality : Locality
  pub attempts : List Attempt
  pub lease_owner : Option String
  pub lease_expires_at : Option ℕ
  pub complete_deadline : Option ℕ
  pub progress_stage : String
  pub progress_fraction : Option ℕ
  pub progress_summary : Option String
  pub checkpoint_ref : Option String
  pub result_ref : Option String
  pub approval_id : Option String
  pub local_fallback : Bool
  pub failure_code : Option String
  pub failure_detail : Option String

-- ===== src/Domain.antt =====
-- The shared vocabulary of a turn (src/nova_voice/domain.py), as far as the components below read it.
use nova_voice.Base.{String, Bool, Option, List}

-- `SpeechAct`
pub data SpeechAct : Type 0 where
  directive desired_state self_intention observation question : SpeechAct
  third_party quoted_or_media social unclear : SpeechAct

-- `Decision`
pub data Decision : Type 0 where
  execute reply clarify ignore : Decision

-- `GoalStatus`
pub data GoalStatus : Type 0 where
  new in_progress needs_clarification satisfied abandoned : GoalStatus

-- `ActiveGoal`
pub record ActiveGoal : Type 0 where
  pub summary : String
  pub status : GoalStatus
  pub pending : List String

-- `ToolResult`, its action, target and success
pub record ToolResult : Type 0 where
  pub action_id : String
  pub target : Option String
  pub ok : Bool

-- ===== src/Policy.antt =====
-- `ExecutionPolicy` (src/nova_voice/policy.py). Probabilities and thresholds are in millionths. The cue for
-- an explicit self intention is a test of another part of the program, given as its answer; a reason is a
-- value in place of its text.
pub mod Laws
mod Tests
use nova_voice.Base.{
  ℕ, String, Bool, true, false, not, ◌&&◌, ◌||◌, Option, none, some, List, [], ◌∷◌, ltb,
  if◌then◌else◌, ◌==◌,
}
use nova_voice.Domain.{
  SpeechAct, directive, desired_state, self_intention, observation, question, third_party,
  quoted_or_media, social, unclear, Decision, execute, reply, clarify, ignore,
}
use nova_voice.Authority.Defs.{
  Role, Action, Identity, GrantRecord, Speaker, Clock, Outcome, authorize,
}

-- `Settings`, as far as the policy reads them
pub record Settings : Type 0 where
  pub active_addressed_threshold : ℕ
  pub passive_addressed_threshold : ℕ
  pub active_interpretation_threshold : ℕ
  pub passive_interpretation_threshold : ℕ
  pub shadow_mode : Bool
  pub passive_execution_enabled : Bool

-- What the policy reads of an utterance, of its interpretation and of the session
pub record Request : Type 0 where
  pub self_intended : Bool
  pub wake_detected : Bool
  pub conversation_active : Bool
  pub session_active : Bool
  pub targets_verified : Bool
  pub dry_run : Bool
  pub decision : Decision
  pub speech_act : SpeechAct
  pub actions : List Action
  pub addressed_probability : ℕ
  pub confidence : ℕ

pub data Reason : Type 0 where
  assigns_to_speaker not_requested speech_act_refused not_executable : Reason
  not_addressed low_confidence no_authority shadow web_unaddressed passive_disabled : Reason
  allowed allowed_dry waived waived_dry : Reason

-- `PolicyOutcome`
pub record PolicyOutcome : Type 0 where
  pub executes : Bool
  pub shadowed : Bool
  pub reason : Reason
  pub identity_role : Option Role
  pub grant_ids : List String
  pub dry : Bool

abbrev pub refuse : Reason → Option Role → PolicyOutcome
refuse reason role = record {
  executes = false;
  shadowed = false;
  reason = reason;
  identity_role = role;
  grant_ids = [];
  dry = false;
}

-- `NON_EXECUTABLE_SPEECH_ACTS`
abbrev pub is_refused_act : SpeechAct → Bool
is_refused_act self_intention = true
is_refused_act observation = true
is_refused_act third_party = true
is_refused_act quoted_or_media = true
is_refused_act unclear = true
is_refused_act _ = false

-- `EXECUTABLE_SPEECH_ACTS`, with a question for lookups on the web
abbrev pub is_executable_act : Bool → SpeechAct → Bool
is_executable_act web directive = true
is_executable_act web desired_state = true
is_executable_act web question = web
is_executable_act web _ = false

abbrev pub all_web : List Action → Bool
all_web [] = true
all_web (a ∷ rest) = a.provider == "web" && all_web rest

abbrev pub wants_execution : Request → Bool
wants_execution r = elim r.decision [
  | execute ↦ elim r.actions [ [] ↦ false | a ∷ rest ↦ true ]
  | _ ↦ false
]

abbrev pub is_active : Request → Bool
is_active r = r.wake_detected || r.conversation_active || r.session_active

-- An outcome of authority, if it was asked and said no.
abbrev pub is_denied : {R : Type 0} → (R → Bool) → Option R → Bool
is_denied allows none = false
is_denied allows (some o) = not (allows o)

-- What the policy reads of an outcome of authority.
pub record Authorized : Type 0 where
  pub granted : Bool
  pub role : Role
  pub grant_ids : List String

abbrev pub role_of : Option Authorized → Option Role
role_of none = none
role_of (some o) = some o.role

abbrev pub ids_of : Option Authorized → List String
ids_of none = []
ids_of (some o) = o.grant_ids

abbrev pub reason_of : (dry spared : Bool) → Reason
reason_of dry spared =
    if dry
    then (if spared then waived_dry else allowed_dry)
    else (if spared then waived else allowed)

-- `evaluate`; the outcome of authority is nothing where there is no authority
unfoldable pub evaluate : Settings → Request → Option Authorized → PolicyOutcome
evaluate settings r authority =
    let active = is_active r in
    let web = all_web r.actions in
    let floor =
      if active
      then settings.active_interpretation_threshold
      else settings.passive_interpretation_threshold in
    let sure = r.targets_verified && active in
    if r.self_intended
    then refuse assigns_to_speaker none
    else if not (wants_execution r)
    then refuse not_requested none
    else if is_refused_act r.speech_act
    then refuse speech_act_refused none
    else if not (is_executable_act web r.speech_act)
    then refuse not_executable none
    else if ltb r.addressed_probability (
        if active
        then settings.active_addressed_threshold
        else settings.passive_addressed_threshold)
    then refuse not_addressed none
    else if not sure && ltb r.confidence floor
    then refuse low_confidence none
    else if is_denied (λ (o : Authorized). o.granted) authority
    then refuse no_authority (role_of authority)
    else if settings.shadow_mode && not r.dry_run
    then record {
      executes = false;
      shadowed = true;
      reason = shadow;
      identity_role = role_of authority;
      grant_ids = ids_of authority;
      dry = false;
    }
    else if web && not active
    then refuse web_unaddressed none
    else if not web && not active && not settings.passive_execution_enabled
    then refuse passive_disabled none
    else record {
      executes = true;
      shadowed = false;
      reason = reason_of r.dry_run (sure && ltb r.confidence floor);
      identity_role = role_of authority;
      grant_ids = ids_of authority;
      dry = r.dry_run;
    }

-- The policy with the household's authority, asked at an instant.
unfoldable pub decide :
    (clock : Clock)
    → (normalized : String → Option String) → Settings
    → List Identity
    → List GrantRecord
    → Speaker
    → ℕ
    → Request
    → PolicyOutcome
unfolding evaluate authorize
decide clock normalized settings identities grants s now r =
    let o = authorize clock normalized identities grants s r.actions now in
    evaluate settings r
      (some (record { granted = o.allowed; role = o.role; grant_ids = o.grant_ids }))

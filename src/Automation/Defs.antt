-- ===== src/Automation/Defs.antt =====
-- The record of an automation and the operations of `AutomationManager` (src/nova_voice/automation.py),
-- each on the record that was read; `edit` is the reading and the saving around them. A value of JSON is a
-- text, and the stripping of texts is a parameter.
use nova_voice.Base.{
  ℕ, ◌+◌, String, Bool, true, false, not, ◌&&◌, ◌||◌, Option, none, some, List, [], ◌∷◌,
  if◌then◌else◌, ltb, ◌==◌, is_text,
}
use nova_voice.Durable.Store
use nova_voice.Durable.Store.{Database, Stored, Written, written, conflict, duplicate}

-- `AutomationState`
pub data State : Type 0 where
  draft simulated approved active paused rolled_back failed : State

-- The keys of a trigger that the code reads; nothing where a value is missing or of another type
pub record Trigger : Type 0 where
  pub is_empty : Bool
  pub kind : Option String
  pub source : Option String
  pub payload : Option (List (String × String))

pub record Action : Type 0 where
  pub channel : String
  pub message_length : Option ℕ

-- The simulation's `safe`, with the revision of the state that it was made on
pub record Simulation : Type 0 where
  pub state_revision : String
  pub trigger_matched : Bool
  pub action_count : ℕ
  pub safe : Bool

-- `AutomationRecord`
pub record Automation : Type 0 where
  pub id : String
  pub owner_id : String
  pub summary : String
  pub trigger : Trigger
  pub proposed_actions : List Action
  pub simulation : Option Simulation
  pub state : State
  pub approval_id : Option String
  pub activated_at : Option ℕ
  pub rolled_back_at : Option ℕ
  pub monitor_failures : ℕ
  pub created_at : ℕ
  pub updated_at : ℕ

pub record Event : Type 0 where
  pub source : String
  pub kind : String
  pub payload : List (String × String)

pub data Refusal : Type 0 where
  incomplete no_event_kind bad_channel long_message not_a_draft not_the_owner : Refusal
  no_safe_simulation not_approved not_running unknown_automation concurrent : Refusal

pub data Outcome : Type 0 where
  refused : Refusal → Outcome
  changed : Automation → Outcome

abbrev pub is_channel : String → Bool
is_channel c = c == "voice" || c == "dashboard" || c == "notification"

abbrev pub is_long : Option ℕ → Bool
is_long none = false
is_long (some n) = ltb 300 n

-- The loop over the proposed actions: the first objection
unfoldable pub objection : List Action → Option Refusal
objection [] = none
objection (a ∷ rest) =
    let later = objection rest in
    if not (is_channel a.channel)
    then some bad_channel
    else if is_long a.message_length
    then some long_message
    else later

abbrev pub is_nil {ℓ} : {A : Type ℓ} → List A → Bool
is_nil [] = true
is_nil (_ ∷ _) = false

module _ (strip : String → String) where
  abbrev pub is_blank : Option String → Bool
  is_blank none = true
  is_blank (some s) = strip s == ""

  -- `draft`
  unfoldable pub drafted : (id owner summary : String) → Trigger → List Action → ℕ → Outcome
  unfolding objection
  drafted id owner summary trigger actions now =
      if strip summary == "" || trigger.is_empty || is_nil actions
      then refused incomplete
      else if is_blank trigger.kind
      then refused no_event_kind
      else (elim (objection actions) [
        | some o ↦ refused o
        | none ↦ changed (record {
          id = id;
          owner_id = owner;
          summary = strip summary;
          trigger = trigger;
          proposed_actions = actions;
          simulation = none;
          state = draft;
          approval_id = none;
          activated_at = none;
          rolled_back_at = none;
          monitor_failures = 0;
          created_at = now;
          updated_at = now;
        })
      ])

abbrev pub is_open_draft : State → Bool
is_open_draft draft = true
is_open_draft simulated = true
is_open_draft _ = false

abbrev pub is_simulated : State → Bool
is_simulated simulated = true
is_simulated _ = false

abbrev pub is_approved : State → Bool
is_approved approved = true
is_approved _ = false

abbrev pub is_active : State → Bool
is_active active = true
is_active _ = false

abbrev pub is_running : State → Bool
is_running active = true
is_running paused = true
is_running failed = true
is_running _ = false

abbrev pub is_safe : Option Simulation → Bool
is_safe none = false
is_safe (some s) = s.safe

abbrev pub count : List Action → ℕ
count [] = 0
count (_ ∷ rest) = count rest + 1

-- `simulate`
unfoldable pub simulate : Automation → (revision : String) → ℕ → Outcome
simulate a revision now =
    if not (is_open_draft a.state)
    then refused not_a_draft
    else changed (record a {
      state = simulated;
      simulation = some (record {
        state_revision = revision;
        trigger_matched = not a.trigger.is_empty;
        action_count = count a.proposed_actions;
        safe = true;
      });
      updated_at = now;
    })

-- `approve`
unfoldable pub approve : Automation → (actor : String) → ℕ → Outcome
approve a actor now =
    if not (a.owner_id == actor)
    then refused not_the_owner
    else if not (is_simulated a.state) || not (is_safe a.simulation)
    then refused no_safe_simulation
    else changed (record a { state = approved; approval_id = some actor; updated_at = now })

-- `activate`
unfoldable pub activate : Automation → (actor : String) → ℕ → Outcome
activate a actor now =
    if not (a.owner_id == actor) || not (is_approved a.state)
    then refused not_approved
    else changed (record a { state = active; activated_at = some now; updated_at = now })

-- `rollback`
unfoldable pub roll_back : Automation → (actor : String) → ℕ → Outcome
roll_back a actor now =
    if not (a.owner_id == actor) || not (is_running a.state)
    then refused not_running
    else changed (record a { state = rolled_back; rolled_back_at = some now; updated_at = now })

-- `record_monitor_failure`
unfoldable pub fail_monitor : Automation → ℕ → Outcome
fail_monitor a now =
    changed
      (record a { monitor_failures = a.monitor_failures + 1; state = failed; updated_at = now })

unfoldable pub lookup : List (String × String) → String → Option String
lookup [] key = none
lookup ((k, v) ∷ rest) key = let later = lookup rest key in if k == key then some v else later

-- Whether a payload has every pair that is required.
unfoldable pub has_all : List (String × String) → List (String × String) → Bool
unfolding lookup
has_all payload [] = true
has_all payload ((k, v) ∷ rest) = is_text (lookup payload k) v && has_all payload rest

abbrev pub is_required : Option (List (String × String)) → List (String × String) → Bool
is_required none payload = false
is_required (some pairs) payload = has_all payload pairs

abbrev pub is_from : Option String → String → Bool
is_from none source = true
is_from (some s) source = s == source

-- `trigger_matches`; a payload that the trigger does not name is the empty one
unfoldable pub trigger_matches : Trigger → Event → Bool
unfolding has_all
trigger_matches t e =
    is_text t.kind e.kind && is_from t.source e.source && is_required t.payload e.payload

-- `active_for_event`, of the records that were listed
unfoldable pub active_for_event : List Automation → Event → List Automation
unfolding trigger_matches
active_for_event [] e = []
active_for_event (a ∷ rest) e =
    let others = active_for_event rest e in
    if is_active a.state && trigger_matches a.trigger e then a ∷ others else others

abbrev pub automation_id : Automation → String
automation_id a = a.id

-- One operation over the store: others may write between its reading and its saving.
unfoldable pub edit :
    (other : Database Automation → Database Automation)
    → (Automation → Outcome)
    → (id actor : String) → Database Automation
    → Outcome × Database Automation
edit other f id actor db = elim (Store.get automation_id db id) [
  | none ↦ (refused unknown_automation, other db)
  | some row ↦ elim (f row.value) [
    | refused e ↦ (refused e, other db)
    | changed a ↦ elim (Store.save automation_id (other db) a row.revision actor) [
      | written db' ↦ (changed a, db')
      | conflict ↦ (refused concurrent, other db)
      | duplicate ↦ (refused concurrent, other db)
    ]
  ]
]

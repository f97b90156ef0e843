-- ===== src/Rollout/Defs.antt =====
-- `RolloutManager` (src/nova_voice/rollout.py). An operation is what it makes of the stored record,
-- and a run of it over the store, where other writers may come in between the read and the write.
-- The runs of scenarios in the evidence are counted.
use nova_voice.Base.{
  ℕ, String, Bool, true, false, not, ◌||◌, ◌&&◌, Option, none, some, List, [], ◌∷◌, ◌++◌, ltb, leb,
  eqb, if◌then◌else◌, ◌==◌,
}
use nova_voice.Durable.Store
use nova_voice.Durable.Store.{Stored, Database, Written, written, conflict, duplicate}

-- `RolloutStage`
pub data Stage : Type 0 where
  fixture replay shadow owner_canary household standing_autonomy : Stage

-- `STAGES.index`
unfoldable pub stage_index : Stage → ℕ
stage_index fixture = 0
stage_index replay = 1
stage_index shadow = 2
stage_index owner_canary = 3
stage_index household = 4
stage_index standing_autonomy = 5

-- `STAGES[index + 1]`, where there is one
unfoldable pub next_stage : Stage → Option Stage
next_stage fixture = some replay
next_stage replay = some shadow
next_stage shadow = some owner_canary
next_stage owner_canary = some household
next_stage household = some standing_autonomy
next_stage standing_autonomy = none

-- `RolloutStatus`
pub data Status : Type 0 where
  active revoked : Status

-- `RolloutEvidence`
pub record Evidence : Type 0 where
  pub stage : Stage
  pub artifact_revision : String
  pub pins_digest : String
  pub eligible : Bool
  pub scenario_runs : ℕ
  pub reasons : List String

pub data Action : Type 0 where
  created promoted revoked rolled_back : Action

-- `RolloutEvent`
pub record Event : Type 0 where
  pub at : ℕ
  pub actor_id : String
  pub action : Action
  pub from_stage : Option Stage
  pub to_stage : Stage
  pub evidence_revision : Option String
  pub reason : Option String

-- `RolloutRecord`
pub record Rollout : Type 0 where
  pub id : String
  pub created_at : ℕ
  pub updated_at : ℕ
  pub owner_id : String
  pub component : String
  pub pins_digest : String
  pub stage : Stage
  pub status : Status
  pub authority_scope : List String
  pub history : List Event
  pub revoked_at : Option ℕ

abbrev pub is_revoked : Status → Bool
is_revoked active = false
is_revoked revoked = true

abbrev pub is_empty {ℓ} : {A : Type ℓ} → List A → Bool
is_empty [] = true
is_empty (_ ∷ _) = false

abbrev pub same_stage : Stage → Stage → Bool
same_stage a b = eqb (stage_index a) (stage_index b)

-- The errors, one for each text.
pub data Refusal : Type 0 where
  is_revoked_already not_owner at_top wrong_stage wrong_pins no_passing_gate unbounded : Refusal
  not_earlier unknown_rollout concurrent duplicate_id : Refusal

pub data Outcome : Type 0 where
  changed : Rollout → Outcome
  kept : Outcome
  refused : Refusal → Outcome

-- `create`
unfoldable pub create : (id owner component pins : String) → ℕ → Rollout
create id owner component pins now = record {
  id = id;
  created_at = now;
  updated_at = now;
  owner_id = owner;
  component = component;
  pins_digest = pins;
  stage = fixture;
  status = active;
  authority_scope = [];
  history =
      record {
        at = now;
        actor_id = owner;
        action = created;
        from_stage = none;
        to_stage = fixture;
        evidence_revision = none;
        reason = none;
      }
      ∷ [];
  revoked_at = none;
}

-- `authority_scope or record.authority_scope`
unfoldable pub selected_scope : List String → List String → List String
selected_scope [] recorded = recorded
selected_scope (s ∷ scope) recorded = s ∷ scope

unfoldable pub promoted_to : Rollout → String → Evidence → List String → Stage → ℕ → Rollout
promoted_to r actor evidence scope target now = record r {
  stage = target;
  authority_scope = scope;
  updated_at = now;
  history =
      r.history
      ++ record {
        at = now;
        actor_id = actor;
        action = promoted;
        from_stage = some r.stage;
        to_stage = target;
        evidence_revision = some evidence.artifact_revision;
        reason = none;
      }
        ∷ [];
}

-- The end of `promote`, where there is a next stage.
unfoldable pub promote_to : Rollout → String → Evidence → List String → ℕ → Option Stage → Outcome
unfolding promoted_to selected_scope
promote_to r actor evidence scope now none = refused at_top
promote_to r actor evidence scope now (some target) =
    if not (same_stage evidence.stage r.stage)
    then refused wrong_stage
    else if not (evidence.pins_digest == r.pins_digest)
    then refused wrong_pins
    else if not evidence.eligible || not (is_empty evidence.reasons) || eqb evidence.scenario_runs 0
    then refused no_passing_gate
    else if same_stage target standing_autonomy && is_empty (selected_scope scope r.authority_scope)
    then refused unbounded
    else changed (promoted_to r actor evidence (selected_scope scope r.authority_scope) target now)

-- `promote`
unfoldable pub promote : Rollout → String → Evidence → List String → ℕ → Outcome
unfolding promote_to next_stage
promote r actor evidence scope now =
    if is_revoked r.status
    then refused is_revoked_already
    else if not (actor == r.owner_id)
    then refused not_owner
    else promote_to r actor evidence scope now (next_stage r.stage)

abbrev pub revoked_by : Rollout → String → String → ℕ → Rollout
revoked_by r actor reason now = record r {
  status = Status.revoked;
  revoked_at = some now;
  updated_at = now;
  history =
      r.history
      ++ record {
        at = now;
        actor_id = actor;
        action = Action.revoked;
        from_stage = some r.stage;
        to_stage = r.stage;
        evidence_revision = none;
        reason = some reason;
      }
        ∷ [];
}

-- `revoke`
unfoldable pub revoke : Rollout → String → String → ℕ → Outcome
revoke r actor reason now =
    if not (actor == r.owner_id)
    then refused not_owner
    else if is_revoked r.status
    then kept
    else changed (revoked_by r actor reason now)

abbrev pub rolled_to : Rollout → String → Stage → String → ℕ → Rollout
rolled_to r actor target reason now = record r {
  stage = target;
  status = active;
  authority_scope = [];
  revoked_at = none;
  updated_at = now;
  history =
      r.history
      ++ record {
        at = now;
        actor_id = actor;
        action = rolled_back;
        from_stage = some r.stage;
        to_stage = target;
        evidence_revision = none;
        reason = some reason;
      }
        ∷ [];
}

-- `rollback`
unfoldable pub rollback : Rollout → String → Stage → String → ℕ → Outcome
rollback r actor target reason now =
    if not (actor == r.owner_id)
    then refused not_owner
    else if leb (stage_index r.stage) (stage_index target)
    then refused not_earlier
    else changed (rolled_to r actor target reason now)

-- `RolloutDecision`, without the text of its reason
pub record Decision : Type 0 where
  pub allowed : Bool
  pub stage : Stage

-- `allows`
unfoldable pub allows : Rollout → Stage → Decision
allows r required =
    if is_revoked r.status
    then record { allowed = false; stage = r.stage }
    else if ltb (stage_index r.stage) (stage_index required)
    then record { allowed = false; stage = r.stage }
    else record { allowed = true; stage = r.stage }

abbrev pub Db : Type 0
Db = Database Rollout

abbrev pub rollout_id : Rollout → String
rollout_id r = r.id

-- One operation over the store: it reads the record and saves what it makes of it, and others may
-- write in between.
unfoldable pub edit :
    (other : Db → Db) → (Rollout → Outcome) → (id actor : String) → Db → Outcome × Db
edit other f id actor db = elim (Store.get rollout_id db id) [
  | none ↦ (refused unknown_rollout, other db)
  | some row ↦ elim (f row.value) [
    | kept ↦ (kept, other db)
    | refused e ↦ (refused e, other db)
    | changed r ↦ elim (Store.save rollout_id (other db) r row.revision actor) [
      | written db' ↦ (changed r, db')
      | conflict ↦ (refused concurrent, other db)
      | duplicate ↦ (refused concurrent, other db)
    ]
  ]
]

-- ===== src/Plans/Transactions.antt =====
-- The transactions of the store on plans (src/nova_voice/durable/store.py, `create_plan_bundle_sync` to
-- `complete_execution_sync`). A transaction that raises leaves the world as it was. Every save is
-- audited as an update: the name that a transition gives its save is left out.
use nova_voice.Base.{
  ℕ, String, ◌<>◌, Bool, true, false, not, ◌||◌, Option, none, some, List, [], ◌∷◌, if◌then◌else◌,
  ◌==◌, leb,
}
use nova_voice.Durable.Store
use nova_voice.Durable.Store.{Stored, Database, Written, written, conflict, duplicate}
use nova_voice.Plans.Records.{
  StepState, PlanState, Step, Plan, Goal, Execution, step_id, execution_id, execution_key,
}
use nova_voice.Plans.Lease.{
  Grant, refused, done, granted, Bid, acquire, mark_running, Report, is_succeeded, Completion,
  unavailable, already, completed, complete, terminate,
}

abbrev pub plan_id : Plan → String
plan_id p = p.id

abbrev pub goal_id : Goal → String
goal_id g = g.id

-- The tables that the transactions touch.
pub record World : Type 0 where
  pub plans : Database Plan
  pub goals : Database Goal
  pub steps : Database Step
  pub executions : Database Execution

pub data Error : Type 0 where
  unknown_step unknown_execution unknown_plan unknown_goal : Error
  lease_unavailable overtaken duplicate_id invalid : Error

-- What a transaction does: it commits a value and a world, or raises and changes nothing.
pub data Tx (A : Type 0) : Type 0 where
  committed : A → World → Tx A
  raised : Error → Tx A

abbrev pub then_do : {A B : Type 0} → Tx A → (A → World → Tx B) → Tx B
then_do (committed a w) f = f a w
then_do (raised e) f = raised e

abbrev pub found : {A B : Type 0} → Error → Option A → (A → Tx B) → Tx B
found e none f = raised e
found e (some a) f = f a

abbrev pub put : {R : Type 0} → Written R → (Database R → World) → Tx (Unit {0})
put (written db) f = committed tt (f db)
put conflict f = raised overtaken
put duplicate f = raised duplicate_id

abbrev pub put_step : World → Step → ℕ → String → Tx (Unit {0})
put_step w s revision actor =
    put (Store.save step_id w.steps s revision actor) (λ db. record w { steps = db })

-- A new execution, or one that was there at a revision.
abbrev pub put_execution : World → Option (Stored Execution) → Execution → String → Tx (Unit {0})
put_execution w none e actor =
    put (Store.insert execution_id w.executions e actor) (λ db. record w { executions = db })
put_execution w (some row) e actor =
    put (Store.save execution_id w.executions e row.revision actor)
      (λ db. record w { executions = db })

abbrev pub value_of : {R : Type 0} → Option (Stored R) → Option R
value_of none = none
value_of (some row) = some row.value

-- What a grant writes.
unfoldable pub put_grant :
    World → Stored Step → Option (Stored Execution) → Bid → Grant → Tx (Option Execution)
put_grant w row old b refused = committed none w
put_grant w row old b (done e) = committed (some e) w
put_grant w row old b (granted e s) =
    then_do (put_execution w old e b.worker)
      (λ _ w'. then_do (put_step w' s row.revision b.worker) (λ _ w''. committed (some e) w''))

-- `f"{step.plan_id}:{step.id}"`
abbrev pub key_of : Step → String
key_of s = s.plan_id <> (":" <> s.id)

-- `acquire_execution_sync`
unfoldable pub acquire_execution : World → (step : String) → Bid → Tx (Option Execution)
unfolding put_grant
acquire_execution w step b = found unknown_step (Store.get step_id w.steps step) (λ row.
    let old = Store.get execution_key w.executions (key_of row.value) in
    put_grant w row old b (acquire row.value (value_of old) (key_of row.value) b))

-- `mark_execution_running_sync`; the lease is tested before the step is looked for
unfoldable pub mark_execution_running :
    World → (execution token : String) → (now : ℕ) → Tx Execution
mark_execution_running w execution token now =
    found unknown_execution (Store.get execution_id w.executions execution) (λ row.
      if not (row.value.lease_token == token) || leb row.value.lease_expires_at now
      then raised lease_unavailable
      else found unknown_step (Store.get step_id w.steps row.value.step_id) (λ srow.
        found lease_unavailable (mark_running row.value srow.value token now) (λ (e, s).
          then_do (put_execution w (some row) e row.value.lease_owner) (λ _ w'.
            then_do (put_step w' s srow.revision row.value.lease_owner)
              (λ _ w''. committed e w'')))))

abbrev pub put_completion : World → Stored Execution → Stored Step → Completion → Tx Execution
put_completion w row srow unavailable = raised lease_unavailable
put_completion w row srow already = committed row.value w
put_completion w row srow (completed e s) =
    then_do (put_execution w (some row) e row.value.lease_owner) (λ _ w'.
      then_do (put_step w' s srow.revision row.value.lease_owner) (λ _ w''. committed e w''))

-- `complete_execution_sync`
unfoldable pub complete_execution : World → (execution : String) → Report → Tx Execution
complete_execution w execution r =
    found unknown_execution (Store.get execution_id w.executions execution) (λ row.
      if not (row.value.lease_token == r.token)
      then raised lease_unavailable
      else if is_succeeded row.value.status
      then committed row.value w
      else found unknown_step (Store.get step_id w.steps row.value.step_id)
          (λ srow. put_completion w row srow (complete row.value srow.value r)))

-- The plan and its goal, moved to a state.
unfoldable pub move_plan :
    World → Stored Plan → PlanState → Option String → (actor : String) → ℕ → Tx Plan
move_plan w row status reason actor now =
    found unknown_goal (Store.get goal_id w.goals row.value.goal_id) (λ grow.
      let plan = record row.value { status = status; terminal_reason = reason; updated_at = now } in
      let goal = record grow.value {
        status = status;
        terminal_reason = reason;
        updated_at = now;
      } in
      then_do
        (put (Store.save plan_id w.plans plan row.revision actor) (λ db. record w { plans = db }))
        (λ _ w'.
          then_do
            (put (Store.save goal_id w'.goals goal grow.revision actor)
              (λ db. record w' { goals = db }))
            (λ _ w''. committed plan w'')))

-- `set_plan_state_sync`
unfoldable pub set_plan_state :
    World → (plan : String) → PlanState → Option String → (actor : String) → ℕ → Tx Plan
unfolding move_plan
set_plan_state w plan status reason actor now =
    found unknown_plan (Store.get plan_id w.plans plan)
      (λ row. move_plan w row status reason actor now)

-- The rows of a plan's steps.
unfoldable pub rows_of : List (Stored Step) → String → List (Stored Step)
rows_of [] plan = []
rows_of (row ∷ rest) plan =
    let others = rows_of rest plan in if row.value.plan_id == plan then row ∷ others else others

abbrev pub is_final : StepState → Bool
is_final StepState.satisfied = true
is_final StepState.compensated = true
is_final StepState.cancelled = true
is_final StepState.expired = true
is_final StepState.failed = true
is_final _ = false

unfoldable pub end_steps :
    World → List (Stored Step) → StepState → String → (actor : String) → ℕ → Tx (Unit {0})
unfolding terminate
end_steps w [] status reason actor now = committed tt w
end_steps w (row ∷ rest) status reason actor now = elim (is_final row.value.status) [
  | true ↦ end_steps w rest status reason actor now
  | false ↦
      then_do (put_step w (terminate row.value status reason now) row.revision actor)
        (λ _ w'. end_steps w' rest status reason actor now)
]

-- `terminate_plan_sync`, to be cancelled or expired
unfoldable pub terminate_plan :
    World → (plan : String) → PlanState → (reason actor : String) → ℕ → Tx Plan
unfolding rows_of end_steps move_plan
terminate_plan w plan status reason actor now = elim status [
  | PlanState.cancelled ↦ found unknown_plan (Store.get plan_id w.plans plan) (λ row.
      then_do (end_steps w (rows_of w.steps.rows plan) StepState.cancelled reason actor now)
        (λ _ w'. move_plan w' row PlanState.cancelled (some reason) actor now))
  | PlanState.expired ↦ found unknown_plan (Store.get plan_id w.plans plan) (λ row.
      then_do (end_steps w (rows_of w.steps.rows plan) StepState.expired reason actor now)
        (λ _ w'. move_plan w' row PlanState.expired (some reason) actor now))
  | _ ↦ raised invalid
]

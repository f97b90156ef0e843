-- ===== src/Plans/Tests.antt =====
-- One step with its execution, a small plan, and the theorems about plans on them.
use nova_voice.Base.{
  ℕ, ◌+◌, ◌*◌, ◌≤◌, ◌≡◌, ◌≢◌, refl, String, true, false, not, ◌&&◌, ◌||◌, leb, Option, none, some,
  List, [], ◌∷◌, All, if◌then◌else◌, ◌==◌, eq_iff, arith,
}
use nova_voice.Durable.Store
use nova_voice.Durable.Store.{Stored, Database}
use nova_voice.Durable.Laws.{DistinctRows}
use nova_voice.Plans.Records.{
  Kind, kind_rank, StepState, step_rank, succeeded, Step, Execution, step_id, execution_id,
  execution_key,
}
use nova_voice.Plans.Lease.{granted, Bid, renewed, first_execution, leased_step, acquire, Report}
use nova_voice.Plans.Attempts.{
  Pair, Call, bid, begin, report, serve, serve_all, grants, grants_of, attempts, Has, Held,
  grants-attempts, is_refused, runs_at, has_succeeded, lease_is_exclusive, lost_worker_wedges,
}
use nova_voice.Plans.Transactions.{World, committed, key_of, acquire_execution}
use nova_voice.Plans.Commits.{acquire_commits}
use nova_voice.Plans.Runner.{
  by_id, unblocked, is_ready, insert_step, sort_steps, keep_ready, next_wave, ready_steps, prepare,
  saved, raised, prepare_all, prepare_rest,
}
use nova_voice.Plans.Waves.{Runnable, Exclusive, wave_is_safe}
use nova_voice.Plans.Preparation.{IsOver, prepare_all_ends}

abbrev lamp : Step
lamp = record {
  id = "s1";
  created_at = 0;
  updated_at = 0;
  plan_id = "p1";
  kind = Kind.tool;
  status = StepState.pending;
  order = 1;
  depends_on = [];
  input = "{}";
  resources = "lamp" ∷ [];
  parallel_safe = true;
  not_before = none;
  max_attempts = 2;
  attempt = 0;
  event_key = none;
  compensates_step_id = none;
  result_revision = none;
  terminal_reason = none;
}

abbrev offer : String → ℕ → Bid
offer token now = record { worker = "w"; token = token; execution_id = "e1"; now = now; lease = 30 }

abbrev fine : String → ℕ → Report
fine token now = record {
  token = token;
  ok = true;
  result_revision = some "r";
  error_code = none;
  retryable = false;
  now = now;
}

abbrev fresh : Pair
fresh = record { step = lamp; execution = none }

abbrev two_bids : List Call
two_bids = bid (offer "t1" 0) ∷ bid (offer "t2" 40) ∷ bid (offer "t3" 80) ∷ []

two_granted : grants "p1:s1" two_bids fresh ≡ 2
unfolding grants grants_of serve acquire
two_granted = refl

grants-attempts_example :
    (let end = serve_all "p1:s1" two_bids fresh in
      (attempts fresh + grants "p1:s1" two_bids fresh ≡ attempts end)
      × (attempts end ≤ fresh.step.max_attempts)
      × (is_refused (acquire end.step end.execution "p1:s1" (offer "t3" 90)) ≡ (
          runs_at end 90
          || (not (has_succeeded end) && leb fresh.step.max_attempts (attempts end)))))
grants-attempts_example = grants-attempts "p1:s1" two_bids fresh (offer "t3" 90) (omega arith)

-- The execution of an attempt, leased at an instant.
abbrev leased_at : ℕ → ℕ → Execution
leased_at n now = record (first_execution lamp "p1:s1" (offer "t1" now)) { attempt = n }

abbrev held : Pair
held = record { step = leased_step lamp 1 0; execution = some (leased_at 1 0) }

other_token : (fine "u2" 20).token ≢ "t1"
other_token h = let e : false ≡ true = (eq_iff "u2" "t1").1 h in cc (e)

lease_is_exclusive_example :
    Has
      (Held "t1" 30)
      (serve_all "p1:s1" (bid (offer "t2" 20) ∷ report (fine "u2" 20) ∷ []) held).execution
    × (grants "p1:s1" (bid (offer "t2" 20) ∷ report (fine "u2" 20) ∷ []) held ≡ 0)
lease_is_exclusive_example =
    lease_is_exclusive "p1:s1" "t1" 30 (bid (offer "t2" 20) ∷ report (fine "u2" 20) ∷ []) held
      (omega arith, (other_token, tt)) (refl, refl, refl)

abbrev ended : Execution
ended = record (leased_at 1 0) { status = succeeded }

abbrev spent : Pair
spent = record held { execution = some (leased_at 2 0) }

lost_worker_wedges_example :
    serve_all "p1:s1" (bid (offer "t5" 1000) ∷ begin "t1" 2000 ∷ []) spent ≡ spent
lost_worker_wedges_example =
    lost_worker_wedges "p1:s1" (leased_at 2 0) spent refl refl (omega arith)
      (bid (offer "t5" 1000) ∷ begin "t1" 2000 ∷ []) (tt, (omega arith, tt))

abbrev small_world : World
small_world = record {
  plans = record { rows = []; audit = [] };
  goals = record { rows = []; audit = [] };
  steps = record { rows = record { value = held.step; revision = 2 } ∷ []; audit = [] };
  executions = record { rows = record { value = leased_at 1 0; revision = 1 } ∷ []; audit = [] };
}

abbrev step_row : Stored Step
step_row = record { value = held.step; revision = 2 }

abbrev execution_row : Stored Execution
execution_row = record { value = leased_at 1 0; revision = 1 }

step_found : Store.get step_id small_world.steps "s1" ≡ some step_row
unfolding Store.get Store.find_row
step_found = refl

execution_found :
    Store.get execution_key small_world.executions (key_of step_row.value) ≡ some execution_row
unfolding Store.get Store.find_row
execution_found = refl

steps_distinct : DistinctRows step_id small_world.steps.rows
unfolding Store.find_row
steps_distinct = (refl, tt)

executions_distinct : DistinctRows execution_id small_world.executions.rows
unfolding Store.find_row
executions_distinct = (refl, tt)

abbrev again : Execution
again = renewed (leased_at 1 0) (offer "t2" 40)

abbrev leased_again : Step
leased_again = leased_step held.step 2 40

granted_again :
    acquire step_row.value (some execution_row.value) (key_of step_row.value) (offer "t2" 40)
    ≡ granted again leased_again
unfolding acquire
granted_again = refl

acquire_commits_example :
    (w' : World) × (acquire_execution small_world "s1" (offer "t2" 40) ≡ committed (some again) w')
    × (w'.plans ≡ small_world.plans)
    × (w'.goals ≡ small_world.goals)
    × ((j : String)
        → Store.get step_id w'.steps j ≡ (
            if leased_again.id == j
            then some (record { value = leased_again; revision = 2 + 1 })
            else Store.get step_id small_world.steps j))
    × ((j : String)
        → Store.get execution_id w'.executions j ≡ (
            if again.id == j
            then some (record { value = again; revision = 1 + 1 })
            else Store.get execution_id small_world.executions j))
acquire_commits_example =
    acquire_commits small_world "s1" (offer "t2" 40) step_row execution_row again leased_again
      steps_distinct executions_distinct step_found execution_found granted_again

-- A timer, a tool that waits for it, and two tools of which one shares a resource with the lamp.
abbrev timer_step : Step
timer_step = record lamp { id = "s0"; kind = Kind.timer; order = 0; not_before = some 50 }

abbrev evening : List Step
evening =
    timer_step
    ∷ lamp
    ∷ record lamp { id = "s2"; order = 3; resources = "lamp" ∷ [] }
    ∷ record lamp { id = "s3"; order = 2; resources = "fan" ∷ [] }
    ∷ record lamp { id = "s4"; order = 4; resources = "tv" ∷ []; depends_on = "s0" ∷ [] }
    ∷ []

abbrev text_of : Option ℕ → String
text_of t = ""

abbrev evening_ready : List Step
evening_ready =
    lamp
    ∷ record lamp { id = "s3"; order = 2; resources = "fan" ∷ [] }
    ∷ record lamp { id = "s2"; order = 3; resources = "lamp" ∷ [] }
    ∷ []

evening_readiness : ready_steps evening ≡ some evening_ready
unfolding ready_steps keep_ready is_ready unblocked by_id sort_steps insert_step kind_rank step_rank
evening_readiness = refl

wave_is_safe_example :
    All (Runnable evening) (next_wave evening_ready) × Exclusive (next_wave evening_ready)
wave_is_safe_example = wave_is_safe evening evening_ready evening_readiness

-- A clock that moves ten on in each round.
abbrev ticking : ℕ → ℕ → ℕ
ticking n k = 40 + 10 * n + k

prepare_all_ends_example : IsOver text_of ticking (prepare_all text_of 11 ticking evening)
unfolding kind_rank step_rank
prepare_all_ends_example = prepare_all_ends text_of 11 ticking evening (omega arith)

unknown_raises :
    prepare_all text_of 1 ticking (record lamp { depends_on = "s9" ∷ [] } ∷ [])
    ≡ raised
        (record lamp { depends_on = "s9" ∷ [] } ∷ [])
        (record lamp { depends_on = "s9" ∷ [] } ∷ [])
unfolding prepare_all prepare_rest prepare by_id kind_rank step_rank
unknown_raises = refl

timer_satisfied :
    prepare text_of evening 60 timer_step ≡ saved StepState.satisfied none (some "time:")
unfolding prepare kind_rank step_rank
timer_satisfied = refl

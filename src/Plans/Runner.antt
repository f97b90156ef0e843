-- ===== src/Plans/Runner.antt =====
-- `DurablePlanRunner` (src/nova_voice/durable/runner.py): what it makes of the rows of a plan's steps.
-- The text of an instant is a parameter.
use nova_voice.Base.{
  ℕ, zero, suc, String, ◌<>◌, Bool, true, false, not, ◌&&◌, ◌||◌, Option, none, some, List, [], ◌∷◌,
  ◌++◌, exists, leb, ltb, eqb, if◌then◌else◌, ◌==◌, or_else, is_some,
}
use Prim.Native.Nat.{Ordering}
use Prim.Native.String
use nova_voice.Plans.Records.{
  Kind, kind_rank, same_kind, StepState, step_rank, same_step_state, PlanState, Step, is_success,
  is_terminal, is_executable,
}

-- The last step of an id, as in a dictionary built from the steps in their order.
unfoldable pub by_id : List Step → String → Option Step
by_id [] name = none
by_id (s ∷ rest) name = or_else (by_id rest name) (if s.id == name then some s else none)

abbrev pub all {ℓ} : {A : Type ℓ} → (A → Bool) → List A → Bool
all p [] = true
all p (x ∷ xs) = p x && all p xs

-- A step that is there and satisfies a test.
abbrev pub holds : (StepState → Bool) → Option Step → Bool
holds p none = false
holds p (some s) = p s.status

abbrev pub is_known : List Step → String → Bool
is_known steps name = is_some (by_id steps name)

-- `failed_dependencies` is not empty
abbrev pub has_failed : List Step → Step → Bool
has_failed steps s =
    exists (λ name. holds (λ t. is_terminal t && not (is_success t)) (by_id steps name))
      s.depends_on

-- All dependencies have succeeded.
abbrev pub is_unblocked : List Step → Step → Bool
is_unblocked steps s = all (λ name. holds is_success (by_id steps name)) s.depends_on

-- What the preparation does to a step: it leaves it alone, raises `KeyError` on a dependency that is
-- not among the steps, or saves the step with a state, a reason and a result.
pub data Prepared : Type 0 where
  untouched : Prepared
  unknown_dependency : Prepared
  saved : StepState → (reason result : Option String) → Prepared

abbrev pub is_waiting_kind : Kind → Bool
is_waiting_kind Kind.wait = true
is_waiting_kind Kind.timer = true
is_waiting_kind _ = false

abbrev pub is_asking_kind : Kind → Bool
is_asking_kind Kind.question = true
is_asking_kind Kind.approval = true
is_asking_kind Kind.event = true
is_asking_kind _ = false

-- Pending, waiting or paused.
abbrev pub is_idle : StepState → Bool
is_idle StepState.pending = true
is_idle StepState.waiting = true
is_idle StepState.paused = true
is_idle _ = false

abbrev pub is_due : Option ℕ → ℕ → Bool
is_due none now = false
is_due (some t) now = leb t now

-- `if step.compensates_step_id`, and the step found under it
abbrev pub source_of : List Step → Option String → Option (Option Step)
source_of steps none = none
source_of steps (some name) = if name == "" then none else some (by_id steps name)

-- A compensation step whose dependencies have succeeded.
abbrev pub prepare_compensation : Option (Option Step) → Prepared
prepare_compensation none = untouched
prepare_compensation (some none) =
    saved StepState.blocked (some "compensation source is missing") none
prepare_compensation (some (some source)) =
    if is_success source.status
    then saved StepState.cancelled (some "compensation was not needed") none
    else untouched

module _ (text_of : Option ℕ → String) where
  -- One round of the loop of `_prepare_non_tool_steps`
  unfoldable pub prepare : List Step → ℕ → Step → Prepared
  unfolding by_id kind_rank step_rank
  prepare steps now s =
      if not (is_idle s.status)
      then untouched
      else if not (all (is_known steps) s.depends_on)
      then unknown_dependency
      else if has_failed steps s && not (same_kind s.kind Kind.compensation)
      then saved StepState.blocked (some "dependency did not complete successfully") none
      else if not (is_unblocked steps s)
      then untouched
      else if is_waiting_kind s.kind
      then (if is_due s.not_before now
          then saved StepState.satisfied none (some ("time:" <> text_of s.not_before))
          else if same_step_state s.status StepState.waiting
          then untouched
          else saved StepState.waiting none none)
      else if is_asking_kind s.kind
      then (if same_step_state s.status StepState.paused
          then untouched
          else saved StepState.paused none none)
      else if same_kind s.kind Kind.compensation
      then prepare_compensation (source_of steps s.compensates_step_id)
      else untouched

-- Pending, leased or running.
abbrev pub is_startable : StepState → Bool
is_startable StepState.pending = true
is_startable StepState.leased = true
is_startable StepState.running = true
is_startable _ = false

-- `step.compensates_step_id or ""`
abbrev pub or_empty : Option String → String
or_empty none = ""
or_empty (some name) = name

-- `all(by_id[item].status in _SUCCESS_STATES ...)`: it stops at the first that has not succeeded, and
-- raises `KeyError` where it comes to one that is not there
unfoldable pub unblocked : List Step → List String → Option Bool
unblocked steps [] = some true
unblocked steps (name ∷ rest) = elim (by_id steps name) [
  | none ↦ none
  | some t ↦ elim (is_success t.status) [ true ↦ unblocked steps rest | false ↦ some false ]
]

-- For a compensation, the step that it makes good for has failed.
abbrev pub is_called_for : List Step → Step → Bool
is_called_for steps s =
    not (same_kind s.kind Kind.compensation)
    || holds (λ t. same_step_state t StepState.failed)
        (by_id steps (or_empty s.compensates_step_id))

-- The test of one step in `_ready_steps`, or a `KeyError`
unfoldable pub is_ready : List Step → Step → Option Bool
unfolding by_id unblocked kind_rank step_rank
is_ready steps s =
    if not (is_startable s.status) || not (is_executable s.kind)
    then some false
    else (elim (unblocked steps s.depends_on) [
      | none ↦ none
      | some false ↦ some false
      | some true ↦ some (is_called_for steps s)
    ])

-- `(item.order, item.id)`, not above
abbrev pub before : Step → Step → Bool
before a b =
    ltb a.order b.order
    || (eqb a.order b.order && (elim (String.compare a.id b.id) [ Ordering.gt ↦ false | _ ↦ true ]))

unfoldable pub insert_step : Step → List Step → List Step
insert_step s [] = s ∷ []
insert_step s (t ∷ rest) =
    let later = insert_step s rest in if before s t then s ∷ t ∷ rest else t ∷ later

-- `sorted`, which is stable: by insertion from the end
unfoldable pub sort_steps : List Step → List Step
unfolding insert_step
sort_steps [] = []
sort_steps (s ∷ rest) = insert_step s (sort_steps rest)

abbrev pub with_first : Bool → Step → Option (List Step) → Option (List Step)
with_first b s none = none
with_first b s (some others) = some (if b then s ∷ others else others)

unfoldable pub keep_ready : List Step → List Step → Option (List Step)
unfolding is_ready
keep_ready steps [] = some []
keep_ready steps (s ∷ rest) = elim (is_ready steps s) [
  | none ↦ none
  | some b ↦ with_first b s (keep_ready steps rest)
]

abbrev pub sorted : Option (List Step) → Option (List Step)
sorted none = none
sorted (some steps) = some (sort_steps steps)

-- `_ready_steps`, or a `KeyError`
unfoldable pub ready_steps : List Step → Option (List Step)
unfolding keep_ready sort_steps
ready_steps steps = sorted (keep_ready steps steps)

-- `step.resources or (f"plan:{step.plan_id}",)`
abbrev pub resources_of : Step → List String
resources_of s = elim s.resources [ [] ↦ ("plan:" <> s.plan_id) ∷ [] | r ∷ rs ↦ r ∷ rs ]

abbrev pub has : List String → String → Bool
has taken r = exists (λ t. t == r) taken

abbrev pub is_disjoint : List String → List String → Bool
is_disjoint taken rs = not (exists (has taken) rs)

-- The loop of `_next_wave`, with the resources taken so far
unfoldable pub pick : List String → List Step → List Step
pick taken [] = []
pick taken (c ∷ rest) = elim (c.parallel_safe && is_disjoint taken (resources_of c)) [
  | true ↦ c ∷ pick (resources_of c ++ taken) rest
  | false ↦ pick taken rest
]

-- `_next_wave`
unfoldable pub next_wave : List Step → List Step
unfolding pick
next_wave [] = []
next_wave (first ∷ rest) =
    if not first.parallel_safe then first ∷ [] else first ∷ pick (resources_of first) rest

abbrev pub is_unneeded : Step → Bool
is_unneeded s = same_kind s.kind Kind.compensation && same_step_state s.status StepState.cancelled

unfoldable pub required_steps : List Step → List Step
unfolding kind_rank step_rank
required_steps [] = []
required_steps (s ∷ rest) =
    let others = required_steps rest in if is_unneeded s then others else s ∷ others

abbrev pub is_nil {ℓ} : {A : Type ℓ} → List A → Bool
is_nil [] = true
is_nil (_ ∷ _) = false

abbrev pub some_in : StepState → List Step → Bool
some_in state steps = exists (λ (s : Step). same_step_state s.status state) steps

-- The state and the reason that `_set_plan_state` finds
unfoldable pub plan_state : List Step → PlanState × Option String
unfolding required_steps kind_rank step_rank
plan_state steps =
    if not (is_nil (required_steps steps))
      && all (λ (s : Step). is_success s.status) (required_steps steps)
    then (PlanState.satisfied, none)
    else if some_in StepState.blocked steps
    then (PlanState.blocked, some "one or more steps are blocked")
    else if some_in StepState.failed steps
        && not (
            exists
              (λ (s : Step).
                same_kind s.kind Kind.compensation && same_step_state s.status StepState.pending)
              (required_steps steps))
    then (PlanState.failed, some "one or more steps failed")
    else if some_in StepState.paused steps || some_in StepState.waiting steps
    then (PlanState.paused, some "waiting for time, an event, an answer, or approval")
    else (PlanState.active, none)

-- `resolve_step`: the step as it is saved, or an exception
unfoldable pub resolve :
    Step → Bool → (result : String) → (reason : Option String) → ℕ → Option Step
resolve s accepted result reason now =
    if not (is_asking_kind s.kind) then none else (elim s.status [
      | StepState.paused ↦ some (record s {
        status = if accepted then StepState.satisfied else StepState.failed;
        terminal_reason = reason;
        result_revision = if result == "" then s.result_revision else some result;
        updated_at = now;
      })
      | StepState.waiting ↦ some (record s {
        status = if accepted then StepState.satisfied else StepState.failed;
        terminal_reason = reason;
        result_revision = if result == "" then s.result_revision else some result;
        updated_at = now;
      })
      | _ ↦ none
    ])

-- `_save_step`
abbrev pub save_step : Step → StepState → (reason result : Option String) → ℕ → Step
save_step s state reason result now = record s {
  status = state;
  terminal_reason = reason;
  result_revision = or_else result s.result_revision;
  updated_at = now;
}

-- What a round of preparation leaves: the steps, whether it saved one, and whether it stopped at a
-- `KeyError`; what it saved before that stays.
pub record Round : Type 0 where
  pub steps : List Step
  pub changed : Bool
  pub stopped : Bool

abbrev pub kept_first : Step → Round → Round
kept_first s r = record r { steps = s ∷ r.steps }

abbrev pub saved_first : Step → Round → Round
saved_first s r = record { steps = s ∷ r.steps; changed = true; stopped = r.stopped }

-- How the rounds end: with no tries left, in a round that raised, on the steps it had read and with
-- those it left, or in a round that changed nothing.
pub data Ended : Type 0 where
  out_of_tries : Ended
  raised : (read left : List Step) → Ended
  settled : (left : List Step) → Ended

module _ (text_of : Option ℕ → String) where
  -- `_prepare_non_tool_steps`, of the rest of the steps: each is judged by the steps that were read and
  -- the one reading of the clock, and each save takes a reading of its own
  unfoldable pub prepare_rest : List Step → ℕ → (ℕ → ℕ) → List Step → Round
  unfolding prepare
  prepare_rest steps now later [] = record { steps = []; changed = false; stopped = false }
  prepare_rest steps now later (s ∷ rest) = elim (prepare text_of steps now s) [
    | untouched ↦ kept_first s (prepare_rest steps now later rest)
    | unknown_dependency ↦ record { steps = s ∷ rest; changed = false; stopped = true }
    | saved state reason result ↦
        saved_first (save_step s state reason result (later 0))
          (prepare_rest steps now (λ n. later (suc n)) rest)
  ]

  -- One round, with its readings of the clock
  abbrev pub round : (ℕ → ℕ) → List Step → Round
  round readings steps = prepare_rest steps (readings 0) (λ n. readings (suc n)) steps

  -- The `continue` of `run` after a change, on steps that nobody else writes; the clock gives the
  -- readings of each round
  unfoldable pub prepare_all : ℕ → (ℕ → ℕ → ℕ) → List Step → Ended
  unfolding prepare_rest
  prepare_all zero clock steps = out_of_tries
  prepare_all (suc fuel) clock steps =
      let r = round (clock 0) steps in
      elim r.stopped [
        | true ↦ raised steps r.steps
        | false ↦ elim r.changed [
          | true ↦ prepare_all fuel (λ n. clock (suc n)) r.steps
          | false ↦ settled steps
        ]
      ]

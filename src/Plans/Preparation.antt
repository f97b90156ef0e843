-- ===== src/Plans/Preparation.antt =====
-- What the runner does to steps that need no executor, and that it comes to an end
-- (src/nova_voice/durable/runner.py, `_prepare_non_tool_steps`).
use nova_voice.Base.{
  ap, subst, ◌⊎◌, ℕ, zero, suc, ◌+◌, ◌≤◌, ◌<◌, ◌≡◌, ◌≢◌, refl, inl, inr, String, Bool, true, false,
  not, ◌&&◌, Option, none, some, List, [], ◌∷◌, length, if◌then◌else◌, arith, Bool-cases,
}
use nova_voice.Plans.Records.{Kind, kind_rank, StepState, step_rank, same_step_state, Step}
use nova_voice.Plans.Runner.{
  all, is_known, is_unblocked, Prepared, untouched, unknown_dependency, saved, is_waiting_kind,
  is_asking_kind, is_idle, is_due, source_of, prepare_compensation, prepare, save_step, Round,
  kept_first, saved_first, prepare_rest, Ended, out_of_tries, raised, settled, round, prepare_all,
}

-- How often the preparation can still save a step: a timer waits and is then satisfied, a question
-- is paused once, and any step may be blocked or, for a compensation, cancelled.
abbrev pub saves_left : Kind → StepState → ℕ
saves_left kind state =
    if not (is_idle state)
    then 0
    else if is_waiting_kind kind && same_step_state state StepState.waiting
    then 1
    else if is_asking_kind kind && same_step_state state StepState.paused
    then 1
    else 2

abbrev pub total_left : List Step → ℕ
total_left [] = 0
total_left (s ∷ rest) = saves_left s.kind s.status + total_left rest

prepare_compensation-keeps :
    (o : Option (Option Step)) (reason result : Option String)
    → prepare_compensation o ≢ saved StepState.satisfied reason result
prepare_compensation-keeps none reason result h = cc (h)
prepare_compensation-keeps (some none) reason result h = ground arith
prepare_compensation-keeps (some (some source)) reason result h = ground arith

prepare_compensation-knows :
    (o : Option (Option Step)) → prepare_compensation o ≢ unknown_dependency
prepare_compensation-knows none h = cc (h)
prepare_compensation-knows (some none) h = cc (h)
prepare_compensation-knows (some (some source)) h = ground arith

Prepared-cases :
    (p : Prepared)
    → (p ≡ untouched)
      ⊎ ((p ≡ unknown_dependency)
          ⊎ ((state : StepState) × (reason : Option String) × (result : Option String) × (p
                ≡ saved state reason result)))
Prepared-cases untouched = inl refl
Prepared-cases unknown_dependency = inr (inl refl)
Prepared-cases (saved state reason result) = inr (inr (state, reason, result, refl))

both_false : (a : Bool) {b : Bool} → b ≡ false → a && b ≡ false
both_false a h = ground arith

module _ (text_of : Option ℕ → String) where
  -- What one save leaves.
  abbrev pub Fewer : Step → Prepared → Type 0
  Fewer s untouched = Unit
  Fewer s unknown_dependency = Unit
  Fewer s (saved state reason result) = saves_left s.kind state < saves_left s.kind s.status

  prepare_compensation-Fewer :
      (s : Step) (o : Option (Option Step))
      → is_idle s.status ≡ true
      → is_waiting_kind s.kind ≡ false
      → is_asking_kind s.kind ≡ false
      → Fewer s (prepare_compensation o)
  prepare_compensation-Fewer s none i w a = tt
  prepare_compensation-Fewer s (some none) i w a = ground arith
  prepare_compensation-Fewer s (some (some source)) i w a = ground arith

  prepare-Fewer : (steps : List Step) (now : ℕ) (s : Step) → Fewer s (prepare text_of steps now s)
  unfolding prepare step_rank kind_rank
  prepare-Fewer steps now s =
      ground (arith, prepare_compensation-Fewer s (source_of steps s.compensates_step_id))

  -- What one round leaves of the saves that are left.
  abbrev pub Spent : Round → List Step → Type 0
  Spent r rest = total_left r.steps + (if r.changed then 1 else 0) ≤ total_left rest

  kept_first-Spent :
      (s : Step) (r : Round) (rest : List Step) → Spent r rest → Spent (kept_first s r) (s ∷ rest)
  kept_first-Spent s r rest h = omega arith

  saved_first-Spent :
      (s s' : Step) (r : Round) (rest : List Step)
      → saves_left s'.kind s'.status < saves_left s.kind s.status
      → Spent r rest
      → Spent (saved_first s' r) (s ∷ rest)
  saved_first-Spent s s' r rest l h = ground arith

  prepare_rest-Spent :
      (steps : List Step) (now : ℕ) (later : ℕ → ℕ) (rest : List Step)
      → Spent (prepare_rest text_of steps now later rest) rest
  unfolding prepare_rest
  prepare_rest-Spent steps now later [] = omega arith
  prepare_rest-Spent steps now later (s ∷ rest) =
      let few = prepare-Fewer steps now s in
      elim (Prepared-cases (prepare text_of steps now s)) [
        | inl e ↦
            rw (prepare_rest, e)
              (kept_first-Spent s (prepare_rest text_of steps now later rest) rest
                (prepare_rest-Spent steps now later rest))
        | inr (inl e) ↦ rw (prepare_rest, e) (omega arith)
        | inr (inr (state, reason, result, e)) ↦
            rw (prepare_rest, e)
              (saved_first-Spent s (save_step s state reason result (later 0))
                (prepare_rest text_of steps now (λ n. later (suc n)) rest) rest
                (subst (Fewer s) e few) (prepare_rest-Spent steps now (λ n. later (suc n)) rest))
      ]

  prepare-unknown :
      (steps : List Step) (now : ℕ) (s : Step)
      → prepare text_of steps now s ≡ unknown_dependency
      → all (is_known steps) s.depends_on ≡ false
  unfolding prepare
  prepare-unknown steps now s h =
      ground (arith, prepare_compensation-knows (source_of steps s.compensates_step_id))

  -- What a round makes of its first step.
  abbrev first_round : List Step → ℕ → (ℕ → ℕ) → Step → List Step → Prepared → Round
  first_round steps now later s rest untouched =
      kept_first s (prepare_rest text_of steps now later rest)
  first_round steps now later s rest unknown_dependency = record {
    steps = s ∷ rest;
    changed = false;
    stopped = true;
  }
  first_round steps now later s rest (saved state reason result) =
      saved_first (save_step s state reason result (later 0))
        (prepare_rest text_of steps now (λ n. later (suc n)) rest)

  prepare_rest-stopped :
      (steps : List Step) (now : ℕ) (later : ℕ → ℕ) (rest : List Step)
      → (prepare_rest text_of steps now later rest).stopped ≡ true
      → all (λ (s : Step). all (is_known steps) s.depends_on) rest ≡ false
  unfolding prepare_rest
  prepare_rest-stopped steps now later [] h = cc (h)
  prepare_rest-stopped steps now later (s ∷ rest) h =
      elim (Prepared-cases (prepare text_of steps now s)) [
        | inl e ↦ both_false (all (is_known steps) s.depends_on) (
            prepare_rest-stopped steps now later rest
              (subst (λ p. (first_round steps now later s rest p).stopped ≡ true) e h))
        | inr (inl e) ↦ rw (prepare-unknown steps now s e) refl
        | inr (inr (state, reason, result, e)) ↦ both_false (all (is_known steps) s.depends_on) (
            prepare_rest-stopped steps now (λ n. later (suc n)) rest
              (subst (λ p. (first_round steps now later s rest p).stopped ≡ true) e h))
      ]

  prepare_rest-still :
      (steps : List Step) (now : ℕ) (later : ℕ → ℕ) (rest : List Step)
      → (prepare_rest text_of steps now later rest).stopped ≡ false
      → (prepare_rest text_of steps now later rest).changed ≡ false
      → prepare_rest text_of steps now later rest
        ≡ record { steps = rest; changed = false; stopped = false }
  unfolding prepare_rest
  prepare_rest-still steps now later [] h k = refl
  prepare_rest-still steps now later (s ∷ rest) h k =
      elim (Prepared-cases (prepare text_of steps now s)) [
        | inl e ↦
            rw (prepare_rest, e)
              (ap (kept_first s) (
                prepare_rest-still steps now later rest
                  (subst (λ p. (first_round steps now later s rest p).stopped ≡ false) e h)
                  (subst (λ p. (first_round steps now later s rest p).changed ≡ false) e k)))
        | inr (inl e) ↦ absurd (
            let t = subst (λ p. (first_round steps now later s rest p).stopped ≡ false) e h in
            (cc (t)))
        | inr (inr (state, reason, result, e)) ↦ absurd (
            let t = subst (λ p. (first_round steps now later s rest p).changed ≡ false) e k in
            (cc (t)))
      ]

  -- The rounds came to rest, or to a `KeyError`.
  abbrev pub IsOver : (ℕ → ℕ → ℕ) → Ended → Type 0
  IsOver clock out_of_tries = ⊥
  IsOver clock (raised read left) =
      all (λ (s : Step). all (is_known read) s.depends_on) read ≡ false
  IsOver clock (settled left) =
      (n : ℕ) × (round text_of (clock n) left
        ≡ record { steps = left; changed = false; stopped = false })

  next_IsOver : (clock : ℕ → ℕ → ℕ) (e : Ended) → IsOver (λ n. clock (suc n)) e → IsOver clock e
  next_IsOver clock out_of_tries h = h
  next_IsOver clock (raised read left) h = h
  next_IsOver clock (settled left) h = (suc h.0, h.1)

  -- The rounds of preparation, of steps that nobody else writes, end, whatever the clock reads: with
  -- more tries than saves left, and there are two saves at most for each step, they end in a round that
  -- leaves every step as it is, or in one that raises, and then a step of those that were read depends
  -- on one that is not among them.
  pub prepare_all_ends :
      (fuel : ℕ) (clock : ℕ → ℕ → ℕ) (steps : List Step)
      → total_left steps < fuel
      → IsOver clock (prepare_all text_of fuel clock steps)
  unfolding prepare_all
  prepare_all_ends zero clock steps h = absurd (omega arith)
  prepare_all_ends (suc fuel) clock steps h =
      let r = round text_of (clock 0) steps in
      let spent = prepare_rest-Spent steps (clock 0 0) (λ n. clock 0 (suc n)) steps in
      elim (Bool-cases r.stopped) [
        | inl e ↦
            rw (prepare_all, e)
              (prepare_rest-stopped steps (clock 0 0) (λ n. clock 0 (suc n)) steps e)
        | inr e ↦ elim (Bool-cases r.changed) [
          | inl c ↦
              rw (prepare_all, e, c)
                (next_IsOver clock (prepare_all text_of fuel (λ n. clock (suc n)) r.steps)
                  (prepare_all_ends fuel (λ n. clock (suc n)) r.steps (ground arith)))
          | inr c ↦
              rw (prepare_all, e, c)
                (0, prepare_rest-still steps (clock 0 0) (λ n. clock 0 (suc n)) steps e c)
        ]
      ]

  -- Without an answer or an executor a step is satisfied only by time: it waits for an instant that has
  -- come, and all that it depends on has succeeded.
  prepare_satisfies_timers :
      (steps : List Step) (now : ℕ) (s : Step) (reason result : Option String)
      → prepare text_of steps now s ≡ saved StepState.satisfied reason result
      → (is_waiting_kind s.kind ≡ true)
        × (is_due s.not_before now ≡ true)
        × (is_unblocked steps s ≡ true)
  unfolding prepare step_rank kind_rank
  prepare_satisfies_timers steps now s reason result h =
      ground
        (arith, prepare_compensation-keeps (source_of steps s.compensates_step_id) reason result)

-- Two saves at most for each step.
pub total_left-le : (steps : List Step) → total_left steps ≤ length steps + length steps
total_left-le [] = omega arith
total_left-le (s ∷ rest) = ground (arith, total_left-le rest)

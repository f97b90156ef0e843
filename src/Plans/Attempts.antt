-- ===== src/Plans/Attempts.antt =====
-- What holds of one step and its execution over any calls of the store and the runner
-- (src/nova_voice/durable/store.py).
use nova_voice.Base.{
  ℕ, ◌+◌, ◌≤◌, ◌<◌, ◌≡◌, ◌≢◌, refl, apart, String, Bool, true, false, not, ◌&&◌, ◌||◌, ltb, leb,
  Option, none, some, List, [], ◌∷◌, All, ◌==◌, eq_refl, eq_iff, arith, or_else, subst,
}
use nova_voice.Plans.Records.{StepState, Step, Execution, is_success}
use nova_voice.Plans.Lease.{
  is_succeeded, is_open, Grant, refused, done, granted, Bid, acquire, mark_running, Report,
  step_state, Completion, unavailable, already, completed, complete, terminate,
}

-- A step with the execution under its key.
pub record Pair : Type 0 where
  pub step : Step
  pub execution : Option Execution

-- A call of a worker, of the runner or of whoever ends the plan.
pub data Call : Type 0 where
  bid : (b : Bid) → Call
  begin : (token : String) (now : ℕ) → Call
  report : (r : Report) → Call
  end : (status : StepState) (reason : String) (now : ℕ) → Call
  save : (status : StepState) (reason result : Option String) (now : ℕ) → Call

abbrev pub with_execution : Pair → (Execution → Pair) → Pair
with_execution p f = elim p.execution [ none ↦ p | some e ↦ f e ]

abbrev pub after_grant : Pair → Grant → Pair
after_grant p refused = p
after_grant p (done e) = p
after_grant p (granted e s) = record { step = s; execution = some e }

abbrev pub after_completion : Pair → Completion → Pair
after_completion p unavailable = p
after_completion p already = p
after_completion p (completed e s) = record { step = s; execution = some e }

abbrev pub after_begin : Pair → Option (Execution × Step) → Pair
after_begin p none = p
after_begin p (some (e, s)) = record { step = s; execution = some e }

unfoldable pub serve : String → Call → Pair → Pair
unfolding acquire mark_running complete terminate
serve key (bid b) p = after_grant p (acquire p.step p.execution key b)
serve key (begin token now) p =
    with_execution p (λ e. after_begin p (mark_running e p.step token now))
serve key (report r) p = with_execution p (λ e. after_completion p (complete e p.step r))
serve key (end status reason now) p = record p { step = terminate p.step status reason now }
serve key (save status reason result now) p = record p {
  step = record p.step {
    status = status;
    terminal_reason = reason;
    result_revision = or_else result p.step.result_revision;
    updated_at = now;
  };
}

unfoldable pub serve_all : String → List Call → Pair → Pair
unfolding serve
serve_all key [] p = p
serve_all key (c ∷ cs) p = serve_all key cs (serve key c p)

abbrev pub is_granted : Grant → ℕ
is_granted (granted e s) = 1
is_granted _ = 0

unfoldable pub grants_of : String → Call → Pair → ℕ
unfolding acquire
grants_of key (bid b) p = is_granted (acquire p.step p.execution key b)
grants_of key _ p = 0

-- How many leases the calls grant.
unfoldable pub grants : String → List Call → Pair → ℕ
unfolding grants_of serve
grants key [] p = 0
grants key (c ∷ cs) p = grants_of key c p + grants key cs (serve key c p)

-- The attempts made so far.
abbrev pub attempts : Pair → ℕ
attempts p = elim p.execution [ none ↦ p.step.attempt | some e ↦ e.attempt ]

-- Whether a lease runs at an instant.
abbrev pub runs_at : Pair → ℕ → Bool
runs_at p now = elim p.execution [
  | none ↦ false
  | some e ↦ is_open e.status && ltb now e.lease_expires_at
]

abbrev pub has_succeeded : Pair → Bool
has_succeeded p = elim p.execution [ none ↦ false | some e ↦ is_succeeded e.status ]

abbrev pub is_refused : Grant → Bool
is_refused refused = true
is_refused _ = false

module _ (key : String) where
  serve-attempts :
      (c : Call) (p : Pair)
      → attempts p ≤ p.step.max_attempts
      → (attempts p + grants_of key c p ≡ attempts (serve key c p))
        × (attempts (serve key c p) ≤ p.step.max_attempts)
        × ((serve key c p).step.max_attempts ≡ p.step.max_attempts)
  unfolding serve grants_of acquire mark_running complete terminate
  serve-attempts (bid b) p h = ground arith
  serve-attempts c p h = ground arith

  refusal :
      (p : Pair) (b : Bid)
      → is_refused (acquire p.step p.execution key b)
        ≡ (runs_at p b.now || (not (has_succeeded p) && leb p.step.max_attempts (attempts p)))
  unfolding acquire
  refusal p b = ground arith

  -- Whatever is called, every lease that is granted is one attempt on record, and there are no more
  -- attempts than the step allows; and afterwards a bid is refused exactly when a lease still runs, or
  -- when all the attempts are used and none has succeeded.
  pub grants-attempts :
      (cs : List Call) (p : Pair) (b : Bid)
      → attempts p ≤ p.step.max_attempts
      → (let end = serve_all key cs p in
          (attempts p + grants key cs p ≡ attempts end)
          × (attempts end ≤ p.step.max_attempts)
          × (is_refused (acquire end.step end.execution key b) ≡ (
              runs_at end b.now
              || (not (has_succeeded end) && leb p.step.max_attempts (attempts end)))))
  unfolding grants serve_all
  grants-attempts [] p b h = (omega arith, h, refusal p b)
  grants-attempts (c ∷ cs) p b h =
      let (more, bound, same) = serve-attempts c p h in
      let (counted, within, refused_when) = grants-attempts cs (serve key c p) b (rw same bound) in
      let end = serve_all key cs (serve key c p) in
      (
        omega arith,
        subst (λ m. attempts end ≤ m) same within,
        subst
            (λ m.
              is_refused (acquire end.step end.execution key b)
              ≡ (runs_at end b.now || (not (has_succeeded end) && leb m (attempts end))))
            same refused_when,
      )

-- An execution that is there.
abbrev pub Has : (Execution → Type 0) → Option Execution → Type 0
Has P none = ⊥
Has P (some e) = P e

-- Leased or running under a token, up to an instant.
abbrev pub Held : String → ℕ → Execution → Type 0
Held token until e =
    (is_open e.status ≡ true) × (e.lease_token ≡ token) × (e.lease_expires_at ≡ until)

-- A call other than the holder's report, by a clock that has not passed the lease.
abbrev pub WithinLease : String → ℕ → Call → Type 0
WithinLease token until (bid b) = b.now < until
WithinLease token until (report r) = r.token ≢ token
WithinLease token until _ = Unit

-- A call other than marking an execution as running.
abbrev pub NoBegin : Call → Type 0
NoBegin (begin token now) = ⊥
NoBegin _ = Unit

module _ (key token : String) (until : ℕ) where
  report-Held :
      (r : Report) (s : Step) (o : Option Execution)
      → r.token ≢ token
      → Has (Held token until) o
      → Has
          (Held token until)
          (with_execution
            (record { step = s; execution = o })
            (λ e. after_completion (record { step = s; execution = o }) (complete e s r))).execution
  unfolding complete
  report-Held r s none w h = elim h [ ]
  report-Held r s (some e) w h =
      let other : (e.lease_token == r.token) ≡ false = apart e.lease_token r.token (rw h.1 w) in
      rw (complete, other) h

  serve-Held :
      (c : Call) (p : Pair)
      → WithinLease token until c
      → Has (Held token until) p.execution
      → Has (Held token until) (serve key c p).execution × (grants_of key c p ≡ 0)
  unfolding serve grants_of acquire mark_running complete terminate
  serve-Held (bid b) p w h = ground (arith)
  serve-Held (report r) p w h = (report-Held r p.step p.execution w h, refl)
  serve-Held c p w h = ground (arith)

  -- While a lease runs and its holder has not reported, no other is granted and the holder keeps it.
  pub lease_is_exclusive :
      (cs : List Call) (p : Pair)
      → All (WithinLease token until) cs
      → Has (Held token until) p.execution
      → Has (Held token until) (serve_all key cs p).execution × (grants key cs p ≡ 0)
  unfolding serve_all grants
  lease_is_exclusive [] p w h = (h, refl)
  lease_is_exclusive (c ∷ cs) p w h =
      let (h', g) = serve-Held c p w.0 h in
      let (h'', gs) = lease_is_exclusive cs (serve key c p) w.1 h' in (h'', omega arith)

module _ (key : String) (e : Execution) where
  serve-succeeded :
      (c : Call) (p : Pair)
      → NoBegin c
      → p.execution ≡ some e
      → is_succeeded e.status ≡ true
      → ((serve key c p).execution ≡ some e) × (grants_of key c p ≡ 0)
  unfolding serve grants_of acquire complete terminate
  serve-succeeded (bid b) p n h s = ground arith
  serve-succeeded (report r) p n h s = ground arith
  serve-succeeded (end status reason now) p n h s = ground arith
  serve-succeeded (save status reason result now) p n h s = ground arith
  serve-succeeded (begin token now) p n h s = elim n [ ]

  -- Once an execution has succeeded, it stays and no lease is granted any more, whatever is called
  -- other than marking it as running.
  success_is_final :
      (cs : List Call) (p : Pair)
      → All NoBegin cs
      → p.execution ≡ some e
      → is_succeeded e.status ≡ true
      → ((serve_all key cs p).execution ≡ some e) × (grants key cs p ≡ 0)
  unfolding serve_all grants
  success_is_final [] p n h s = (h, refl)
  success_is_final (c ∷ cs) p n h s =
      let (h', g) = serve-succeeded c p n.0 h s in
      let (h'', gs) = success_is_final cs (serve key c p) n.1 h' s in (h'', omega arith)

-- Acquisitions, at any time, and starts under a lease that has passed.
abbrev pub Retried : ℕ → Call → Type 0
Retried until (bid b) = Unit
Retried until (begin token now) = until ≤ now
Retried until _ = ⊥

module _ (key : String) (e : Execution) (p : Pair) (h : p.execution ≡ some e)
    (lost : is_succeeded e.status ≡ false) (spent : p.step.max_attempts ≤ e.attempt) where
  serve-lost : (c : Call) → Retried e.lease_expires_at c → serve key c p ≡ p
  unfolding serve acquire mark_running
  serve-lost (bid b) r = ground arith
  serve-lost (begin token now) r = ground arith
  serve-lost (report x) r = elim r [ ]
  serve-lost (end status reason now) r = elim r [ ]
  serve-lost (save status reason result now) r = elim r [ ]

  -- Where the worker of the last attempt is lost before it reports, no acquisition gets a lease, and no
  -- start under the old one goes through once it has passed: the step stays as it is.
  pub lost_worker_wedges :
      (cs : List Call) → All (Retried e.lease_expires_at) cs → serve_all key cs p ≡ p
  unfolding serve_all
  lost_worker_wedges [] r = refl
  lost_worker_wedges (c ∷ cs) r = rw (serve-lost c r.0) (lost_worker_wedges cs r.1)

-- A step that is cancelled after the runner has listed it is leased, run and recorded as satisfied all
-- the same.
cancelled_step_runs :
    (key reason : String) (p : Pair) (now begun : ℕ) (b : Bid) (r : Report)
    → p.step.status ≡ StepState.pending
    → p.execution ≡ none
    → p.step.attempt < p.step.max_attempts
    → begun < b.now + b.lease
    → r.token ≡ b.token
    → r.ok ≡ true
    → is_success
        (serve_all key
          (end StepState.cancelled reason now ∷ bid b ∷ begin b.token begun ∷ report r ∷ [])
          p).step.status
      ≡ true
unfolding serve_all serve acquire mark_running complete terminate step_state
cancelled_step_runs key reason p now begun b r st ex att live tok ok =
    ground (arith, eq_refl b.token, eq_iff b.token r.token)

-- ===== src/Job/Careful.antt =====
-- The attempts that an end of a job closes or leaves open.
use nova_voice.Base.{
  ℕ, ◌≤◌, String, ◌≡◌, Bool, true, false, not, ◌&&◌, ◌||◌, Option, none, some, List, [], ◌∷◌, arith,
  is_some, ◌==◌,
}
use nova_voice.Job.Record.{
  State, queued, rejected, timeout, disconnected, AttemptOutcome, JobRecord,
}
use nova_voice.Job.Attempts.{last_open, end_if_given, present, owns, is_terminal}
use nova_voice.Job.History
use nova_voice.Job.History.{open_count}
use nova_voice.Job.Events.{Event, run, result, Delivery, run_all}
use nova_voice.Job.Settled.{run_all_settled}
use nova_voice.Job.Ownership.{IsHeld, run-IsHeld, is_device, end_attempt-closes, end_current-closes}

-- Whether an end that names this attempt leaves no attempt open.
abbrev pub names_holder : JobRecord → Option String → Bool
names_holder r none = not (is_some (last_open r.attempts))
names_holder r (some n) = not (n == "") && owns r n || not (is_some (last_open r.attempts))

-- An end that is given the attempt to close, if one is open.
abbrev pub is_careful : JobRecord → Event → Bool
is_careful r (Event.complete none _) = names_holder r none
is_careful r (Event.complete (some n) _) = not (n == "")
is_careful r (Event.fall_back _ n) = names_holder r n
is_careful r (Event.fail _ _ n) = names_holder r n
is_careful r _ = true

abbrev pub AllCareful : List Delivery → JobRecord → Type 0
AllCareful [] r = Unit
AllCareful (d ∷ ds) r =
    (is_careful r d.event ≡ true) × AllCareful ds (result r (run d.event d.t1 d.t2 r))

-- Held, and with an open attempt only while a device works on the job.
pub record IsTidy (r : JobRecord) : Type 0 where
  pub held : IsHeld r
  pub closed : is_device r.status ≡ false → open_count r.attempts ≡ 0

ends_closed :
    (r : JobRecord) (o : AttemptOutcome) (d : Option String) (t : ℕ) (n : Option String)
    → open_count r.attempts ≤ 1
    → names_holder r n ≡ true
    → open_count (end_if_given r.attempts (present n) o d t) ≡ 0
unfolding end_if_given present owns
ends_closed r o d t none le c = ground (arith, History.open_count-zero r.attempts)
ends_closed r o d t (some n) le c = ground (
  arith,
  History.open_count-zero r.attempts,
  end_attempt-closes o d t r.attempts n,
  History.open_count-end_attempt_le n o d t r.attempts,
)

run_closed :
    (e : Event) (t1 t2 : ℕ) (r : JobRecord)
    → is_careful r e ≡ true
    → IsTidy r
    → is_device (result r (run e t1 t2 r)).status ≡ false
    → open_count (result r (run e t1 t2 r)).attempts ≡ 0
unfolding run
run_closed (Event.offer n s l d) t1 t2 r c h = ground arith
run_closed (Event.reject n reason) t1 t2 r c h =
    ground (arith, end_attempt-closes rejected (some reason) t1 r.attempts n)
run_closed (Event.complete none reference) t1 t2 r c h =
    ground (arith, ends_closed r AttemptOutcome.completed none t1 none)
run_closed (Event.complete (some n) reference) t1 t2 r c h =
    ground (arith, ends_closed r AttemptOutcome.completed none t1 (some n))
run_closed (Event.fall_back reason n) t1 t2 r c h =
    ground (arith, ends_closed r AttemptOutcome.failed (some reason) t1 n)
run_closed (Event.fail code d n) t1 t2 r c h =
    ground (arith, ends_closed r AttemptOutcome.failed d t1 n)
run_closed (Event.cancel reason) t1 t2 r c h =
    ground (arith, end_current-closes AttemptOutcome.cancelled (some reason) t1 r)
run_closed Event.expire t1 t2 r c h =
    ground (arith, end_current-closes timeout (some "deadline elapsed") t1 r)
run_closed (Event.reclaim now) t1 t2 r c h =
    ground (arith, end_current-closes disconnected (some "lease expired") t1 r)
run_closed _ t1 t2 r c h = ground arith

terminal_not_device : (s : State) → is_terminal s ≡ true → is_device s ≡ false
unfolding is_terminal
terminal_not_device queued h = ground arith
terminal_not_device _ h = ground arith

run-IsTidy :
    (e : Event) (t1 t2 : ℕ) (r : JobRecord)
    → is_careful r e ≡ true
    → IsTidy r
    → IsTidy (result r (run e t1 t2 r))
run-IsTidy e t1 t2 r c h = record {
  held = run-IsHeld e t1 t2 r h.held;
  closed = run_closed e t1 t2 r c h;
}

run_all-IsTidy :
    (ds : List Delivery) (r : JobRecord) → AllCareful ds r → IsTidy r → IsTidy (run_all ds r)
unfolding run_all
run_all-IsTidy [] r c h = h
run_all-IsTidy (d ∷ ds) r c h =
    run_all-IsTidy ds (result r (run d.event d.t1 d.t2 r)) c.1
      (run-IsTidy d.event d.t1 d.t2 r c.0 h)

-- While every end names the attempt that it closes, a job that has come to a terminal state is
-- final: whatever operations follow, careful or not, leave the record as it is.
pub careful_terminal_final :
    (before after : List Delivery) (r : JobRecord)
    → IsTidy r
    → AllCareful before r
    → is_terminal (run_all before r).status ≡ true
    → run_all after (run_all before r) ≡ run_all before r
careful_terminal_final before after r h c e = run_all_settled after (run_all before r) (record {
  ended = e;
  closed =
      History.last_open-none _ ((run_all-IsTidy before r c h).closed (terminal_not_device _ e));
})

-- A job that a device runs and that is completed with no attempt named is terminal, yet the
-- device's rejection, when it arrives after, puts the completed job back on the queue.
pub late_reject_reopens :
    (r : JobRecord) (n reason reference : String) (t1 t2 t3 t4 : ℕ)
    → r.status ≡ State.running
    → owns r n ≡ true
    → let done = result r (run (Event.complete none reference) t1 t2 r) in
      let again = result done (run (Event.reject n reason) t3 t4 done) in
      (is_terminal done.status ≡ true)
      × (again.status ≡ queued)
      × (again.result_ref ≡ some reference)
unfolding run
late_reject_reopens r n reason reference t1 t2 t3 t4 e o = ground arith

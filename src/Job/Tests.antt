-- ===== src/Job/Tests.antt =====
-- Runs of a job, and the theorems about jobs at concrete ones.
use nova_voice.Base.{ℕ, ◌≡◌, refl, true, none, some, List, [], ◌∷◌, arith}
use nova_voice.Job.Record.{State, queued, JobRecord}
use nova_voice.Job.Attempts.{is_terminal, owns}
use nova_voice.Job.Validators.{valid}
use nova_voice.Job.History
use nova_voice.Job.Samples.{fresh}
use nova_voice.Job.Events.{
  Event, offer, accept, start, progress, complete, fall_back, reject, run, result, Delivery,
  run_all,
}
use nova_voice.Job.Settled.{IsSettled, run_all_settled}
use nova_voice.Job.Validity.{IsConsistent, run_all-IsConsistent}
use nova_voice.Job.Ownership.{IsHeld, run_all-IsHeld}
use nova_voice.Job.Finish.{IsHandedOver, run_all-IsHandedOver}
use nova_voice.Job.Careful.{IsTidy, AllCareful, careful_terminal_final, late_reject_reopens}

abbrev at_time : ℕ → Event → Delivery
at_time t e = record { event = e; t1 = t; t2 = t }

-- Offered, accepted, started.
abbrev to_running : List Delivery
to_running =
    at_time 20 (offer "a1" "s1" 100 none) ∷ at_time 21 (accept "a1") ∷ at_time 22 (start "a1") ∷ []

abbrev to_completed : List Delivery
to_completed =
    at_time 20 (offer "a1" "s1" 100 none)
    ∷ at_time 21 (accept "a1")
    ∷ at_time 22 (start "a1")
    ∷ at_time 23 (progress "a1" "half" (some 500000) none (some 100))
    ∷ at_time 30 (complete (some "a1") "result")
    ∷ []

abbrev late : List Delivery
late = at_time 31 (reject "a1" "busy") ∷ at_time 32 (complete (some "a1") "again") ∷ []

run_completed : (run_all to_completed fresh).status ≡ State.completed
unfolding run_all
run_completed = refl

offered_job : JobRecord
offered_job = result fresh (run (offer "a1" "s1" 100 none) 20 20 fresh)

finished-IsSettled : IsSettled (run_all to_completed fresh)
unfolding run_all
finished-IsSettled = record { ended = refl; closed = refl }

run_all_settled_example : run_all late (run_all to_completed fresh) ≡ run_all to_completed fresh
run_all_settled_example = run_all_settled late (run_all to_completed fresh) finished-IsSettled

fresh-IsConsistent : IsConsistent 10 fresh
unfolding valid History.started_by
fresh-IsConsistent = record { valid_now = refl; updated = omega arith; started = refl }

run_all-IsConsistent_example : IsConsistent 30 (run_all to_completed fresh)
run_all-IsConsistent_example =
    run_all-IsConsistent to_completed 10 fresh (omega arith) fresh-IsConsistent

fresh-IsHeld : IsHeld fresh
unfolding History.open_count
fresh-IsHeld = record {
  one_open = omega arith;
  none_queued = λ _. refl;
  leased = refl;
  whole = refl;
  holder = λ e. cc;
}

run_all-IsHeld_example : IsHeld (run_all to_completed fresh)
run_all-IsHeld_example = run_all-IsHeld to_completed fresh fresh-IsHeld

abbrev to_local : List Delivery
to_local =
    at_time 20 (offer "a1" "s1" 100 none) ∷ at_time 21 (fall_back "declined" (some "a1")) ∷ []

local-IsHandedOver : IsHandedOver (run_all to_local fresh)
unfolding run_all History.open_count
local-IsHandedOver = record { stage = refl; flagged = refl; unleased = (refl, refl); closed = refl }

run_all-IsHandedOver_example : IsHandedOver (run_all late (run_all to_local fresh))
run_all-IsHandedOver_example = run_all-IsHandedOver late (run_all to_local fresh) local-IsHandedOver

fresh-IsTidy : IsTidy fresh
unfolding History.open_count
fresh-IsTidy = record { held = fresh-IsHeld; closed = λ _. refl }

completed-AllCareful : AllCareful to_completed fresh
unfolding run
completed-AllCareful = (refl, (refl, (refl, (refl, (refl, tt)))))

careful_terminal_final_example :
    run_all late (run_all to_completed fresh) ≡ run_all to_completed fresh
careful_terminal_final_example =
    careful_terminal_final to_completed late fresh fresh-IsTidy completed-AllCareful
      (unfold run_all is_terminal in refl)

running_job : JobRecord
running_job = run_all to_running fresh

running_owned : (running_job.status ≡ State.running) × (owns running_job "a1" ≡ true)
unfolding running_job run_all owns
running_owned = (refl, refl)

late_reject_reopens_example :
    let done = result running_job (run (complete none "answer") 40 41 running_job) in
    let again = result done (run (reject "a1" "busy") 42 43 done) in
    (is_terminal done.status ≡ true) × (again.status ≡ queued) × (again.result_ref ≡ some "answer")
late_reject_reopens_example =
    late_reject_reopens running_job "a1" "busy" "answer" 40 41 42 43 running_owned.0 running_owned.1

-- ===== src/Job/Settled.antt =====
-- Finished jobs stay finished.
use nova_voice.Base.{ℕ, ◌≡◌, refl, true, none, List, [], ◌∷◌, arith, ap, ◌∙◌}
use nova_voice.Job.Record.{JobRecord}
use nova_voice.Job.Attempts.{is_terminal, last_open}
use nova_voice.Job.Events.{Event, run, result, Delivery, run_all}

-- In a terminal state, with every attempt closed.
pub record IsSettled (r : JobRecord) : Type 0 where
  pub ended : is_terminal r.status ≡ true
  pub closed : last_open r.attempts ≡ none

run_settled : (e : Event) (t1 t2 : ℕ) (r : JobRecord) → IsSettled r → result r (run e t1 t2 r) ≡ r
unfolding run
run_settled (Event.offer n s l d) t1 t2 r h = ground arith
run_settled _ t1 t2 r h = ground arith

-- A finished job whose attempts are all closed is never changed again, by any operations in any
-- order: late results, redelivered offers, cancellations and sweeps leave the record as it is.
pub run_all_settled : (ds : List Delivery) (r : JobRecord) → IsSettled r → run_all ds r ≡ r
unfolding run_all
run_all_settled [] r h = refl
run_all_settled (d ∷ ds) r h =
    ap (run_all ds) (run_settled d.event d.t1 d.t2 r h) ∙ run_all_settled ds r h

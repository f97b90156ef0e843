-- ===== src/Job/Progress.antt =====
-- Progress reports.
use nova_voice.Base.{ℕ, ◌≤◌, Option, none, some, List, [], ◌∷◌, arith}
use nova_voice.Job.Record.{JobRecord}
use nova_voice.Job.Endings.{whole}
use nova_voice.Job.Events.{Event, run, result, Delivery, run_all}

-- How much is done: nothing, where no fraction is on record.
abbrev pub amount : Option ℕ → ℕ
amount none = 0
amount (some f) = f

abbrev pub reported : Event → ℕ
reported (Event.progress _ _ f _ _) = amount f
reported _ = 0

run_progress :
    (e : Event) (t1 t2 : ℕ) (r : JobRecord)
    → reported e ≤ whole
    → amount r.progress_fraction ≤ whole
    → let s = result r (run e t1 t2 r) in
      (amount r.progress_fraction ≤ amount s.progress_fraction)
      × (amount s.progress_fraction ≤ whole)
unfolding run
run_progress (Event.offer n s l d) t1 t2 r i h = ground arith
run_progress _ t1 t2 r i h = ground arith

abbrev pub ReportsInUnit : List Delivery → Type 0
ReportsInUnit [] = Unit
ReportsInUnit (d ∷ ds) = (reported d.event ≤ whole) × ReportsInUnit ds

-- Over any operations whose reports are fractions of at most 1, the progress on record never
-- retreats and stays at most 1, across rejections, reclaims and new attempts too.
progress_monotone :
    (ds : List Delivery) (r : JobRecord)
    → ReportsInUnit ds
    → amount r.progress_fraction ≤ whole
    → (amount r.progress_fraction ≤ amount (run_all ds r).progress_fraction)
      × (amount (run_all ds r).progress_fraction ≤ whole)
unfolding run_all
progress_monotone [] r i h = omega arith
progress_monotone (d ∷ ds) r i h =
    let s = result r (run d.event d.t1 d.t2 r) in
    let step = run_progress d.event d.t1 d.t2 r i.0 h in
    omega (arith, step, progress_monotone ds s i.1 step.1)

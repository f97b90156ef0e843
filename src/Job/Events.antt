-- ===== src/Job/Events.antt =====
-- All operations of src/nova_voice/companion/jobs.py as one alphabet of events, so that theorems
-- range over every operation and over sequences of them.
use nova_voice.Base.{ℕ, String, Option, List, [], ◌∷◌}
use nova_voice.Job.Record.{JobRecord}
use nova_voice.Job.Attempts.{Outcome, kept, moved, illegal}
use nova_voice.Job.Moves
use nova_voice.Job.Endings

pub data Event : Type 0 where
  offer : (name session : String) (lease : ℕ) (deadline : Option ℕ) → Event
  accept start await_tool resume : (name : String) → Event
  reject await_approval checkpoint : (name text : String) → Event
  progress :
      (name stage : String) (fraction : Option ℕ) (summary : Option String) (lease : Option ℕ)
      → Event
  complete : (name : Option String) (reference : String) → Event
  fall_back : (reason : String) (name : Option String) → Event
  fail : (code : String) (detail name : Option String) → Event
  cancel : (reason : String) → Event
  expire : Event
  reclaim : (now : ℕ) → Event

-- The operation that an event calls, at the two readings of the clock that it makes at most.
unfoldable pub run : Event → (t1 t2 : ℕ) → JobRecord → Outcome
unfolding Moves.offer Moves.accept Moves.start Moves.await_tool Moves.resume Moves.reject
    Moves.await_approval Moves.checkpoint Moves.progress Endings.complete Endings.fall_back
    Endings.fail Endings.cancel Endings.expire Endings.reclaim
run (offer name session lease deadline) t1 t2 r = Moves.offer r name session lease deadline t1 t2
run (accept name) t1 t2 r = Moves.accept r name t2
run (start name) t1 t2 r = Moves.start r name t2
run (await_tool name) t1 t2 r = Moves.await_tool r name t2
run (resume name) t1 t2 r = Moves.resume r name t2
run (reject name reason) t1 t2 r = Moves.reject r name reason t1 t2
run (await_approval name approval) t1 t2 r = Moves.await_approval r name approval t2
run (checkpoint name reference) t1 t2 r = Moves.checkpoint r name reference t2
run (progress name stage fraction summary lease) t1 t2 r =
    Moves.progress r name stage fraction summary lease t1 t2
run (complete name reference) t1 t2 r = Endings.complete r name reference t1 t2
run (fall_back reason name) t1 t2 r = Endings.fall_back r reason name t1 t2
run (fail code detail name) t1 t2 r = Endings.fail r code detail name t1 t2
run (cancel reason) t1 t2 r = Endings.cancel r reason t1 t2
run expire t1 t2 r = Endings.expire r t1 t2
run (reclaim now) t1 t2 r = Endings.reclaim r now t1 t2

-- The record after an operation: a refusal leaves it alone.
abbrev pub result : JobRecord → Outcome → JobRecord
result r kept = r
result r (moved r') = r'
result r (illegal from to) = r

pub record Delivery : Type 0 where
  pub event : Event
  pub t1 : ℕ
  pub t2 : ℕ

unfoldable pub run_all : List Delivery → JobRecord → JobRecord
unfolding run
run_all [] r = r
run_all (d ∷ rest) r = run_all rest (result r (run d.event d.t1 d.t2 r))

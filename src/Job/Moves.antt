-- ===== src/Job/Moves.antt =====
-- The operations on a job that a device works on (src/nova_voice/companion/jobs.py, `offer` to
-- `checkpoint`). An operation is given the readings of the clock that it makes, in their order.
use nova_voice.Base.{ℕ, ◌+◌, String, not, Option, none, some, [], ◌∷◌, ◌++◌, ltb, if◌then◌else◌}
use nova_voice.Job.Record.{
  State, queued, offered, running, waiting_tool, waiting_approval, rejected, Attempt, JobRecord,
}
use nova_voice.Job.Attempts.{
  Outcome, kept, moved, illegal, same_state, move_to, end_attempt, owns, has_attempt,
}

-- The attempt that an offer opens.
abbrev pub new_attempt : String → String → ℕ → Attempt
new_attempt name session now = record {
  attempt_id = name;
  session_id = some session;
  started_at = now;
  ended_at = none;
  outcome = none;
  detail = none;
}

unfoldable pub offer : JobRecord → String → String → ℕ → Option ℕ → (t1 t2 : ℕ) → Outcome
unfolding has_attempt move_to
offer r name session lease deadline t1 t2 =
    if has_attempt r.attempts name
    then kept
    else if not (same_state r.status queued)
    then illegal r.status offered
    else move_to r offered
        (record r {
          attempts = r.attempts ++ new_attempt name session t1 ∷ [];
          lease_owner = some session;
          lease_expires_at = some (t1 + lease);
          complete_deadline = elim deadline [ none ↦ r.complete_deadline | some d ↦ some d ];
          progress_stage = "offered";
        })
        t2

unfoldable pub accept : JobRecord → String → ℕ → Outcome
unfolding owns move_to
accept r name now =
    if not (owns r name)
    then illegal r.status State.accepted
    else move_to r State.accepted (record r { progress_stage = "accepted" }) now

unfoldable pub reject : JobRecord → String → String → (t1 t2 : ℕ) → Outcome
unfolding owns end_attempt
reject r name reason t1 t2 =
    if not (owns r name)
    then kept
    else moved (record r {
      status = queued;
      attempts = end_attempt r.attempts name rejected (some reason) t1;
      lease_owner = none;
      lease_expires_at = none;
      progress_stage = "queued";
      updated_at = t2;
    })

unfoldable pub start : JobRecord → String → ℕ → Outcome
unfolding owns move_to
start r name now =
    if not (owns r name)
    then illegal r.status running
    else move_to r running (record r { progress_stage = "running" }) now

unfoldable pub await_tool : JobRecord → String → ℕ → Outcome
unfolding owns move_to
await_tool r name now =
    if not (owns r name)
    then illegal r.status waiting_tool
    else move_to r waiting_tool (record r { progress_stage = "waiting_tool" }) now

unfoldable pub await_approval : JobRecord → String → String → ℕ → Outcome
unfolding owns move_to
await_approval r name approval now =
    if not (owns r name)
    then illegal r.status waiting_approval
    else move_to r waiting_approval
        (record r { approval_id = some approval; progress_stage = "waiting_approval" }) now

unfoldable pub resume : JobRecord → String → ℕ → Outcome
unfolding owns move_to
resume r name now =
    if not (owns r name)
    then illegal r.status running
    else move_to r running (record r { progress_stage = "running" }) now

-- The fraction that a report leaves: never below the one on record.
unfoldable pub merged_fraction : Option ℕ → Option ℕ → Option ℕ
merged_fraction old none = old
merged_fraction none (some f) = some f
merged_fraction (some old) (some f) = if ltb f old then some old else some f

unfoldable pub renewed_lease : JobRecord → Option ℕ → ℕ → Option ℕ
renewed_lease r none now = r.lease_expires_at
renewed_lease r (some lease) now = elim r.lease_owner [
  | none ↦ r.lease_expires_at
  | some _ ↦ some (now + lease)
]

unfoldable pub progress :
    JobRecord → String → String → Option ℕ → Option String → Option ℕ → (t1 t2 : ℕ) → Outcome
unfolding owns merged_fraction renewed_lease
progress r name stage fraction summary lease t1 t2 =
    if not (owns r name)
    then kept
    else moved (record r {
      progress_stage = stage;
      progress_fraction = merged_fraction r.progress_fraction fraction;
      progress_summary = summary;
      updated_at = t1;
      lease_expires_at = renewed_lease r lease t2;
    })

unfoldable pub checkpoint : JobRecord → String → String → ℕ → Outcome
unfolding owns
checkpoint r name reference now =
    if not (owns r name)
    then kept
    else moved (record r { checkpoint_ref = some reference; updated_at = now })

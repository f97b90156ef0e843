-- ===== src/Approvals/Gate.antt =====
-- `CompanionApprovalGate` (src/nova_voice/companion/approvals.py) over the store of durable records.
-- Other writers may run between two calls of the store: `others n` is what they do after the n-th
-- call. The check of a signature and the executor of a mutation are parameters; a time is in
-- microseconds, and the arguments of a tool are one text.
use nova_voice.Base.{
  ℕ, ◌+◌, String, Bool, not, ◌||◌, Option, none, some, leb, eqb, if◌then◌else◌, ◌⊎◌, inl, inr, ◌==◌,
}
use nova_voice.Durable.Store
use nova_voice.Durable.Store.{Stored, Database, Written, written, conflict, duplicate}

-- `CompanionApprovalState`
pub data State : Type 0 where
  pending approved denied expired executing executed failed : State

unfoldable pub state_rank : State → ℕ
state_rank pending = 0
state_rank approved = 1
state_rank denied = 2
state_rank expired = 3
state_rank executing = 4
state_rank executed = 5
state_rank failed = 6

abbrev pub same_state : State → State → Bool
same_state a b = eqb (state_rank a) (state_rank b)

-- `CompanionApprovalRecord`, with the base record's id and times
pub record Approval : Type 0 where
  pub id : String
  pub created_at : ℕ
  pub updated_at : ℕ
  pub expires_at : ℕ
  pub job_id : Option String
  pub provider : String
  pub tool : String
  pub arguments : String
  pub summary : String
  pub status : State
  pub idempotency_key : String
  pub nonce : String
  pub respond_by : ℕ
  pub decided_at : Option ℕ
  pub decided_by : Option String
  pub executed_at : Option ℕ
  pub result_ref : Option String
  pub failure_detail : Option String

abbrev pub Db : Type 0
Db = Database Approval

abbrev pub approval_id : Approval → String
approval_id r = r.id

-- The exceptions of the gate, and the store's refusal of a second record under one id.
pub data Error : Type 0 where
  unknown_approval vanished not_verified no_row duplicate_id : Error
  not_approved : State → Error

pub data Reply : Type 0 where
  returned : Approval → Reply
  raised : Error → Reply

-- 7 days, `RETENTION_AFTER_DEADLINE`
abbrev pub retention_after_deadline : ℕ
retention_after_deadline = 604800000000

-- What a caller proposes.
pub record Proposal : Type 0 where
  pub provider : String
  pub tool : String
  pub arguments : String
  pub summary : String
  pub job_id : Option String
  pub idempotency_key : Option String
  pub respond_within : Option ℕ

-- The record of a proposal; the generated id, key and nonce are given, an empty key is generated
-- anew and a window of nothing is the gate's own.
unfoldable pub proposed : Proposal → ℕ → (id key nonce : String) → (now : ℕ) → Approval
proposed p window id key nonce now =
    let wait : ℕ = elim p.respond_within [
      | none ↦ window
      | some w ↦ if eqb w 0 then window else w
    ] in
    record {
      id = id;
      created_at = now;
      updated_at = now;
      expires_at = now + wait + retention_after_deadline;
      job_id = p.job_id;
      provider = p.provider;
      tool = p.tool;
      arguments = p.arguments;
      summary = p.summary;
      status = pending;
      idempotency_key = elim p.idempotency_key [ none ↦ key | some k ↦ if k == "" then key else k ];
      nonce = nonce;
      respond_by = now + wait;
      decided_at = none;
      decided_by = none;
      executed_at = none;
      result_ref = none;
      failure_detail = none;
    }

-- `propose`
unfoldable pub propose : Proposal → ℕ → (id key nonce : String) → (now : ℕ) → Db → Reply × Db
unfolding proposed
propose p window id key nonce now db =
    let r = proposed p window id key nonce now in
    elim (Store.insert approval_id db r "system") [
      | written db' ↦ (returned r, db')
      | conflict ↦ (raised duplicate_id, db)
      | duplicate ↦ (raised duplicate_id, db)
    ]

abbrev pub current_or_vanished : Option (Stored Approval) → Reply
current_or_vanished none = raised vanished
current_or_vanished (some row) = returned row.value

-- A write that went through, or what a lost one gives.
abbrev pub saved_or : Approval → Reply × Db → Written Approval → Reply × Db
saved_or r lost (written db) = (returned r, db)
saved_or r lost conflict = lost
saved_or r lost duplicate = lost

-- `_write`, of a record changed already, where others run after the save is lost
unfoldable pub write : (Db → Db) → Db → Approval → ℕ → Reply × Db
write after db r revision =
    saved_or r (current_or_vanished (Store.get approval_id (after db) r.id), after db)
      (Store.save approval_id db r revision "system")

abbrev pub lapse : Approval → ℕ → Approval
lapse r t = record r {
  status = expired;
  failure_detail = some "the approval expired before it was answered";
  updated_at = t;
}

abbrev pub answer : Approval → Bool → String → (moment t : ℕ) → Approval
answer r agreed who moment t = record r {
  status = if agreed then approved else denied;
  decided_at = some moment;
  decided_by = some who;
  updated_at = t;
}

-- What running a mutation does: the reply, the record that the executor was called with, if it
-- was called, and the database.
pub record Run : Type 0 where
  pub reply : Reply
  pub ran : Option Approval
  pub db : Db

abbrev pub finish : Approval → (String ⊎ String) → (t t' : ℕ) → Approval
finish r (inl reference) t t' = record r {
  status = executed;
  executed_at = some t;
  result_ref = some reference;
  updated_at = t';
}
finish r (inr detail) t t' = record r {
  status = failed;
  failure_detail = some detail;
  updated_at = t';
}

module _ (others : ℕ → Db → Db) where
  -- `decide`; `verify` is the check of the signature over the id, the answer and the nonce
  unfoldable pub decide :
      (verify : String → Bool → String → Bool)
      → (id : String) → (agreed : Bool) → (who : String) → (moment t : ℕ) → Db
      → Reply × Db
  unfolding write
  decide verify id agreed who moment t db = elim (Store.get approval_id db id) [
    | none ↦ (raised unknown_approval, others 0 db)
    | some row ↦
        if not (verify id agreed row.value.nonce)
        then (raised not_verified, others 0 db)
        else if not (same_state row.value.status pending)
        then (returned row.value, others 0 db)
        else if leb row.value.respond_by moment
        then write (others 1) (others 0 db) (lapse row.value t) row.revision
        else write (others 1) (others 0 db) (answer row.value agreed who moment t) row.revision
  ]

  -- The part of `execute_approved` after the claim. The executor's answer is a reference, or the
  -- text of the exception that it raised, cut to 400 letters.
  unfoldable pub run_claimed : (Approval → String ⊎ String) → String → (t t' : ℕ) → Reply × Db → Run
  unfolding write
  run_claimed execute id t t' (raised e, db) = record { reply = raised e; ran = none; db = db }
  run_claimed execute id t t' (returned claimed, db) =
      elim (Store.get approval_id (others 2 db) id) [
        | none ↦ record { reply = raised no_row; ran = none; db = others 2 db }
        | some row ↦
            let (reply, db') =
              write (others 4) (others 3 (others 2 db)) (finish row.value (execute claimed) t t')
                row.revision in
            record { reply = reply; ran = some claimed; db = db' }
      ]

  -- `execute_approved`
  unfoldable pub execute_approved : (Approval → String ⊎ String) → String → (t0 t t' : ℕ) → Db → Run
  unfolding write run_claimed
  execute_approved execute id t0 t t' db = elim (Store.get approval_id db id) [
    | none ↦ record { reply = raised unknown_approval; ran = none; db = others 0 db }
    | some row ↦
        if same_state row.value.status executed || same_state row.value.status failed
        then record { reply = returned row.value; ran = none; db = others 0 db }
        else if not (same_state row.value.status approved)
        then record { reply = raised (not_approved row.value.status); ran = none; db = others 0 db }
        else run_claimed execute id t t' (
            write (others 1) (others 0 db)
              (record row.value { status = executing; updated_at = t0 }) row.revision)
  ]

-- ===== src/Approvals/Tests.antt =====
-- One proposal, answered and run, alone and in a race, and the theorems about the gate on it.
use nova_voice.Base.{
  ◌+◌, ◌≡◌, refl, String, Bool, true, false, none, some, [], ◌∷◌, ◌⊎◌, inl, arith, ◌==◌,
}
use nova_voice.Durable.Store
use nova_voice.Durable.Store.{Stored, Database, Written, written, conflict, duplicate}
use nova_voice.Durable.Laws.{DistinctRows}
use nova_voice.Approvals.Gate.{
  pending, approved, state_rank, same_state, Approval, Db, approval_id, Proposal, proposed,
  returned, decide, execute_approved, finish, run_claimed, write,
}
use nova_voice.Approvals.Decisions.{nobody, once, decide_race}
use nova_voice.Approvals.Runs.{claim, execute_once, lost_claim_runs}

abbrev heater_off : Proposal
heater_off = record {
  provider = "home";
  tool = "set";
  arguments = "heater off";
  summary = "Turn the heater off";
  job_id = none;
  idempotency_key = none;
  respond_within = none;
}

abbrev asked : Approval
asked = proposed heater_off 900 "p1" "k1" "n1" 1000

abbrev agreed_row : Stored Approval
agreed_row = record {
  value = record asked { status = approved; decided_at = some 1100; decided_by = some "owner" };
  revision = 2;
}

abbrev asked_row : Stored Approval
asked_row = record { value = asked; revision = 1 }

abbrev db_of : Stored Approval → Db
db_of row = record { rows = row ∷ []; audit = [] }

-- Signatures that name the nonce are good.
abbrev check_nonce : String → Bool → String → Bool
check_nonce id agreed nonce = nonce == "n1"

abbrev switch : Approval → String ⊎ String
switch r = inl "done"

asked_found : Store.get approval_id (db_of asked_row) "p1" ≡ some asked_row
unfolding Store.get Store.find_row proposed
asked_found = refl

agreed_found : Store.get approval_id (db_of agreed_row) "p1" ≡ some agreed_row
unfolding Store.get Store.find_row proposed
agreed_found = refl

asked_distinct : DistinctRows approval_id (db_of asked_row).rows
unfolding Store.find_row
asked_distinct = (refl, tt)

agreed_distinct : DistinctRows approval_id (db_of agreed_row).rows
unfolding Store.find_row
agreed_distinct = (refl, tt)

asked_pending : same_state asked.status pending ≡ true
unfolding proposed state_rank
asked_pending = refl

asked_nonce : check_nonce "p1" true asked.nonce ≡ true
unfolding proposed
asked_nonce = refl

-- A "no" that comes between the read and the write of a "yes" stands.
decide_race_example :
    decide
      (once (λ d. (decide nobody check_nonce "p1" false "owner" 1100 1101 d).1))
      check_nonce
      "p1"
      true
      "owner"
      1090
      1102
      (db_of asked_row)
    ≡ decide nobody check_nonce "p1" false "owner" 1100 1101 (db_of asked_row)
decide_race_example =
    decide_race check_nonce "p1" (db_of asked_row) asked_row false true "owner" "owner" 1100 1101
      1090 1102 asked_distinct asked_found asked_pending asked_nonce asked_nonce

agreed_ran :
    (execute_approved nobody switch "p1" 1200 1201 1202 (db_of agreed_row)).ran
    ≡ some (claim agreed_row.value 1200)
unfolding execute_approved run_claimed write Store.get Store.find_row Store.save Store.selects
    Store.update_row Store.append_audit proposed state_rank
agreed_ran = refl

execute_once_example :
    (let done = execute_approved nobody switch "p1" 1200 1201 1202 (db_of agreed_row) in
      let claimed = claim agreed_row.value 1200 in
      (done.ran ≡ some claimed)
      × (done.reply ≡ returned (finish claimed (switch claimed) 1201 1202))
      × (Store.get approval_id done.db "p1"
          ≡ some (record {
            value = finish claimed (switch claimed) 1201 1202;
            revision = agreed_row.revision + 1 + 1;
          }))
      × ((execute_approved nobody switch "p1" 1300 1301 1302 done.db).ran ≡ none))
execute_once_example =
    execute_once switch "p1" 1200 1201 1202 (db_of agreed_row) agreed_row agreed_found 1300 1301
      1302 agreed_distinct refl

-- The row that another run of the approval has claimed.
abbrev claimed_row : Stored Approval
claimed_row = record { value = claim agreed_row.value 1150; revision = 3 }

claimed_found : Store.get approval_id (db_of claimed_row) "p1" ≡ some claimed_row
unfolding Store.get Store.find_row proposed
claimed_found = refl

claimed_distinct : DistinctRows approval_id (db_of claimed_row).rows
unfolding Store.find_row
claimed_distinct = (refl, tt)

lost_claim_runs_example :
    (execute_approved
      (once (λ d. db_of claimed_row))
      switch
      "p1"
      1200
      1201
      1202
      (db_of agreed_row)).ran
    ≡ some claimed_row.value
lost_claim_runs_example =
    lost_claim_runs switch "p1" 1200 1201 1202 (db_of agreed_row) agreed_row
      (λ d. db_of claimed_row) claimed_row agreed_found refl claimed_distinct claimed_found
      (λ e. omega arith)

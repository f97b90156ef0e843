-- ===== src/Rollout/Tests.antt =====
-- A rollout that is promoted and then revoked, and the theorems about rollouts on it.
use nova_voice.Base.{ℕ, ◌≡◌, refl, true, some, [], ◌∷◌}
use nova_voice.Durable.Store
use nova_voice.Durable.Store.{Stored, Database}
use nova_voice.Durable.Laws.{DistinctRows}
use nova_voice.Rollout.Defs.{
  fixture, replay, stage_index, next_stage, revoked, Evidence, Rollout, changed, create, promote,
  promote_to, promoted_to, selected_scope, revoke, revoked_by, Db, rollout_id,
}
use nova_voice.Rollout.Ladder.{promotion, revocation, run, Timed, run_all, Earned, run_all-Earned}

abbrev planner : Rollout
planner = create "r1" "owner" "planner" "abc" 100

abbrev passing : Evidence
passing = record {
  stage = fixture;
  artifact_revision = "rev1";
  pins_digest = "abc";
  eligible = true;
  scenario_runs = 3;
  reasons = [];
}

abbrev up : Timed
up = record { call = promotion "owner" passing []; now = 200 }

abbrev stop : Timed
stop = record { call = revocation "owner" "misfires"; now = 300 }

abbrev replaying : Rollout
replaying = promoted_to planner "owner" passing [] replay 200

planner_up : promote planner "owner" passing [] 200 ≡ changed replaying
unfolding promote promote_to promoted_to next_stage stage_index selected_scope create
planner_up = refl

stopped : Rollout
unfolding promoted_to create
stopped = revoked_by replaying "owner" "misfires" 300

up_and_stop : run_all (up ∷ stop ∷ []) planner ≡ stopped
unfolding stopped run_all run promote promote_to promoted_to next_stage stage_index selected_scope
    create revoke
up_and_stop = refl

run_all-Earned_example : Earned (run_all (up ∷ stop ∷ []) planner)
run_all-Earned_example = run_all-Earned "r1" "owner" "planner" "abc" 100 (up ∷ stop ∷ [])

stopped_revoked : stopped.status ≡ revoked
unfolding stopped
stopped_revoked = refl

abbrev db_of : Rollout → ℕ → Db
db_of r n = record { rows = record { value = r; revision = n } ∷ []; audit = [] }

planner_found :
    Store.get rollout_id (db_of planner 1) "r1" ≡ some (record { value = planner; revision = 1 })
unfolding Store.get Store.find_row create
planner_found = refl

abbrev revoked_planner : Rollout
revoked_planner = revoked_by planner "owner" "misfires" 150

overtaken_found :
    Store.get rollout_id (db_of revoked_planner 2) "r1"
    ≡ some (record { value = revoked_planner; revision = 2 })
unfolding Store.get Store.find_row create
overtaken_found = refl

overtaken_distinct : DistinctRows rollout_id (db_of revoked_planner 2).rows
unfolding Store.find_row
overtaken_distinct = (refl, tt)

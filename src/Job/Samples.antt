-- ===== src/Job/Samples.antt =====
-- A new job, for the tests.
use nova_voice.Base.{false, none, []}
use nova_voice.Job.Record.{queued, Sensitivity, Locality, JobRecord}

abbrev pub fresh : JobRecord
fresh = record {
  id = "job-1";
  created_at = 10;
  updated_at = 10;
  expires_at = none;
  workload = "research";
  status = queued;
  input_revision = "r1";
  idempotency_key = "k1";
  trace_id = "t1";
  sensitivity = Sensitivity.ordinary;
  locality = Locality.home_lan;
  attempts = [];
  lease_owner = none;
  lease_expires_at = none;
  complete_deadline = none;
  progress_stage = "queued";
  progress_fraction = none;
  progress_summary = none;
  checkpoint_ref = none;
  result_ref = none;
  approval_id = none;
  local_fallback = false;
  failure_code = none;
  failure_detail = none;
}

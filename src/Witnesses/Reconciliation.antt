-- ===== src/Witnesses/Reconciliation.antt =====
-- backend/app/jobs/reconciliation.py on two old jobs, of which Redis has lost one, and a mission that
-- waits for the other one.
use cyberlab_kali.Base.{
  ℕ, ◌≡◌, refl, if◌then◌else◌, ◌==◌, none, some, [], ◌∷◌, codes, put, scan, add_row, arith,
  Bool-cases, inl, inr,
}
use cyberlab_kali.Models.{World, Db, set_rows}
use cyberlab_kali.Models.Job.{JobRow, JobStatus}
use cyberlab_kali.Models.Mission
use cyberlab_kali.Models.Mission.{MissionStatus, MissionStep}
use cyberlab_kali.Reconciliation.{
  Fetched, missing, present, reconcile_job, reconcile_jobs, reconcile_stuck_jobs,
  run_reconciliation_sweep,
}
use cyberlab_kali.Reconciliation.Jobs.{
  IsIndexed, IsReconciled, reconcile_stuck_jobs-IsReconciled, reconcile_stuck_jobs-twice,
}
use cyberlab_kali.Reconciliation.Soundness.{IsSound, run_reconciliation_sweep-IsSound}
use cyberlab_kali.Reconciliation.Idle.{IsHealthy, run_reconciliation_sweep-idle}
use cyberlab_kali.Samples.{env, world, empty_db, mission, scan_step}

abbrev pub old_job : ℕ → JobRow
old_job id = record {
  id = id;
  tool = codes "nc";
  profile = none;
  target = codes "10.0.0.5";
  project_id = some 1;
  target_id = some 1;
  params = [];
  status = JobStatus.running;
  created_at = 10;
  started_at = none;
  finished_at = none;
  stdout = none;
  exit_code = none;
  result = none;
  error = none;
  evidence_sha256 = none;
}

abbrev pub running_step : MissionStep
running_step = record scan_step { status = Mission.queued; job_id = some 2 }

abbrev pub swept_db : Db
swept_db = record empty_db {
  jobs = put (put (λ k. none) 1 (old_job 1)) 2 (old_job 2);
  next_job = 3;
  missions = put (λ k. none) 7 (record mission { status = MissionStatus.running });
  mission_steps = set_rows (λ k. []) 7 (running_step ∷ []);
}

abbrev pub before : World
before = record world { db = swept_db }

-- RQ has lost the first job.
abbrev fetch : ℕ → Fetched
fetch id = if id == 1 then missing else present

resolves_one : (reconcile_stuck_jobs 1000 300 fetch before).acted ≡ some (1 ∷ [])
unfolding reconcile_stuck_jobs reconcile_jobs reconcile_job scan add_row
resolves_one = refl

before-IsIndexed : IsIndexed before
before-IsIndexed = record { keyed = λ id job e. ground arith; bounded = λ id job e. ground arith }

reconcile_stuck_jobs-IsReconciled_example :
    IsReconciled 1000 300 fetch before (reconcile_stuck_jobs 1000 300 fetch before).world
reconcile_stuck_jobs-IsReconciled_example =
    reconcile_stuck_jobs-IsReconciled 1000 300 fetch before before-IsIndexed

reconcile_stuck_jobs-twice_example :
    reconcile_stuck_jobs 1000 300 fetch (reconcile_stuck_jobs 1000 300 fetch before).world
    ≡ record { acted = some []; world = (reconcile_stuck_jobs 1000 300 fetch before).world }
reconcile_stuck_jobs-twice_example =
    reconcile_stuck_jobs-twice 1000 300 fetch before (1 ∷ []) before-IsIndexed resolves_one

before-IsSound : IsSound before
before-IsSound = record {
  missions = record {
    keyed = λ id m e. ground arith;
    one_queued = λ id. elim (Bool-cases (7 == id)) [
      | inl e ↦ rw e (omega arith)
      | inr e ↦ rw e (omega arith)
    ];
    linked = λ id. elim (Bool-cases (7 == id)) [ inl e ↦ rw e (refl, tt) | inr e ↦ rw e tt ];
  };
  runs = record {
    keyed = λ id run e. ground arith;
    one_queued = λ id. omega arith;
    linked = λ id. tt;
  };
}

run_reconciliation_sweep-IsSound_example :
    IsSound (run_reconciliation_sweep env 300 60 fetch before).1
run_reconciliation_sweep-IsSound_example =
    run_reconciliation_sweep-IsSound env 300 60 fetch before before-IsSound

-- Here RQ knows both jobs.
all_known : IsHealthy 1000 300 (λ id. present) before
unfolding scan add_row
all_known = record { jobs = (refl, (refl, tt)); missions = (refl, tt); runs = tt }

run_reconciliation_sweep-idle_example :
    run_reconciliation_sweep env 300 60 (λ id. present) before ≡ ([], before)
run_reconciliation_sweep-idle_example =
    run_reconciliation_sweep-idle env 300 60 (λ id. present) before all_known

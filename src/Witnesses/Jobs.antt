-- ===== src/Witnesses/Jobs.antt =====
-- backend/app/jobs/tasks.py on one job of the tool `nc`.
use cyberlab_kali.Base.{true, ◌≡◌, refl, false, none, some, [], ◌∷◌, Dict, codes, put, arith, ok}
use cyberlab_kali.Targets.{is_executable, address}
use cyberlab_kali.Tools.Schema.{Value, text, pos}
use cyberlab_kali.Models.{World}
use cyberlab_kali.Models.Job.{JobRow, queued, running, cancelled}
use cyberlab_kali.Jobs.Execute.{
  answered, completed, Worker, Run, save_job, plan_run, execute_job, is_cancelled,
}
use cyberlab_kali.Jobs.Execute.Outcome.{IsKeyed, IsOver, execute_job-IsOver, execute_job-cancelled}
use cyberlab_kali.Jobs.Execute.Safety.{IsLicensed, execute_job-IsLicensed}
use cyberlab_kali.Witnesses.Tools.{program}
use cyberlab_kali.Samples.{env, world, nc, port_80}

worker_program : Unit {0}
unfolding program execute_job plan_run is_executable address
worker_program = tt

abbrev params : Dict Value
params = (codes "target", text (codes "cyberlab-lab-dvwa")) ∷ port_80

abbrev pub job : JobRow
job = record {
  id = 3;
  tool = codes "nc";
  profile = none;
  target = codes "cyberlab-lab-dvwa";
  project_id = some 1;
  target_id = some 1;
  params = params;
  status = queued;
  created_at = 900;
  started_at = none;
  finished_at = none;
  stdout = none;
  exit_code = none;
  result = none;
  error = none;
  evidence_sha256 = none;
}

abbrev started : JobRow
started = record job { status = running; started_at = some 1000 }

abbrev pub with_row : World
with_row = record world { db = record world.db { jobs = put (λ k. none) 3 job } }

-- A worker whose agent always answers with exit code 0, and whom nobody disturbs.
abbrev pub worker : Worker
worker = record {
  env = env;
  run_tool = λ tool args timeout. answered (some (codes "open")) (some (pos 0));
  parse_output = λ parser out. record {
    hosts = [];
    web_results = [];
    findings = [];
    ssl_targets = [];
    paths = [];
  };
  sha256 = λ s. s;
  meanwhile = λ w. w;
  publishes_start = true;
  publishes_end = true;
  analyse = λ done w. completed w;
}

-- The same worker, whose job is cancelled while the tool runs.
abbrev cancelled_worker : Worker
cancelled_worker = record worker {
  meanwhile = λ w. save_job w (record started { status = cancelled });
}

abbrev run : Run
run = record {
  tool = nc;
  args =
      some (codes "-zv")
      ∷ some (codes "-w")
      ∷ some (codes "5")
      ∷ some (codes "cyberlab-lab-dvwa")
      ∷ some (codes "80")
      ∷ [];
  timeout = 10;
}

planned : plan_run worker (codes "nc") params (some 10) (save_job with_row started) started ≡ ok run
unfolding worker_program
planned = refl

ran : (execute_job worker 3 (codes "nc") params (some 10) with_row).ran ≡ some run
unfolding worker_program
ran = refl

execute_job-IsLicensed_example :
    (j : JobRow) × (with_row.db.jobs 3 ≡ some j)
    × (is_cancelled j.status ≡ false)
    × IsLicensed worker (codes "nc") with_row j run
execute_job-IsLicensed_example =
    execute_job-IsLicensed worker (codes "nc") params (some 10) 3 with_row run ran

pub keyed : IsKeyed with_row
keyed = λ id j e. ground arith

execute_job-IsOver_example :
    IsOver (execute_job worker 3 (codes "nc") params (some 10) with_row).world 3
execute_job-IsOver_example =
    execute_job-IsOver worker 3 (codes "nc") params (some 10) with_row job refl (λ j w. refl)
      (record { keeps_ids = λ w k. k; keeps_row = λ w j e. (j, e) }) keyed refl

execute_job-cancelled_example :
    (execute_job cancelled_worker 3 (codes "nc") params (some 10) with_row).world
    ≡ save_job (save_job with_row started) (record started { status = cancelled })
execute_job-cancelled_example =
    execute_job-cancelled cancelled_worker 3 (codes "nc") params (some 10) with_row job
      (record started { status = cancelled }) refl refl refl refl

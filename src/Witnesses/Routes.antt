-- ===== src/Witnesses/Routes.antt =====
-- backend/app/api/routes/jobs.py: a request against the lab's asset, and a cancellation.
use cyberlab_kali.Base.{
  ℕ, ◌≡◌, refl, false, none, some, List, [], codes, ok, length, keep, not, ◌==◌,
}
use cyberlab_kali.Targets.{
  is_executable, is_status_executable, infer_default_authorization, stripped, lab_hostname, address,
}
use cyberlab_kali.Models.{QueueEntry}
use cyberlab_kali.Models.Job.{JobRow, cancelled}
use cyberlab_kali.Jobs.Execute.{execute_job}
use cyberlab_kali.Jobs.Routes.{
  registered, free_text, JobCreateRequest, resolve_target, create_job, cancel_job,
}
use cyberlab_kali.Jobs.Routes.Authorized.{Creates, create_job-Creates}
use cyberlab_kali.Jobs.Routes.Cancelling.{cancel_job-never_run}
use cyberlab_kali.Witnesses.Tools.{program}
use cyberlab_kali.Witnesses.Jobs.{job, with_row, worker, keyed}
use cyberlab_kali.Samples.{env, world, port_80}

routes : Unit {0}
unfolding program create_job cancel_job resolve_target is_executable is_status_executable
    infer_default_authorization stripped lab_hostname address
routes = tt

abbrev request : JobCreateRequest
request = record {
  tool = codes "nc";
  target = registered 1;
  profile = none;
  options = port_80;
  timeout = none;
}

request_queues : length (create_job env request world).1.queue ≡ 1
unfolding routes
request_queues = refl

-- An address that is neither local nor the lab's is refused.
outside_refused :
    length (create_job env (record request { target = free_text (codes "10.0.0.5") }) world).1.queue
    ≡ 0
unfolding routes
outside_refused = refl

create_job-Creates_example : Creates env request world (create_job env request world)
create_job-Creates_example = create_job-Creates env request world

abbrev without_entry : ℕ → List QueueEntry → List QueueEntry
without_entry id queue = keep (λ entry. not (entry.job_id == id)) queue

abbrev cancelled_job : JobRow
cancelled_job = record job { status = cancelled; finished_at = some 1000 }

cancel_ok : (cancel_job env without_entry 3 with_row).0 ≡ ok cancelled_job
unfolding routes
cancel_ok = refl

cancel_job-never_run_example :
    ((cancel_job env without_entry 3 with_row).1.db.jobs 3 ≡ some cancelled_job)
    × (cancelled_job.status ≡ cancelled)
    × (execute_job worker 3 (codes "nc") [] none (cancel_job env without_entry 3 with_row).1
        ≡ record {
          ran = none;
          raises = false;
          world = (cancel_job env without_entry 3 with_row).1;
        })
cancel_job-never_run_example =
    cancel_job-never_run env without_entry worker 3 (codes "nc") [] none with_row cancelled_job
      keyed cancel_ok

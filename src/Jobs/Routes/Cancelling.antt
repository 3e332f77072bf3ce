-- ===== src/Jobs/Routes/Cancelling.antt =====
-- A job that is cancelled by hand is never run.
use cyberlab_kali.Base.{
  ℕ, ◌≡◌, refl, false, Option, none, some, List, Text, Dict, put, put_self, subst, ok, arith,
  Option-cases, inl, inr, Bool-cases,
}
use cyberlab_kali.Tools.Schema.{Value}
use cyberlab_kali.Models.{QueueEntry, World}
use cyberlab_kali.Models.Job.{JobStatus, queued, running, success, failed, cancelled, JobRow}
use cyberlab_kali.Jobs.Creation.{Env}
use cyberlab_kali.Jobs.Execute.{Worker, execute_job}
use cyberlab_kali.Jobs.Execute.Outcome.{IsKeyed}
use cyberlab_kali.Jobs.Routes.{cancelled_row, cancel_found, cancel_job}

module _ (env : Env) (cancel_entry : ℕ → List QueueEntry → List QueueEntry) (id : ℕ) (w : World)
    (keyed : IsKeyed w) where
  -- The row that a cancellation writes is the one it returns.
  written :
      (job done : JobRow)
      → job.id ≡ id
      → cancelled_row env job ≡ done
      → (put w.db.jobs job.id (cancelled_row env job) id ≡ some done) × (done.status ≡ cancelled)
  written job done key same =
      subst
        (λ d. (put w.db.jobs job.id (cancelled_row env job) id ≡ some d) × (d.status ≡ cancelled))
        same
        (
          subst (λ k. put w.db.jobs job.id (cancelled_row env job) k ≡ some (cancelled_row env job))
              key (put_self w.db.jobs job.id (cancelled_row env job)),
          refl,
        )

  cancel_found-stored :
      (job done : JobRow) (s : JobStatus)
      → job.status ≡ s
      → job.id ≡ id
      → (cancel_found env cancel_entry job w).0 ≡ ok done
      → ((cancel_found env cancel_entry job w).1.db.jobs id ≡ some done) × (done.status ≡ cancelled)
  unfolding cancel_found
  cancel_found-stored job done queued e key = elim (Bool-cases env.redis_up) [
    | inl up ↦ rw (e, cancel_found) (rw up (λ h. written job done key (ground arith)))
    | inr down ↦ rw (e, cancel_found) (rw down (λ h. absurd (ground arith)))
  ]
  cancel_found-stored job done running e key =
      rw (e, cancel_found) (λ h. written job done key (ground arith))
  cancel_found-stored job done success e key = rw (e, cancel_found) (λ h. absurd (ground arith))
  cancel_found-stored job done failed e key = rw (e, cancel_found) (λ h. absurd (ground arith))
  cancel_found-stored job done cancelled e key = rw (e, cancel_found) (λ h. absurd (ground arith))

  cancel_job-stored :
      (done : JobRow)
      → (cancel_job env cancel_entry id w).0 ≡ ok done
      → ((cancel_job env cancel_entry id w).1.db.jobs id ≡ some done) × (done.status ≡ cancelled)
  unfolding cancel_job
  cancel_job-stored done = elim (Option-cases (w.db.jobs id)) [
    | inl e ↦ rw (e, cancel_job) (λ h. absurd (ground arith))
    | inr (job, e) ↦
        rw (e, cancel_job) (cancel_found-stored job done job.status refl (keyed id job e))
  ]

cancelled_execute :
    (worker : Worker) (id : ℕ) (tool_name : Text) (params : Dict Value) (timeout : Option ℕ)
    (w : World) (job : JobRow)
    → w.db.jobs id ≡ some job
    → job.status ≡ cancelled
    → execute_job worker id tool_name params timeout w
      ≡ record { ran = none; raises = false; world = w }
unfolding execute_job
cancelled_execute worker id tool_name params timeout w job e c =
    rw (e, execute_job) (rw (c, execute_job) refl)

-- Once `cancel_job` returned, the job is stored as cancelled, and an execution of it, by any worker
-- and with any arguments, runs no tool, raises nothing and changes nothing.
pub cancel_job-never_run :
    (env : Env) (cancel_entry : ℕ → List QueueEntry → List QueueEntry) (worker : Worker) (id : ℕ)
    (tool_name : Text) (params : Dict Value) (timeout : Option ℕ) (w : World) (done : JobRow)
    → IsKeyed w
    → (cancel_job env cancel_entry id w).0 ≡ ok done
    → let after = (cancel_job env cancel_entry id w).1 in
      (after.db.jobs id ≡ some done)
      × (done.status ≡ cancelled)
      × (execute_job worker id tool_name params timeout after
          ≡ record { ran = none; raises = false; world = after })
cancel_job-never_run env cancel_entry worker id tool_name params timeout w done keyed h =
    let (stored, c) = cancel_job-stored env cancel_entry id w keyed done h in
    (
      stored,
      c,
      cancelled_execute worker id tool_name params timeout (cancel_job env cancel_entry id w).1 done
          stored c,
    )

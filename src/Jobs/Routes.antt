-- ===== src/Jobs/Routes.antt =====
-- backend/app/api/routes/jobs.py: creating and cancelling a job by hand. The limit on the rate of
-- requests stands in front of this, and the notification of pages behind it.
pub mod Authorized
pub mod Cancelling
use cyberlab_kali.Base.{
  ℕ, if◌then◌else◌, Bool, true, false, Option, none, some, List, Text, Dict, put, Result, ok, err,
}
use cyberlab_kali.Targets.{
  AuthorizationStatus, Asset, address, infer_default_authorization, is_status_executable,
  is_executable,
}
use cyberlab_kali.Tools.Schema.{Value}
use cyberlab_kali.Tools.Registry.{ToolError, uncaught_value_error}
use cyberlab_kali.Models.{Db, QueueEntry, World}
use cyberlab_kali.Models.Job.{JobStatus, queued, running, cancelled, JobRow}
use cyberlab_kali.Jobs.Service.{PreparedJob, prepare_job}
use cyberlab_kali.Jobs.Creation.{Env, new_job, add_job, entry_for, enqueue}

-- The target of a request, which the schema requires: the id of an asset, which counts if both are
-- given, or a free text.
pub data RequestTarget : Type 0 where
  registered : (target_id : ℕ) → RequestTarget
  free_text : Text → RequestTarget

pub record JobCreateRequest : Type 0 where
  pub tool : Text
  pub target : RequestTarget
  pub profile : Option Text
  pub options : Dict Value
  pub timeout : Option ℕ

-- The answers other than 201: the `HTTPException`s, and what goes up as a server error.
pub data HttpError : Type 0 where
  target_not_found job_not_found : HttpError
  not_authorized : AuthorizationStatus → HttpError
  tool_error : ToolError → HttpError
  already_over : JobStatus → HttpError
  server_error : HttpError

-- What the checks on the target leave to the rest of the handler.
pub record Resolved : Type 0 where
  pub target_address : Text
  pub project_id : Option ℕ
  pub target_id : Option ℕ

resolve_asset : Asset → Result HttpError Resolved
resolve_asset asset =
    if is_executable asset
    then ok (record {
      target_address = address asset;
      project_id = some asset.project_id;
      target_id = some asset.id;
    })
    else err (not_authorized asset.authorization_status)

resolve_text : Text → Result HttpError Resolved
resolve_text target =
    let status = infer_default_authorization (some target) none none in
    if is_status_executable status
    then ok (record { target_address = target; project_id = none; target_id = none })
    else err (not_authorized status)

unfoldable pub resolve_target : Db → RequestTarget → Result HttpError Resolved
unfolding resolve_asset resolve_text
resolve_target db (registered target_id) = elim (db.assets target_id) [
  | none ↦ err target_not_found
  | some asset ↦ resolve_asset asset
]
resolve_target db (free_text target) = resolve_text target

abbrev http_error : ToolError → HttpError
http_error uncaught_value_error = server_error
http_error e = tool_error e

abbrev job_of : Env → JobCreateRequest → Resolved → PreparedJob → ℕ → JobRow
job_of env request target prepared id =
    new_job env.now id request.tool request.profile target.target_address target.project_id
      target.target_id prepared

-- From `job = Job(...)` on: flush, enqueue, commit.
add_and_enqueue :
    Env → JobCreateRequest → Resolved → PreparedJob → World → Result HttpError JobRow × World
add_and_enqueue env request target prepared w =
    let id = w.db.next_job in
    let job = job_of env request target prepared id in
    if env.redis_up
    then (ok job, enqueue (record w { db = add_job w.db job }) (entry_for id request.tool prepared))
    else (err server_error, w)

create_resolved : Env → JobCreateRequest → Resolved → World → Result HttpError JobRow × World
unfolding add_and_enqueue
create_resolved env request target w =
    elim (prepare_job env.parsers env.registry request.tool request.profile request.options
      target.target_address request.timeout) [
        | err e ↦ (err (http_error e), w)
        | ok prepared ↦ add_and_enqueue env request target prepared w
      ]

unfoldable pub create_job : Env → JobCreateRequest → World → Result HttpError JobRow × World
unfolding create_resolved
create_job env request w = elim (resolve_target w.db request.target) [
  | err e ↦ (err e, w)
  | ok target ↦ create_resolved env request target w
]

abbrev save_job : World → JobRow → World
save_job w job = record w { db = record w.db { jobs = put w.db.jobs job.id job } }

abbrev cancelled_row : Env → JobRow → JobRow
cancelled_row env job = record job { status = cancelled; finished_at = some env.now }

-- The write to a queued job waits for RQ's `fetch_job` and `cancel`, which take the entry out of the
-- queue, by `cancel_entry`, and raise without Redis. The command to stop a running job is sent
-- without regard to its success.
cancel_found :
    Env
    → (cancel_entry : ℕ → List QueueEntry → List QueueEntry) → JobRow
    → World
    → Result HttpError JobRow × World
cancel_found env cancel_entry job w = elim job.status [
  | queued ↦
      if env.redis_up
      then (
        ok (cancelled_row env job),
        record (save_job w (cancelled_row env job)) { queue = cancel_entry job.id w.queue },
      )
      else (err server_error, w)
  | running ↦ (ok (cancelled_row env job), save_job w (cancelled_row env job))
  | status ↦ (err (already_over status), w)
]

unfoldable pub cancel_job :
    Env
    → (cancel_entry : ℕ → List QueueEntry → List QueueEntry) → (job_id : ℕ) → World
    → Result HttpError JobRow × World
unfolding cancel_found
cancel_job env cancel_entry job_id w = elim (w.db.jobs job_id) [
  | none ↦ (err job_not_found, w)
  | some job ↦ cancel_found env cancel_entry job w
]

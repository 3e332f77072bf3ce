-- ===== src/Scheduling.antt =====
-- backend/app/scheduling/ticker.py: what becomes of a schedule whose time has come. A write through
-- the row object is `save_schedule`; an exception rolls back what was not committed, and is logged.
pub mod Bounds
pub mod Safety
pub mod Tick
use cyberlab_kali.Base.{
  ℕ, ◌+◌, leb, ltb, if◌then◌else◌, Bool, true, false, ◌&&◌, Option, none, some, Text, put, Result,
  ok, err,
}
use cyberlab_kali.Targets.{Asset, address, is_executable}
use cyberlab_kali.Tools.Registry.{ToolError, uncaught_value_error}
use cyberlab_kali.Models.{World}
use cyberlab_kali.Models.Mission.{SkipReason, asset_missing, not_authorized, rejected}
use cyberlab_kali.Models.Schedule.{ScheduledJobStatus, active, paused, disabled, ScheduledJob}
use cyberlab_kali.Jobs.Service.{PreparedJob, prepare_job}
use cyberlab_kali.Jobs.Creation.{Env, asset_job, add_job, entry_for, enqueue}

-- `MAX_CONSECUTIVE_FAILURES`
abbrev pub max_consecutive_failures : ℕ
max_consecutive_failures = 5

abbrev pub save_schedule : World → ScheduledJob → World
save_schedule w s = record w { db = record w.db { schedules = put w.db.schedules s.id s } }

abbrev pub is_active : ScheduledJobStatus → Bool
is_active active = true
is_active _ = false

-- What `claim_due_schedules` asks of a row.
abbrev pub is_due : Env → ScheduledJob → Bool
is_due env s = is_active s.status && leb s.next_run_at env.now

-- What `claim_due_schedules` writes to a row that is due.
unfoldable pub claim : Env → ScheduledJob → ScheduledJob
claim env s = record s { next_run_at = env.now + s.interval_seconds }

-- The writes of `_fail`.
unfoldable pub failed_once : SkipReason → ScheduledJob → ScheduledJob
failed_once reason s =
    let failures = s.consecutive_failures + 1 in
    record s {
      consecutive_failures = failures;
      last_error = some reason;
      status = if leb max_consecutive_failures failures then paused else s.status;
    }

-- `_fail`
unfoldable pub fail : ScheduledJob → SkipReason → World → World
unfolding failed_once
fail s reason w = save_schedule w (failed_once reason s)

abbrev pub fired : Env → ℕ → ScheduledJob → ScheduledJob
fired env job_id s = record s {
  last_run_at = some env.now;
  last_job_id = some job_id;
  consecutive_failures = 0;
  last_error = none;
}

-- From `job = Job(...)` on. If `enqueue` raises, everything is rolled back.
fire : Env → ScheduledJob → Asset → PreparedJob → World → World
fire env s asset prepared w =
    let id = w.db.next_job in
    let added = record w { db = add_job w.db (asset_job env id s.tool s.profile asset prepared) } in
    if env.redis_up
    then enqueue (save_schedule added (fired env id s)) (entry_for id s.tool prepared)
    else w

-- The `try` around `prepare_job`; any other exception goes to the outer handler.
on_prepared : Env → ScheduledJob → Asset → World → Result ToolError PreparedJob → World
unfolding fire
on_prepared env s asset w (err uncaught_value_error) = w
on_prepared env s asset w (err e) = fail s (rejected e) w
on_prepared env s asset w (ok prepared) = fire env s asset prepared w

process_asset : Env → ScheduledJob → Asset → World → World
unfolding on_prepared
process_asset env s asset w =
    if is_executable asset
    then on_prepared env s asset w
        (prepare_job env.parsers env.registry s.tool s.profile s.params (address asset) none)
    else fail s (not_authorized asset.authorization_status) w

-- The checks on the asset that the schedule names.
process_named : Env → ScheduledJob → (asset_id : Option ℕ) → World → World
unfolding process_asset
process_named env s none w = fail s asset_missing w
process_named env s (some id) w = elim (w.db.assets id) [
  | none ↦ save_schedule w (record s { status = disabled; last_error = some asset_missing })
  | some asset ↦ process_asset env s asset w
]

-- `process_schedule`, which never raises.
unfoldable pub process_schedule : Env → ScheduledJob → World → World
unfolding process_named
process_schedule env s w = process_named env s s.asset_id w

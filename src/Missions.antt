-- ===== src/Missions.antt =====
-- backend/app/ai/orchestrator.py: the life of a mission. A session's transaction is the world that a
-- function is given; what a `commit` makes durable is in the world that it returns, beside an
-- exception too, and what was only flushed is not. advance_mission commits once in its middle, which
-- lets go of the lock on the row, and goes on with the steps that it has read; it is given here as a
-- call that no other call on the mission overlaps.
pub mod Soundness
pub mod Settled
pub mod Safety
pub mod Lifecycle
pub mod Frame
use cyberlab_kali.Base.{
  ℕ, zero, suc, ◌+◌, ltb, if◌then◌else◌, Bool, true, false, not, ◌&&◌, ◌||◌, Option, none, some,
  List, [], ◌∷◌, ◌++◌, Text, Dict, put, any, find, update_first, Result, ok, err,
}
use cyberlab_kali.Targets.{AuthorizationStatus, Asset, address, is_executable}
use cyberlab_kali.Tools.Registry.{ToolError, uncaught_value_error, Parsers, Registry}
use cyberlab_kali.Models.{Db, World, set_rows}
use cyberlab_kali.Models.Job
use cyberlab_kali.Models.Job.{JobRow, JobStatus}
use cyberlab_kali.Models.Mission.{
  MissionStatus, draft, approved, running, completed, MissionStepStatus, pending, skipped, queued,
  SkipReason, no_valid_tool, asset_missing, not_authorized, rejected, MissionRow, MissionStep,
  is_terminal,
}
use cyberlab_kali.Jobs.Service.{PreparedJob, prepare_job}
use cyberlab_kali.Jobs.Creation.{Env, asset_job, add_job, entry_for, enqueue}

-- What a call may raise: the two errors of the module, what `queue.enqueue` raises without Redis,
-- and what `prepare_job` raises beside the registry's own errors.
pub data MissionError : Type 0 where
  mission_not_found queue_unavailable : MissionError
  invalid_mission_state : MissionStatus → MissionError
  raised : ToolError → MissionError

abbrev pub Outcome : Type 0
Outcome = Result MissionError MissionRow × World

-- `session.commit()` of a changed mission, and of its changed steps.
abbrev pub save_mission : World → MissionRow → World
save_mission w mission = record w {
  db = record w.db { missions = put w.db.missions mission.id mission };
}

abbrev pub save_steps : World → ℕ → List MissionStep → World
save_steps w mission_id steps = record w {
  db = record w.db { mission_steps = set_rows w.db.mission_steps mission_id steps };
}

-- `_stop_mission`
unfoldable pub stop_mission : Env → MissionRow → MissionStatus → World → Outcome
stop_mission env mission status w =
    let stopped = record mission { status = status; finished_at = some env.now } in
    (ok stopped, save_mission w stopped)

abbrev pub is_queued : MissionStep → Bool
is_queued s = elim s.status [ MissionStepStatus.queued ↦ true | _ ↦ false ]

abbrev pub is_success : MissionStep → Bool
is_success s = elim s.status [ MissionStepStatus.success ↦ true | _ ↦ false ]

abbrev pub is_cancelled : MissionStep → Bool
is_cancelled s = elim s.status [ MissionStepStatus.cancelled ↦ true | _ ↦ false ]

-- `s.status in (FAILED, SKIPPED)`
abbrev pub is_failed_or_skipped : MissionStep → Bool
is_failed_or_skipped s = elim s.status [
  | MissionStepStatus.failed ↦ true
  | MissionStepStatus.skipped ↦ true
  | _ ↦ false
]

-- `s.status == PENDING and s.step_order < mission.max_steps`
abbrev pub is_next : ℕ → MissionStep → Bool
is_next max_steps s =
    elim s.status [ MissionStepStatus.pending ↦ true | _ ↦ false ] && ltb s.step_order max_steps

-- `session.get(Job, step.job_id)`
abbrev pub job_of : World → MissionStep → Option JobRow
job_of w s = elim s.job_id [ none ↦ none | some id ↦ w.db.jobs id ]

-- The step's status for the outcome of its job.
abbrev pub outcome_of : JobStatus → MissionStepStatus
outcome_of JobStatus.success = MissionStepStatus.success
outcome_of JobStatus.cancelled = MissionStepStatus.cancelled
outcome_of _ = MissionStepStatus.failed

abbrev pub resolve : JobStatus → MissionStep → MissionStep
resolve status s = record s { status = outcome_of status }

abbrev pub skip : SkipReason → MissionStep → MissionStep
skip reason s = record s { status = skipped; skip_reason = some reason }

abbrev pub dispatch : ℕ → MissionStep → MissionStep
dispatch job_id s = record s { job_id = some job_id; status = queued }

-- The next step is marked as skipped, and the mission fails.
skip_next : Env → MissionRow → SkipReason → List MissionStep → World → Outcome
unfolding stop_mission
skip_next env mission reason steps w =
    stop_mission env mission MissionStatus.failed
      (save_steps w mission.id (update_first (is_next mission.max_steps) (skip reason) steps))

-- What is committed once the job is flushed, enqueued and linked to the step.
abbrev with_job :
    Env → MissionRow → MissionStep → Text → Asset → PreparedJob → List MissionStep → World → World
with_job env mission s tool asset prepared steps w =
    let id = w.db.next_job in
    let added = record w { db = add_job w.db (asset_job env id tool s.profile asset prepared) } in
    let linked = update_first (is_next mission.max_steps) (dispatch id) steps in
    enqueue
      (save_mission (save_steps added mission.id linked) (record mission { status = running }))
      (entry_for id tool prepared)

-- From `job = Job(...)` to the final commit. If `enqueue` raises, the row that was only flushed is
-- rolled back with the rest of the transaction.
queue_next :
    Env → MissionRow → MissionStep → Text → Asset → PreparedJob → List MissionStep → World → Outcome
queue_next env mission s tool asset prepared steps w =
    if env.redis_up
    then (
      ok (record mission { status = running }),
      with_job env mission s tool asset prepared steps w,
    )
    else (err queue_unavailable, w)

-- The `try` around `prepare_job`: the registry's two errors skip the step, any other goes through.
on_prepared :
    Env
    → MissionRow
    → MissionStep
    → Text
    → Asset
    → List MissionStep
    → World
    → Result ToolError PreparedJob
    → Outcome
unfolding skip_next queue_next
on_prepared env mission s tool asset steps w (err uncaught_value_error) =
    (err (raised uncaught_value_error), w)
on_prepared env mission s tool asset steps w (err e) = skip_next env mission (rejected e) steps w
on_prepared env mission s tool asset steps w (ok prepared) =
    queue_next env mission s tool asset prepared steps w

prepare_next : Env → MissionRow → MissionStep → Text → Asset → List MissionStep → World → Outcome
unfolding on_prepared
prepare_next env mission s tool asset steps w =
    on_prepared env mission s tool asset steps w
      (prepare_job env.parsers env.registry tool s.profile s.options (address asset) none)

-- The checks on the next step: its tool, and its asset at this moment.
pub run_next : Env → MissionRow → MissionStep → List MissionStep → World → Outcome
unfolding prepare_next
run_next env mission s steps w = elim s.tool [
  | none ↦ skip_next env mission no_valid_tool steps w
  | some tool ↦ elim (w.db.assets mission.target_id) [
    | none ↦ skip_next env mission asset_missing steps w
    | some asset ↦
        if is_executable asset
        then prepare_next env mission s tool asset steps w
        else skip_next env mission (not_authorized asset.authorization_status) steps w
  ]
]

abbrev pub is_mission_cancelled : MissionStatus → Bool
is_mission_cancelled MissionStatus.cancelled = true
is_mission_cancelled _ = false

abbrev pub is_mission_failed : MissionStatus → Bool
is_mission_failed MissionStatus.failed = true
is_mission_failed _ = false

-- What follows the reconciliation of the queued step.
continue_mission : Env → MissionRow → List MissionStep → World → Outcome
unfolding run_next
continue_mission env mission steps w =
    if any is_cancelled steps
    then if is_mission_cancelled mission.status
      then (ok mission, w)
      else stop_mission env mission MissionStatus.cancelled w
    else if any is_failed_or_skipped steps
    then if is_mission_failed mission.status
      then (ok mission, w)
      else stop_mission env mission MissionStatus.failed w
    else elim (find (is_next mission.max_steps) steps) [
      | none ↦
          stop_mission env mission
            (if any is_success steps then completed else MissionStatus.failed) w
      | some s ↦ run_next env mission s steps w
    ]

-- A queued step whose job is found: it is resolved if the job has ended, else nothing is done yet.
reconcile_step : Env → MissionRow → List MissionStep → World → JobRow → Outcome
unfolding continue_mission
reconcile_step env mission steps w job =
    let steps' = update_first is_queued (resolve job.status) steps in
    if Job.is_terminal job.status
    then continue_mission env mission steps' (save_steps w mission.id steps')
    else (ok mission, w)

-- The body after the lookup of the mission.
advance_found : Env → MissionRow → World → Outcome
unfolding reconcile_step
advance_found env mission w =
    let steps = w.db.mission_steps mission.id in
    if is_terminal mission.status then (ok mission, w) else elim (find is_queued steps) [
      | none ↦ continue_mission env mission steps w
      | some s ↦ elim (job_of w s) [
        | none ↦ (ok mission, w)
        | some job ↦ reconcile_step env mission steps w job
      ]
    ]

-- `_advance_mission_locked`, and `advance_mission`, which opens a session around it.
unfoldable pub advance_mission : Env → ℕ → World → Outcome
unfolding advance_found
advance_mission env mission_id w = elim (w.db.missions mission_id) [
  | none ↦ (err mission_not_found, w)
  | some mission ↦ advance_found env mission w
]

abbrev pub is_draft : MissionStatus → Bool
is_draft draft = true
is_draft _ = false

-- The first transaction of `approve_mission`, which ends with a commit.
unfoldable pub start_mission : Env → ℕ → World → Outcome
start_mission env mission_id w = elim (w.db.missions mission_id) [
  | none ↦ (err mission_not_found, w)
  | some mission ↦
      let started = record mission { status = approved; approved_at = some env.now } in
      if is_draft mission.status
      then (ok started, save_mission w started)
      else (err (invalid_mission_state mission.status), w)
]

abbrev pub then_advance : Env → (others : World → World) → ℕ → Outcome → Outcome
then_advance env others mission_id (err e, w) = (err e, w)
then_advance env others mission_id (ok started, w) = advance_mission env mission_id (others w)

-- `approve_mission`: the first transaction and then a call of `advance_mission`, where `others` is what
-- other calls commit between the two.
unfoldable pub approve_mission : Env → (others : World → World) → ℕ → World → Outcome
unfolding start_mission
approve_mission env others mission_id w =
    then_advance env others mission_id (start_mission env mission_id w)

unfoldable pub cancel_mission : Env → ℕ → World → Outcome
cancel_mission env mission_id w = elim (w.db.missions mission_id) [
  | none ↦ (err mission_not_found, w)
  | some mission ↦
      let cancelled = record mission {
        status = MissionStatus.cancelled;
        finished_at = some env.now;
      } in
      if is_terminal mission.status
      then (ok mission, w)
      else (ok cancelled, save_mission w cancelled)
]

-- ===== src/Chains.antt =====
-- backend/app/chains/service.py: the life of a chain run, which takes the steps of a template one
-- after the other as long as their conditions are met. Worlds and commits are read as in Missions;
-- the same holds of the commit in the middle of advance_chain_run, which is a call that no other call
-- on the run overlaps.
pub mod Conditions
pub mod Creation
pub mod Soundness
pub mod Settled
pub mod Dispatch
pub mod Safety
pub mod Lifecycle
pub mod Frame
use cyberlab_kali.Base.{
  ℕ, zero, suc, ◌+◌, ◌==◌, if◌then◌else◌, Bool, true, false, not, ◌&&◌, Option, none, some, List,
  [], ◌∷◌, map, get_elem?, Text, codes, text_eq, Dict, lookup, insert, put, any, find, update_first,
  is_some, Result, ok, err,
}
use cyberlab_kali.Targets.{Asset, address, is_executable}
use cyberlab_kali.Tools.Schema.{Value, text}
use cyberlab_kali.Tools.Registry.{ToolError, uncaught_value_error, Parsers}
use cyberlab_kali.Models.{Db, World, set_rows}
use cyberlab_kali.Models.Result.{ParsedResult}
use cyberlab_kali.Models.Job
use cyberlab_kali.Models.Job.{JobRow, JobStatus}
use cyberlab_kali.Models.Mission.{
  SkipReason, asset_missing, not_authorized, rejected, condition_not_met,
}
use cyberlab_kali.Models.Chain.{
  ChainConditionType, technology_detected, MissionTemplateStep, ChainRunStatus, ChainRunStepStatus,
  ChainRun, ChainRunStep, is_terminal,
}
use cyberlab_kali.Jobs.Service.{PreparedJob, prepare_job}
use cyberlab_kali.Jobs.Creation.{Env, asset_job, add_job, entry_for, enqueue}
use Conditions.{evaluate_condition, technology_tags_for_nuclei}

-- What a call may raise: its own error, what `queue.enqueue` raises without Redis, the `IndexError`
-- of `steps[next_step.step_order - 1]`, and what `prepare_job` raises beside the registry's errors.
pub data ChainError : Type 0 where
  chain_run_not_found queue_unavailable index_error : ChainError
  raised : ToolError → ChainError

abbrev pub Outcome : Type 0
Outcome = Result ChainError ChainRun × World

-- `session.commit()` of a changed run, and of its changed steps.
abbrev pub save_run : World → ChainRun → World
save_run w run = record w { db = record w.db { chain_runs = put w.db.chain_runs run.id run } }

abbrev pub save_steps : World → ℕ → List ChainRunStep → World
save_steps w run_id steps = record w {
  db = record w.db { chain_run_steps = set_rows w.db.chain_run_steps run_id steps };
}

-- `_stop_chain_run`
unfoldable pub stop_chain_run : Env → ChainRun → ChainRunStatus → World → Outcome
stop_chain_run env run status w =
    let stopped = record run { status = status; finished_at = some env.now } in
    (ok stopped, save_run w stopped)

abbrev pub is_queued : ChainRunStep → Bool
is_queued s = elim s.status [ ChainRunStepStatus.queued ↦ true | _ ↦ false ]

abbrev pub is_success : ChainRunStep → Bool
is_success s = elim s.status [ ChainRunStepStatus.success ↦ true | _ ↦ false ]

abbrev pub is_cancelled : ChainRunStep → Bool
is_cancelled s = elim s.status [ ChainRunStepStatus.cancelled ↦ true | _ ↦ false ]

abbrev pub is_failed : ChainRunStep → Bool
is_failed s = elim s.status [ ChainRunStepStatus.failed ↦ true | _ ↦ false ]

abbrev pub is_pending : ChainRunStep → Bool
is_pending s = elim s.status [ ChainRunStepStatus.pending ↦ true | _ ↦ false ]

-- `session.get(Job, step.job_id)`
abbrev pub job_of : World → ChainRunStep → Option JobRow
job_of w s = elim s.job_id [ none ↦ none | some id ↦ w.db.jobs id ]

abbrev pub outcome_of : JobStatus → ChainRunStepStatus
outcome_of JobStatus.success = ChainRunStepStatus.success
outcome_of JobStatus.cancelled = ChainRunStepStatus.cancelled
outcome_of _ = ChainRunStepStatus.failed

abbrev pub resolve : JobStatus → ChainRunStep → ChainRunStep
resolve status s = record s { status = outcome_of status }

abbrev pub skip : SkipReason → ChainRunStep → ChainRunStep
skip reason s = record s { status = ChainRunStepStatus.skipped; skip_reason = some reason }

abbrev pub dispatch : ℕ → ChainRunStep → ChainRunStep
dispatch job_id s = record s { job_id = some job_id; status = ChainRunStepStatus.queued }

-- The next step is marked as skipped, and the run stops.
skip_next : Env → ChainRun → SkipReason → ChainRunStatus → List ChainRunStep → World → Outcome
unfolding stop_chain_run
skip_next env run reason status steps w =
    stop_chain_run env run status
      (save_steps w run.id (update_first is_pending (skip reason) steps))

abbrev with_job :
    Env → ChainRun → ChainRunStep → Asset → PreparedJob → List ChainRunStep → World → World
with_job env run s asset prepared steps w =
    let id = w.db.next_job in
    let added = record w { db = add_job w.db (asset_job env id s.tool s.profile asset prepared) } in
    let linked = update_first is_pending (dispatch id) steps in
    enqueue
      (save_run (save_steps added run.id linked) (record run { status = ChainRunStatus.running }))
      (entry_for id s.tool prepared)

-- From `job = Job(...)` to the final commit.
queue_next :
    Env → ChainRun → ChainRunStep → Asset → PreparedJob → List ChainRunStep → World → Outcome
queue_next env run s asset prepared steps w =
    if env.redis_up
    then (
      ok (record run { status = ChainRunStatus.running }),
      with_job env run s asset prepared steps w,
    )
    else (err queue_unavailable, w)

-- The `try` around `prepare_job`.
on_prepared :
    Env
    → ChainRun
    → ChainRunStep
    → Asset
    → List ChainRunStep
    → World
    → Result ToolError PreparedJob
    → Outcome
unfolding skip_next queue_next
on_prepared env run s asset steps w (err uncaught_value_error) =
    (err (raised uncaught_value_error), w)
on_prepared env run s asset steps w (err e) =
    skip_next env run (rejected e) ChainRunStatus.failed steps w
on_prepared env run s asset steps w (ok prepared) = queue_next env run s asset prepared steps w

abbrev is_technology_detected : ChainConditionType → Bool
is_technology_detected technology_detected = true
is_technology_detected _ = false

-- The step is one whose tags come from the previous result.
abbrev wants_tags : ChainRunStep → Bool
wants_tags s =
    text_eq s.tool (codes "nuclei")
    && is_technology_detected s.condition_type
    && not (is_some (lookup (codes "tags") s.options))

-- `options`, with the tags where they are wanted and there are any.
unfoldable pub options_of : Parsers → ChainRunStep → Option ParsedResult → Dict Value
options_of parsers s none = s.options
options_of parsers s (some result) = elim (technology_tags_for_nuclei parsers.lower result) [
  | none ↦ s.options
  | some tags ↦ if wants_tags s then insert (codes "tags") (text tags) s.options else s.options
]

-- The checks on the asset, and the rest of the body.
run_next : Env → ChainRun → ChainRunStep → Option ParsedResult → List ChainRunStep → World → Outcome
unfolding on_prepared
run_next env run s previous_result steps w = elim (w.db.assets run.target_id) [
  | none ↦ skip_next env run asset_missing ChainRunStatus.failed steps w
  | some asset ↦
      if is_executable asset
      then on_prepared env run s asset steps w (
          prepare_job env.parsers env.registry s.tool s.profile
            (options_of env.parsers s previous_result) (address asset) none)
      else skip_next env run (not_authorized asset.authorization_status) ChainRunStatus.failed steps
          w
]

-- `previous_job.result if previous_job is not None else None`
abbrev result_of : Option JobRow → Option ParsedResult
result_of none = none
result_of (some job) = job.result

-- The condition is looked at for every step but the first. If it is not met, the run is complete.
check_condition :
    Env → ChainRun → ChainRunStep → Option ParsedResult → List ChainRunStep → World → Outcome
unfolding run_next
check_condition env run s previous_result steps w =
    if evaluate_condition env.parsers.lower s.condition_type s.condition_params previous_result
    then run_next env run s previous_result steps w
    else skip_next env run condition_not_met ChainRunStatus.completed steps w

pub start_next : Env → ChainRun → ChainRunStep → List ChainRunStep → World → Outcome
unfolding check_condition
start_next env run s steps w = elim s.step_order [
  | zero ↦ run_next env run s none steps w
  | suc before ↦ elim (get_elem? steps before) [
    | none ↦ (err index_error, w)
    | some previous ↦ check_condition env run s (result_of (job_of w previous)) steps w
  ]
]

abbrev pub is_run_cancelled : ChainRunStatus → Bool
is_run_cancelled ChainRunStatus.cancelled = true
is_run_cancelled _ = false

abbrev pub is_run_failed : ChainRunStatus → Bool
is_run_failed ChainRunStatus.failed = true
is_run_failed _ = false

-- What follows the reconciliation of the queued step.
continue_run : Env → ChainRun → List ChainRunStep → World → Outcome
unfolding start_next
continue_run env run steps w =
    if any is_cancelled steps
    then if is_run_cancelled run.status
      then (ok run, w)
      else stop_chain_run env run ChainRunStatus.cancelled w
    else if any is_failed steps
    then if is_run_failed run.status
      then (ok run, w)
      else stop_chain_run env run ChainRunStatus.failed w
    else elim (find is_pending steps) [
      | none ↦
          stop_chain_run env run
            (if any is_success steps then ChainRunStatus.completed else ChainRunStatus.failed) w
      | some s ↦ start_next env run s steps w
    ]

reconcile_step : Env → ChainRun → List ChainRunStep → World → JobRow → Outcome
unfolding continue_run
reconcile_step env run steps w job =
    let steps' = update_first is_queued (resolve job.status) steps in
    if Job.is_terminal job.status
    then continue_run env run steps' (save_steps w run.id steps')
    else (ok run, w)

-- The body after the lookup of the run.
advance_found : Env → ChainRun → World → Outcome
unfolding reconcile_step
advance_found env run w =
    let steps = w.db.chain_run_steps run.id in
    if is_terminal run.status then (ok run, w) else elim (find is_queued steps) [
      | none ↦ continue_run env run steps w
      | some s ↦ elim (job_of w s) [
        | none ↦ (ok run, w)
        | some job ↦ reconcile_step env run steps w job
      ]
    ]

-- `_advance_chain_run_locked`, and `advance_chain_run`, which opens a session around it.
unfoldable pub advance_chain_run : Env → ℕ → World → Outcome
unfolding advance_found
advance_chain_run env chain_run_id w = elim (w.db.chain_runs chain_run_id) [
  | none ↦ (err chain_run_not_found, w)
  | some run ↦ advance_found env run w
]

unfoldable pub cancel_chain_run : Env → ℕ → World → Outcome
cancel_chain_run env chain_run_id w = elim (w.db.chain_runs chain_run_id) [
  | none ↦ (err chain_run_not_found, w)
  | some run ↦
      let cancelled = record run {
        status = ChainRunStatus.cancelled;
        finished_at = some env.now;
      } in
      if is_terminal run.status then (ok run, w) else (ok cancelled, save_run w cancelled)
]

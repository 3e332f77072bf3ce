-- ===== src/Jobs/Execute.antt =====
-- backend/app/jobs/tasks.py: what the worker does with a job that it takes from the queue. Of the calls
-- of `publish_job_update`, which tell open pages of a change through Redis, it matters whether they
-- raise.
pub mod Outcome
pub mod Safety
use cyberlab_kali.Base.{
  ℕ, min, ◌==◌, if◌then◌else◌, Bool, true, false, not, ◌||◌, Option, none, some, List, [], Text,
  Dict, put, or_else, Result, ok, err, ◌>>=◌, ◌>>◌,
}
use cyberlab_kali.Targets.{Asset, is_executable}
use cyberlab_kali.Tools.Schema.{ℤ, pos, negsuc, Value, ToolDefinition}
use cyberlab_kali.Tools.Registry.{ToolError, uncaught_value_error, get_tool, build_command}
use cyberlab_kali.Models.{Db, World}
use cyberlab_kali.Models.Result.{ParsedResult}
use cyberlab_kali.Models.Job.{
  JobStatus, running, success, failed, cancelled, JobError, rejected, authorization_revoked,
  agent_failed, unexpected, JobRow,
}
use cyberlab_kali.Jobs.Creation.{Env}

-- What a call of the Kali agent comes to: its answer, a `KaliAgentError`, or any other exception.
pub data RunResult : Type 0 where
  answered : (stdout : Option Text) → (exit_code : Option ℤ) → RunResult
  agent_error crashed : Text → RunResult

-- How the analysis ends, with what it wrote: it returns, it raises in a session that is still
-- usable, or a failed flush leaves a session that refuses every statement before a rollback.
pub data Analysis : Type 0 where
  completed raised : World → Analysis
  session_broken : Analysis

-- The surroundings of one execution: `run_tool` asks the Kali agent, `parse_output` reads its
-- output, `sha256` is hashlib's, and `meanwhile` is what others commit before the worker reads the
-- job's row again, or before it gives up. `publishes_start` and `publishes_end` tell whether the calls
-- of `publish_job_update` after the first commit, and after the later ones, return. `analyse` stands for what follows a finished run in the same transaction
-- (findings, correlation, asset activity, changes, graph).
pub record Worker : Type 0 where
  pub env : Env
  pub run_tool : Text → List (Option Text) → ℕ → RunResult
  pub parse_output : (parser stdout : Text) → ParsedResult
  pub sha256 : Text → Text
  pub meanwhile : World → World
  pub publishes_start : Bool
  pub publishes_end : Bool
  pub analyse : JobRow → World → Analysis

-- A call of `run_tool`.
pub record Run : Type 0 where
  pub tool : ToolDefinition
  pub args : List (Option Text)
  pub timeout : ℕ

-- What an execution leaves behind: the call of the tool, if it was made, and whether an exception
-- goes up to RQ.
pub record Executed : Type 0 where
  pub ran : Option Run
  pub raises : Bool
  pub world : World

abbrev pub save_job : World → JobRow → World
save_job w job = record w { db = record w.db { jobs = put w.db.jobs job.id job } }

-- The first check of the `try` block. A job against free text has nothing to check again.
unfoldable pub check_authorization : World → JobRow → Result JobError (Unit {0})
check_authorization w job = elim job.target_id [
  | none ↦ ok tt
  | some id ↦ elim (w.db.assets id) [
    | none ↦ err (authorization_revoked none)
    | some asset ↦
        if is_executable asset
        then ok tt
        else err (authorization_revoked (some asset.authorization_status))
  ]
]

abbrev lift {ℓ} : {A : Type ℓ} → Result ToolError A → Result JobError A
lift (ok a) = ok a
lift (err e) = err (rejected e)

-- From the authorization check up to the call of `run_tool`.
unfoldable pub plan_run :
    Worker
    → (tool_name : Text) → Dict Value
    → (timeout : Option ℕ) → World
    → JobRow
    → Result JobError Run
unfolding check_authorization
plan_run worker tool_name params timeout w job = do
  check_authorization w job
  tool ← lift (get_tool worker.env.registry tool_name)
  args ← lift (build_command worker.env.parsers worker.env.registry tool_name params none)
  ok (record {
    tool = tool;
    args = args;
    timeout = min (or_else timeout tool.default_timeout) tool.max_timeout;
  })

-- Which errors the first handler catches; the second one raises them again.
abbrev is_expected : JobError → Bool
is_expected (rejected uncaught_value_error) = false
is_expected (unexpected _) = false
is_expected _ = true

abbrev pub is_cancelled : JobStatus → Bool
is_cancelled cancelled = true
is_cancelled _ = false

abbrev failed_with : ℕ → JobError → JobRow → JobRow
failed_with now error job = record job {
  status = failed;
  error = some error;
  finished_at = some now;
}

-- The two handlers, on the job's row as it is now. A row that is gone makes `refresh` raise. What the
-- publication raises goes up from the first handler, and is dropped by the second, which raises anyway.
record_failure : Worker → Option Run → JobError → ℕ → World → Executed
record_failure worker ran error job_id w = elim (w.db.jobs job_id) [
  | none ↦ record { ran = ran; raises = true; world = w }
  | some job ↦
      if is_cancelled job.status
      then record { ran = ran; raises = not (is_expected error); world = w }
      else record {
        ran = ran;
        raises = not (is_expected error) || not worker.publishes_end;
        world = save_job w (failed_with worker.env.now error job);
      }
]

-- `raw.get("exit_code") == 0`
abbrev is_zero : Option ℤ → Bool
is_zero none = false
is_zero (some (pos n)) = n == 0
is_zero (some (negsuc n)) = false

abbrev stdout_text : Option Text → Text
stdout_text none = []
stdout_text (some s) = s

-- The row once the answer is written to it.
abbrev pub finished_row : Worker → Run → Option Text → Option ℤ → JobRow → JobRow
finished_row worker run stdout exit_code job = record job {
  stdout = stdout;
  exit_code = exit_code;
  result = some (worker.parse_output run.tool.parser (stdout_text stdout));
  evidence_sha256 = elim stdout [ none ↦ job.evidence_sha256 | some s ↦ some (worker.sha256 s) ];
  status = if is_zero exit_code then success else failed;
  finished_at = some worker.env.now;
}

-- The end of the `try` block: the commit, and the publication. If that raises, the second handler
-- writes the failure over the answer.
abbrev pub published : Worker → Run → JobRow → World → Executed
published worker run done w =
    if worker.publishes_end
    then record { ran = some run; raises = false; world = save_job w done }
    else record {
      ran = some run;
      raises = true;
      world = save_job (save_job w done) (failed_with worker.env.now (unexpected []) done);
    }

-- The rest of the `try` block, after the tool answered. Where the analysis raises, the second
-- handler marks the job as failed and commits; without a rollback, its `refresh` raises in a broken
-- session, and the `pass` leaves the row as it was.
record_answer : Worker → Run → Option Text → Option ℤ → ℕ → World → Executed
record_answer worker run stdout exit_code job_id w = elim (w.db.jobs job_id) [
  | none ↦ record { ran = some run; raises = true; world = w }
  | some job ↦
      let done = finished_row worker run stdout exit_code job in
      let after = worker.analyse done (save_job w done) in
      if is_cancelled job.status
      then record { ran = some run; raises = false; world = w }
      else elim after [
        | completed w' ↦ published worker run done w'
        | raised w' ↦ record {
          ran = some run;
          raises = true;
          world = save_job w' (failed_with worker.env.now (unexpected []) done);
        }
        | session_broken ↦ record { ran = some run; raises = true; world = w }
      ]
]

-- The row of the job is read again after whatever others did while the tool ran.
settle_run : Worker → Run → RunResult → ℕ → World → Executed
unfolding record_failure record_answer
settle_run worker run (answered stdout exit_code) job_id w =
    record_answer worker run stdout exit_code job_id (worker.meanwhile w)
settle_run worker run (agent_error e) job_id w =
    record_failure worker (some run) (agent_failed e) job_id (worker.meanwhile w)
settle_run worker run (crashed e) job_id w =
    record_failure worker (some run) (unexpected e) job_id (worker.meanwhile w)

-- The inner `try` block.
run_announced :
    Worker → ℕ → (tool_name : Text) → Dict Value → (timeout : Option ℕ) → JobRow → World → Executed
unfolding plan_run settle_run record_failure
run_announced worker job_id tool_name params timeout job w =
    elim (plan_run worker tool_name params timeout w job) [
      | err e ↦ record_failure worker none e job_id (worker.meanwhile w)
      | ok run ↦ settle_run worker run (worker.run_tool tool_name run.args run.timeout) job_id w
    ]

-- From the first commit on. The first publication stands outside the inner `try`: if it raises, no
-- handler touches the row, which stays as it was committed.
run_started :
    Worker → ℕ → (tool_name : Text) → Dict Value → (timeout : Option ℕ) → JobRow → World → Executed
unfolding run_announced
run_started worker job_id tool_name params timeout job w =
    if worker.publishes_start
    then run_announced worker job_id tool_name params timeout job w
    else record { ran = none; raises = true; world = worker.meanwhile w }

-- `_execute_job`
unfoldable pub execute_job :
    Worker
    → (job_id : ℕ) → (tool_name : Text) → Dict Value
    → (timeout : Option ℕ) → World
    → Executed
unfolding run_started
execute_job worker job_id tool_name params timeout w = elim (w.db.jobs job_id) [
  | none ↦ record { ran = none; raises = false; world = w }
  | some job ↦
      let started = record job { status = running; started_at = some worker.env.now } in
      if is_cancelled job.status
      then record { ran = none; raises = false; world = w }
      else run_started worker job_id tool_name params timeout started (save_job w started)
]

-- ===== src/Models.antt =====
-- backend/app/models: the rows of the database, and the state that the operations work on.
pub mod Result
pub mod Job
pub mod Mission
pub mod Chain
pub mod Schedule
pub mod Finding
pub mod Change
use cyberlab_kali.Base.{ℕ, List, Text, Table, Dict, if◌then◌else◌, ◌==◌}
use cyberlab_kali.Targets.{Asset}
use cyberlab_kali.Tools.Schema.{Value}
use Job.{JobRow}
use Mission.{MissionRow, MissionStep}
use Chain.{MissionTemplateStep, ChainRun, ChainRunStep}
use Schedule.{ScheduledJob}

-- The tables, each under its primary key. The steps of a mission, of a chain run and of a template
-- stand under the key of their parent, in the order of `step_order`, in which every query asks for
-- them.
pub record Db : Type 0 where
  pub assets : Table Asset
  pub jobs : Table JobRow
  pub missions : Table MissionRow
  pub mission_steps : ℕ → List MissionStep
  pub template_steps : Table (List MissionTemplateStep)
  pub chain_runs : Table ChainRun
  pub chain_run_steps : ℕ → List ChainRunStep
  pub schedules : Table ScheduledJob
  -- The next `uuid4()`, in each table that rows are added to.
  pub next_job : ℕ
  pub next_mission : ℕ
  pub next_chain_run : ℕ
  pub next_schedule : ℕ

-- A call of `queue.enqueue(execute_job, ...)`.
pub record QueueEntry : Type 0 where
  pub job_id : ℕ
  pub tool : Text
  pub params : Dict Value
  pub timeout : ℕ
  pub job_timeout : ℕ

-- What is committed to PostgreSQL, and what Redis holds, which no rollback takes back.
pub record World : Type 0 where
  pub db : Db
  pub queue : List QueueEntry

-- A write to the rows under one key.
abbrev pub set_rows {ℓ} : {A : Type ℓ} → (ℕ → A) → ℕ → A → ℕ → A
set_rows rows k v j = if k == j then v else rows j

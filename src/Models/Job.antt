-- ===== src/Models/Job.antt =====
-- backend/app/models/job.py
use cyberlab_kali.Base.{ℕ, Bool, true, false, Option, Text, Dict}
use cyberlab_kali.Targets.{AuthorizationStatus}
use cyberlab_kali.Tools.Registry.{ToolError}
use cyberlab_kali.Tools.Schema.{ℤ, Value}
use cyberlab_kali.Models.Result.{ParsedResult}

pub data JobStatus : Type 0 where
  queued running success failed cancelled : JobStatus

-- `_JOB_TERMINAL_STATUSES`
abbrev pub is_terminal : JobStatus → Bool
is_terminal success = true
is_terminal failed = true
is_terminal cancelled = true
is_terminal _ = false

-- The text of the column `error`, by what it is made of.
pub data JobError : Type 0 where
  rejected : ToolError → JobError
  authorization_revoked : Option AuthorizationStatus → JobError
  agent_failed unexpected : Text → JobError
  orphaned : JobStatus → (stuck_after : ℕ) → JobError

-- The columns that only the pages of the frontend read are left out.
pub record JobRow : Type 0 where
  pub id : ℕ
  pub tool : Text
  pub profile : Option Text
  pub target : Text
  pub project_id : Option ℕ
  pub target_id : Option ℕ
  pub params : Dict Value
  pub status : JobStatus
  pub created_at : ℕ
  pub started_at : Option ℕ
  pub finished_at : Option ℕ
  pub stdout : Option Text
  pub exit_code : Option ℤ
  pub result : Option ParsedResult
  pub error : Option JobError
  pub evidence_sha256 : Option Text

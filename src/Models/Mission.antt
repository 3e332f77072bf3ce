-- ===== src/Models/Mission.antt =====
-- backend/app/models/mission.py
use cyberlab_kali.Base.{ℕ, Bool, true, false, Option, Text, Dict}
use cyberlab_kali.Targets.{AuthorizationStatus}
use cyberlab_kali.Tools.Schema.{Value}
use cyberlab_kali.Tools.Registry.{ToolError}

pub data MissionStatus : Type 0 where
  draft approved running completed failed cancelled : MissionStatus

pub data MissionStepStatus : Type 0 where
  pending skipped queued success failed cancelled : MissionStepStatus

-- The text of `skip_reason`, by what it is made of.
pub data SkipReason : Type 0 where
  no_valid_tool asset_missing asset_deleted : SkipReason
  not_authorized : AuthorizationStatus → SkipReason
  rejected : ToolError → SkipReason
  condition_not_met : SkipReason

pub record MissionRow : Type 0 where
  pub id : ℕ
  pub project_id : Option ℕ
  pub target_id : ℕ
  pub status : MissionStatus
  pub max_steps : ℕ
  pub approved_at : Option ℕ
  pub finished_at : Option ℕ

pub record MissionStep : Type 0 where
  pub step_order : ℕ
  pub label : Text
  pub tool : Option Text
  pub profile : Option Text
  pub options : Dict Value
  pub status : MissionStepStatus
  pub job_id : Option ℕ
  pub skip_reason : Option SkipReason

-- `_TERMINAL_MISSION_STATUSES`
abbrev pub is_terminal : MissionStatus → Bool
is_terminal completed = true
is_terminal failed = true
is_terminal cancelled = true
is_terminal _ = false

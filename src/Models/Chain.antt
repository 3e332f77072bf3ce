-- ===== src/Models/Chain.antt =====
-- backend/app/models/mission_template.py
use cyberlab_kali.Base.{ℕ, Bool, true, false, Option, Text, Dict, List}
use cyberlab_kali.Tools.Schema.{Value}
use cyberlab_kali.Models.Mission.{SkipReason}

pub data ChainConditionType : Type 0 where
  always port_open technology_detected min_severity : ChainConditionType

pub data ChainRunStatus : Type 0 where
  running completed failed cancelled : ChainRunStatus

pub data ChainRunStepStatus : Type 0 where
  pending skipped queued success failed cancelled : ChainRunStepStatus

-- `condition_params`: the entries `ports` and `min_severity`, where they are given.
pub record ConditionParams : Type 0 where
  pub ports : List ℕ
  pub severity : Option Text

pub record MissionTemplateStep : Type 0 where
  pub step_order : ℕ
  pub tool : Text
  pub profile : Option Text
  pub options : Dict Value
  pub condition_type : ChainConditionType
  pub condition_params : ConditionParams

pub record ChainRun : Type 0 where
  pub id : ℕ
  pub template_id : Option ℕ
  pub target_id : ℕ
  pub project_id : Option ℕ
  pub status : ChainRunStatus
  pub created_at : ℕ
  pub finished_at : Option ℕ

pub record ChainRunStep : Type 0 where
  pub step_order : ℕ
  pub tool : Text
  pub profile : Option Text
  pub options : Dict Value
  pub condition_type : ChainConditionType
  pub condition_params : ConditionParams
  pub status : ChainRunStepStatus
  pub job_id : Option ℕ
  pub skip_reason : Option SkipReason

-- `_TERMINAL_CHAIN_RUN_STATUSES`
abbrev pub is_terminal : ChainRunStatus → Bool
is_terminal running = false
is_terminal _ = true

-- ===== src/Models/Schedule.antt =====
-- backend/app/models/scheduled_job.py
use cyberlab_kali.Base.{ℕ, Option, Text, Dict}
use cyberlab_kali.Tools.Schema.{Value}
use cyberlab_kali.Models.Mission.{SkipReason}

pub data ScheduledJobStatus : Type 0 where
  active paused disabled : ScheduledJobStatus

-- `last_error` holds the reason that a skipped step would hold.
pub record ScheduledJob : Type 0 where
  pub id : ℕ
  pub asset_id : Option ℕ
  pub tool : Text
  pub profile : Option Text
  pub params : Dict Value
  pub interval_seconds : ℕ
  pub status : ScheduledJobStatus
  pub next_run_at : ℕ
  pub last_run_at : Option ℕ
  pub last_job_id : Option ℕ
  pub consecutive_failures : ℕ
  pub last_error : Option SkipReason

-- ===== src/Models/Finding.antt =====
-- backend/app/models/finding.py and finding_relation.py
use cyberlab_kali.Base.{ℕ, Option, List, Text}

pub data Severity : Type 0 where
  info low medium high critical : Severity

pub data FindingStatus : Type 0 where
  new confirmed in_review accepted_risk false_positive remediated reopened : FindingStatus

-- The JSON of `evidence`: the entries `port`, where `int` accepts it, and `protocol`, and the rest.
-- The empty dictionary is the only one that is false.
pub data Evidence : Type 0 where
  empty : Evidence
  filled : (port : Option ℕ) → (protocol : Option Text) → (rest : Text) → Evidence

-- The columns that the risk score fills are in backend/app/risk, and left out.
pub record Finding : Type 0 where
  pub job_id : ℕ
  pub target : Text
  pub source_tool : Text
  pub title : Text
  pub description : Text
  pub severity : Severity
  pub evidence : Evidence
  pub recommendation : Option Text
  pub cve_ids : List Text
  pub signature : Option Text
  pub status : FindingStatus
  pub first_seen : ℕ
  pub last_seen : ℕ
  pub observation_count : ℕ
  pub source_tools : List Text
  pub observation_job_ids : List ℕ

pub data TriggeredBy : Type 0 where
  manual automatic : TriggeredBy

pub record FindingStatusHistory : Type 0 where
  pub finding_id : ℕ
  pub old_status : FindingStatus
  pub new_status : FindingStatus
  pub reason : Option Text
  pub triggered_by : TriggeredBy

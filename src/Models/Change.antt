-- ===== src/Models/Change.antt =====
-- backend/app/models/asset_change_event.py, and the dictionaries that diff/engine.py returns.
use cyberlab_kali.Base.{ℕ, Option, Text}
use cyberlab_kali.Models.Finding.{Severity}

pub data ChangeType : Type 0 where
  port_opened port_closed service_changed : ChangeType
  technology_added technology_removed technology_changed : ChangeType
  certificate_changed http_changed other : ChangeType

-- The text of `field`, by what it is made of.
pub data ChangeField : Type 0 where
  port : ℕ → Text → ChangeField
  technology subject not_valid_after path : Text → ChangeField
  http_status : ChangeField

-- `metadata`: empty, a port with its protocol, or an endpoint.
pub data ChangeMetadata : Type 0 where
  nothing : ChangeMetadata
  at_port : ℕ → Text → ChangeMetadata
  at_endpoint : Text → ChangeMetadata

pub record Change : Type 0 where
  pub change_type : ChangeType
  pub severity : Severity
  pub field : ChangeField
  pub old_value : Option Text
  pub new_value : Option Text
  pub metadata : ChangeMetadata

-- `change_metadata` is the column; the constructor is given `metadata`, which is no column.
pub record AssetChangeEvent : Type 0 where
  pub asset_id : ℕ
  pub job_id : ℕ
  pub previous_job_id : Option ℕ
  pub change_type : ChangeType
  pub severity : Severity
  pub field : ChangeField
  pub old_value : Option Text
  pub new_value : Option Text
  pub change_metadata : ChangeMetadata

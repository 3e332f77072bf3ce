-- ===== src/Jobs/Creation.antt =====
-- What the four creators of jobs have in common: the row that they add, the call of
-- `queue.enqueue`, and what they read of their surroundings.
use cyberlab_kali.Base.{ℕ, ◌+◌, Bool, Option, none, some, [], ◌∷◌, ◌++◌, Text, put}
use cyberlab_kali.Targets.{Asset, address}
use cyberlab_kali.Tools.Registry.{Parsers, Registry}
use cyberlab_kali.Models.{Db, QueueEntry, World}
use cyberlab_kali.Models.Job.{JobRow, queued}
use cyberlab_kali.Jobs.Service.{PreparedJob}

-- The surroundings of one call: the loaded definitions, the parsers that they use, the clock, and
-- whether Redis takes an entry (`queue.enqueue` raises if it does not).
pub record Env : Type 0 where
  pub registry : Registry
  pub parsers : Parsers
  pub now : ℕ
  pub redis_up : Bool

-- `Job(tool=..., profile=..., target=..., ..., status=JobStatus.QUEUED)`
abbrev pub new_job :
    (now id : ℕ)
    → Text
    → Option Text
    → (target : Text) → (project_id target_id : Option ℕ) → PreparedJob
    → JobRow
new_job now id tool profile target project_id target_id prepared = record {
  id = id;
  tool = tool;
  profile = profile;
  target = target;
  project_id = project_id;
  target_id = target_id;
  params = prepared.full_params;
  status = queued;
  created_at = now;
  started_at = none;
  finished_at = none;
  stdout = none;
  exit_code = none;
  result = none;
  error = none;
  evidence_sha256 = none;
}

-- The job that a mission, a chain run or a schedule creates against a registered asset.
abbrev pub asset_job : Env → ℕ → Text → Option Text → Asset → PreparedJob → JobRow
asset_job env id tool profile asset prepared =
    new_job env.now id tool profile (address asset) (some asset.project_id) (some asset.id) prepared

-- `session.add(job); session.flush()`
abbrev pub add_job : Db → JobRow → Db
add_job db job = record db { jobs = put db.jobs job.id job; next_job = db.next_job + 1 }

-- RQ's own limit leaves the tool's timeout a margin of 30 seconds.
abbrev pub entry_for : ℕ → Text → PreparedJob → QueueEntry
entry_for id tool prepared = record {
  job_id = id;
  tool = tool;
  params = prepared.full_params;
  timeout = prepared.effective_timeout;
  job_timeout = prepared.effective_timeout + 30;
}

abbrev pub enqueue : World → QueueEntry → World
enqueue w entry = record w { queue = w.queue ++ entry ∷ [] }

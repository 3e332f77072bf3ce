-- ===== src/Samples.antt =====
-- Small inputs on which the tests run: a registry of one tool, an asset, and a mission.
use cyberlab_kali.Base.{
  true, false, none, some, List, [], ◌∷◌, Text, codes, put, if◌then◌else◌, ◌==◌,
}
use cyberlab_kali.Targets.{Asset, lab, high}
use cyberlab_kali.Tools.Schema.{
  pos, Value, null, int, target, integer, caution, ArgumentDef, ToolProfile, ToolDefinition,
}
use cyberlab_kali.Tools.Registry.{Parsers, Registry}
use cyberlab_kali.Models.{Db, World}
use cyberlab_kali.Models.Mission
use cyberlab_kali.Models.Mission.{MissionRow, MissionStep, draft}
use cyberlab_kali.Jobs.Creation.{Env}

abbrev pub target_arg : ArgumentDef
target_arg = record {
  name = codes "target";
  type = target;
  required = true;
  positional = true;
  flag = none;
  default = null;
  pattern = none;
  choices = none;
  min_value = none;
  max_value = none;
}

abbrev pub port_arg : ArgumentDef
port_arg = record {
  name = codes "port";
  type = integer;
  required = true;
  positional = true;
  flag = none;
  default = null;
  pattern = none;
  choices = none;
  min_value = some (pos 1);
  max_value = some (pos 65535);
}

abbrev pub port_check : ToolProfile
port_check = record { name = codes "port_check"; args = []; timeout = some 10 }

-- backend/app/tools/definitions/nc.yaml
abbrev pub nc : ToolDefinition
nc = record {
  name = codes "nc";
  risk_level = caution;
  ai_allowed = true;
  fixed_args = codes "-zv" ∷ codes "-w" ∷ codes "5" ∷ [];
  arguments = target_arg ∷ port_arg ∷ [];
  profiles = port_check ∷ [];
  parser = codes "none";
  default_timeout = 60;
  max_timeout = 300;
}

abbrev pub registry : Registry
registry = (codes "nc", nc) ∷ []

-- Parsers for inputs without a scheme and without patterns.
abbrev pub parsers : Parsers
parsers = record {
  urlparse = λ s. some (record { scheme = []; hostname = none });
  pattern_match = λ p s. false;
  lower = λ s. s;
}

abbrev pub env : Env
env = record { registry = registry; parsers = parsers; now = 1000; redis_up = true }

abbrev pub dvwa : Asset
dvwa = record {
  id = 1;
  project_id = 1;
  name = codes "dvwa";
  hostname = some (codes "cyberlab-lab-dvwa");
  ip_address = none;
  url = none;
  criticality = high;
  authorization_status = lab;
  first_seen = none;
  last_seen = none;
  technologies = [];
}

abbrev pub port_80 : List (Text × Value)
port_80 = (codes "port", int (pos 80)) ∷ []

abbrev pub scan_step : MissionStep
scan_step = record {
  step_order = 0;
  label = codes "scan";
  tool = some (codes "nc");
  profile = some (codes "port_check");
  options = port_80;
  status = Mission.pending;
  job_id = none;
  skip_reason = none;
}

abbrev pub mission : MissionRow
mission = record {
  id = 7;
  project_id = some 1;
  target_id = 1;
  status = draft;
  max_steps = 10;
  approved_at = none;
  finished_at = none;
}

abbrev pub empty_db : Db
empty_db = record {
  assets = put (λ k. none) 1 dvwa;
  jobs = λ k. none;
  missions = put (λ k. none) 7 mission;
  mission_steps = λ k. if 7 == k then scan_step ∷ [] else [];
  template_steps = λ k. none;
  chain_runs = λ k. none;
  chain_run_steps = λ k. [];
  schedules = λ k. none;
  next_job = 100;
  next_mission = 8;
  next_chain_run = 0;
  next_schedule = 3;
}

abbrev pub world : World
world = record { db = empty_db; queue = [] }

-- ===== src/Witnesses/Diff.antt =====
-- backend/app/diff on two scans of one host: a port that was closed, and one that was opened.
use cyberlab_kali.Base.{
  ◌≡◌, refl, true, none, some, List, [], ◌∷◌, codes, text_eq, put, All, length, ℕ, set, scan,
  add_row, sort_desc, insert_desc,
}
use cyberlab_kali.Models.{Db}
use cyberlab_kali.Models.Result.{Port, ParsedResult}
use cyberlab_kali.Models.Job.{JobRow, JobStatus}
use cyberlab_kali.Diff.Ports.{
  PortKey, is_open_in, add_port, add_ports, add_hosts, nmap_port_map, compare_port, open_port,
  closed_port, diff_nmap,
}
use cyberlab_kali.Diff.Engine.{is_supported, diff_results}
use cyberlab_kali.Diff.Same.{diff_results-same}
use cyberlab_kali.Diff.Replay.{replay, replay-diff_nmap}
use cyberlab_kali.Diff.Service.{
  previous_on, find_previous_comparable_job, generate_change_events, IsAbout,
  generate_change_events-IsAbout,
}
use cyberlab_kali.Samples.{empty_db}

abbrev open_port_of : ℕ → Port
open_port_of number = record {
  protocol = codes "tcp";
  port = some number;
  state = codes "open";
  service = some (codes "http");
  product = none;
  version = none;
}

abbrev scan_of : List Port → ParsedResult
scan_of ports = record {
  hosts = record { ports = ports } ∷ [];
  web_results = [];
  findings = [];
  ssl_targets = [];
  paths = [];
}

abbrev first : ParsedResult
first = scan_of (open_port_of 80 ∷ open_port_of 443 ∷ [])

abbrev second : ParsedResult
second = scan_of (open_port_of 443 ∷ open_port_of 8080 ∷ [])

abbrev port_80 : PortKey
port_80 = record { protocol = codes "tcp"; number = 80 }

two_changes : length (diff_nmap first second) ≡ 2
unfolding diff_nmap nmap_port_map add_hosts add_ports add_port set text_eq compare_port open_port
    closed_port
two_changes = refl

replay-diff_nmap_example :
    replay port_80 (diff_nmap first second) (is_open_in (nmap_port_map first) port_80)
    ≡ is_open_in (nmap_port_map second) port_80
replay-diff_nmap_example = replay-diff_nmap first second port_80

diff_results-same_example : diff_results (codes "nmap") first first ≡ []
diff_results-same_example = diff_results-same (codes "nmap") first

abbrev scan_job : ℕ → ParsedResult → JobRow
scan_job id result = record {
  id = id;
  tool = codes "nmap";
  profile = none;
  target = codes "10.0.0.5";
  project_id = some 1;
  target_id = some 1;
  params = [];
  status = JobStatus.success;
  created_at = id;
  started_at = none;
  finished_at = none;
  stdout = none;
  exit_code = none;
  result = some result;
  error = none;
  evidence_sha256 = none;
}

abbrev scanned : Db
scanned = record empty_db {
  jobs = put (put (λ k. none) 1 (scan_job 1 first)) 2 (scan_job 2 second);
  next_job = 3;
}

two_events : length (generate_change_events (λ a b. true) scanned (scan_job 2 second)) ≡ 2
unfolding generate_change_events find_previous_comparable_job previous_on is_supported diff_results
    diff_nmap nmap_port_map add_hosts add_ports add_port set text_eq compare_port open_port
    closed_port scan add_row sort_desc insert_desc
two_events = refl

generate_change_events-IsAbout_example :
    All
      (IsAbout (λ a b. true) scanned (scan_job 2 second))
      (generate_change_events (λ a b. true) scanned (scan_job 2 second))
generate_change_events-IsAbout_example =
    generate_change_events-IsAbout (λ a b. true) scanned (scan_job 2 second)

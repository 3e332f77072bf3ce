-- ===== src/Findings/Service.antt =====
-- backend/app/findings/service.py: a finding is created on its first observation and merged into on
-- each later one. What the risk score recomputes is left out, as is the retry after a lost race,
-- which ends in one of the two branches.
pub mod Merging
pub mod Uniqueness
use cyberlab_kali.Base.{
  ℕ, ◌+◌, ltb, ◌==◌, if◌then◌else◌, Bool, true, false, not, Option, none, some, List, [], ◌∷◌, ◌++◌,
  Text, codes, elem, any, find, keep, map, sorted_set, update_first, text_eq,
}
use cyberlab_kali.Models.Finding.{Severity, new, Evidence, empty, filled, Finding}
use cyberlab_kali.Models.Job.{JobRow}
use cyberlab_kali.Findings.Signature.{
  TextTools, normalize_title, extract_port_protocol, finding_signature,
}
use cyberlab_kali.Findings.Lifecycle.{Tracked, maybe_auto_reopen}

-- What an extractor says of one observation.
pub record FindingData : Type 0 where
  pub source_tool : Text
  pub title : Text
  pub target : Text
  pub description : Text
  pub severity : Severity
  pub evidence : Evidence
  pub recommendation : Option Text
  pub cve_ids : List Text

abbrev is_nonempty : Text → Bool
is_nonempty [] = false
is_nonempty (_ ∷ _) = true

-- `sorted({c.upper() for c in ... if c})`
abbrev pub normalize_cve_ids : (upper : Text → Text) → List Text → List Text
normalize_cve_ids upper ids = sorted_set (map upper (keep is_nonempty ids))

-- `_build_finding`
abbrev pub build_finding :
    (job_id : ℕ)
    → FindingData
    → (cve_ids : List Text) → (signature : Option Text) → (observed_at : ℕ) → Finding
build_finding job_id observed cve_ids signature observed_at = record {
  job_id = job_id;
  target = observed.target;
  source_tool = observed.source_tool;
  title = observed.title;
  description = observed.description;
  severity = observed.severity;
  evidence = observed.evidence;
  recommendation = observed.recommendation;
  cve_ids = cve_ids;
  signature = signature;
  status = new;
  first_seen = observed_at;
  last_seen = observed_at;
  observation_count = 1;
  source_tools = observed.source_tool ∷ [];
  observation_job_ids = job_id ∷ [];
}

abbrev add_tool : Text → List Text → List Text
add_tool tool tools = if elem tool tools then tools else tools ++ tool ∷ []

abbrev add_job_id : ℕ → List ℕ → List ℕ
add_job_id id ids = if any (λ i. i == id) ids then ids else ids ++ id ∷ []

-- A text replaces another one only if it is known and not empty.
abbrev newer_text : Text → Text → Text
newer_text [] old = old
newer_text (c ∷ s) old = c ∷ s

abbrev newer_option : Option Text → Option Text → Option Text
newer_option none old = old
newer_option (some []) old = old
newer_option (some (c ∷ s)) old = some (c ∷ s)

abbrev newer_evidence : Evidence → Evidence → Evidence
newer_evidence empty old = old
newer_evidence (filled port protocol rest) old = filled port protocol rest

-- The writes of `_merge_observation`, up to the check of the status.
unfoldable pub merge_fields :
    (job_id : ℕ) → FindingData → (cve_ids : List Text) → (observed_at : ℕ) → Finding → Finding
merge_fields job_id observed cve_ids observed_at finding = record finding {
  first_seen = if ltb observed_at finding.first_seen then observed_at else finding.first_seen;
  last_seen = if ltb finding.last_seen observed_at then observed_at else finding.last_seen;
  observation_count = finding.observation_count + 1;
  source_tools = add_tool observed.source_tool finding.source_tools;
  observation_job_ids = add_job_id job_id finding.observation_job_ids;
  cve_ids = sorted_set (finding.cve_ids ++ cve_ids);
  recommendation = newer_option observed.recommendation finding.recommendation;
  description = newer_text observed.description finding.description;
  evidence = newer_evidence observed.evidence finding.evidence;
}

-- `_merge_observation`
unfoldable pub merge_observation :
    (job_id : ℕ)
    → FindingData
    → (cve_ids : List Text) → (observed_at : ℕ) → (reason : Text) → Tracked
    → Option (Tracked × Bool)
unfolding merge_fields
merge_observation job_id observed cve_ids observed_at reason t =
    maybe_auto_reopen
      (record t { finding = merge_fields job_id observed cve_ids observed_at t.finding }) reason

-- The rows of the table of findings, and the next `uuid4()`.
pub record FindingTable : Type 0 where
  pub rows : List Tracked
  pub next_id : ℕ

-- `Finding.signature == signature`
abbrev pub has_signature : Text → Tracked → Bool
has_signature signature t = elim t.finding.signature [ none ↦ false | some s ↦ text_eq s signature ]

-- `session.add(finding)` and `session.flush()`
abbrev add_finding : Finding → FindingTable → FindingTable
add_finding finding table = record {
  rows = table.rows ++ record { id = table.next_id; finding = finding; history = [] } ∷ [];
  next_id = table.next_id + 1;
}

-- The write of the merged row.
abbrev save_merged : Text → FindingTable → Option (Tracked × Bool) → Option FindingTable
save_merged signature table none = none
save_merged signature table (some (t, b)) =
    some (record table { rows = update_first (has_signature signature) (λ _. t) table.rows })

-- `job.finished_at or datetime.now(timezone.utc)`
abbrev observed_at_of : JobRow → (now : ℕ) → ℕ
observed_at_of job now = elim job.finished_at [ none ↦ now | some t ↦ t ]

abbrev reopen_reason : TextTools → Text → ℕ → Text
reopen_reason tools source_tool job_id =
    codes "Re-observed by " ++ source_tool ++ codes " (job " ++ tools.uuid_str job_id ++ codes ")"

-- The body of `upsert_finding` once the signature is known.
unfoldable pub upsert_signed :
    TextTools
    → JobRow
    → (now : ℕ) → FindingData
    → (cve_ids : List Text) → (signature : Option Text) → FindingTable
    → Option FindingTable
unfolding merge_observation
upsert_signed tools job now observed cve_ids none table =
    some (add_finding (build_finding job.id observed cve_ids none (observed_at_of job now)) table)
upsert_signed tools job now observed cve_ids (some signature) table =
    let observed_at = observed_at_of job now in
    elim (find (has_signature signature) table.rows) [
      | none ↦
          some
            (add_finding (build_finding job.id observed cve_ids (some signature) observed_at) table)
      | some t ↦ save_merged signature table (
          merge_observation job.id observed cve_ids observed_at
            (reopen_reason tools observed.source_tool job.id) t)
    ]

-- `upsert_finding`; `none` where an exception goes up.
unfoldable pub upsert_finding :
    TextTools → JobRow → (now : ℕ) → FindingData → FindingTable → Option FindingTable
upsert_finding tools job now observed table =
    let cve_ids = normalize_cve_ids tools.upper observed.cve_ids in
    elim (extract_port_protocol tools observed.source_tool observed.target observed.evidence) [
      | none ↦ none
      | some (port, protocol) ↦
          upsert_signed tools job now observed cve_ids
            (finding_signature tools job.target_id cve_ids (normalize_title tools observed.title)
              port protocol)
            table
    ]

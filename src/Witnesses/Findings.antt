-- ===== src/Witnesses/Findings.antt =====
-- backend/app/findings on the observation of one open port.
use cyberlab_kali.Base.{
  Bool-cases, inl, inr, Text, ◌≡◌, refl, Bool, none, some, [], ◌∷◌, ◌++◌, codes, arith, ◌==◌, elem,
  text_eq, text_ltb, sorted_set, starts_with,
}
use cyberlab_kali.Tools.Registry.{str}
use cyberlab_kali.Models.Finding.{info, filled, new, confirmed, in_review, remediated}
use cyberlab_kali.Findings.Signature.{
  TextTools, normalize_title, extract_port_protocol, finding_signature, join,
}
use cyberlab_kali.Findings.Signature.Identity.{finding_signature-same_cves}
use cyberlab_kali.Findings.Lifecycle.{Tracked, transition_status, maybe_auto_reopen}
use cyberlab_kali.Findings.Lifecycle.Reach.{
  start, change, observe, act_all, IsTrailed, act_all-IsTrailed,
}
use cyberlab_kali.Findings.Service.{
  FindingData, build_finding, FindingTable, merge_fields, merge_observation, upsert_signed,
  upsert_finding,
}
use cyberlab_kali.Findings.Service.Merging.{IsMerged, merge_observation-IsMerged}
use cyberlab_kali.Findings.Service.Uniqueness.{IsUnique, upsert_finding-IsUnique}
use cyberlab_kali.Witnesses.Jobs.{job}

findings : Unit {0}
unfolding str normalize_title extract_port_protocol finding_signature join transition_status
    maybe_auto_reopen merge_fields merge_observation upsert_signed upsert_finding elem text_eq
    text_ltb sorted_set starts_with
findings = tt

abbrev tools : TextTools
tools = record {
  lower = λ s. s;
  upper = λ s. s;
  is_space = λ c. c == 32;
  urlparse = λ s. none;
  sha256 = λ s. s;
  uuid_str = λ n. n ∷ [];
}

abbrev open_port : FindingData
open_port = record {
  source_tool = codes "nmap";
  title = codes "open port  80/tcp ";
  target = codes "10.0.0.5";
  description = codes "http";
  severity = info;
  evidence = filled (some 80) (some (codes "tcp")) [];
  recommendation = none;
  cve_ids = [];
}

-- The title is normalized in the signature.
signed :
    finding_signature tools
      (some 1)
      []
      (normalize_title tools open_port.title)
      (some 80)
      (some (codes "tcp"))
    ≡ some (codes "generic|" ++ 1 ∷ codes "|open port 80/tcp|80|tcp")
unfolding findings
signed = refl

abbrev row : Tracked
row = record { id = 0; finding = build_finding 3 open_port [] (some (codes "s")) 900; history = [] }

merge_observation-IsMerged_example :
    (merged : Tracked) × (is_reopened : Bool) × (merge_observation 4 open_port
        (codes "CVE-1" ∷ [])
        950
        (codes "nmap")
        row
      ≡ some (merged, is_reopened))
    × IsMerged 4 open_port (codes "CVE-1" ∷ []) 950 row merged is_reopened
merge_observation-IsMerged_example =
    merge_observation-IsMerged 4 open_port (codes "CVE-1" ∷ []) 950 (codes "nmap") row

act_all-IsTrailed_example : IsTrailed (
    act_all
      (change confirmed none
        ∷ change in_review none
        ∷ change remediated none
        ∷ observe (codes "nmap")
        ∷ change new none
        ∷ [])
      row)
act_all-IsTrailed_example =
    act_all-IsTrailed
      (change confirmed none
        ∷ change in_review none
        ∷ change remediated none
        ∷ observe (codes "nmap")
        ∷ change new none
        ∷ [])
      row start

abbrev table : FindingTable
table = record { rows = []; next_id = 0 }

abbrev table_after : FindingTable
table_after = record {
  rows =
      record {
        id = 0;
        finding =
            build_finding 3 open_port []
              (some (codes "generic|" ++ 1 ∷ codes "|open port 80/tcp|80|tcp")) 1000;
        history = [];
      }
      ∷ [];
  next_id = 1;
}

upserted : upsert_finding tools job 1000 open_port table ≡ some table_after
unfolding findings
upserted = refl

upsert_finding-IsUnique_example : IsUnique table_after
upsert_finding-IsUnique_example =
    upsert_finding-IsUnique tools job 1000 open_port table table_after (λ s. omega arith) upserted

same_ids :
    (x : Text)
    → elem x (codes "CVE-2" ∷ codes "CVE-1" ∷ [])
      ≡ elem x (codes "CVE-1" ∷ codes "CVE-2" ∷ codes "CVE-1" ∷ [])
unfolding elem
same_ids x = elim (Bool-cases (text_eq x (codes "CVE-1"))) [
  | inl e ↦ elim (Bool-cases (text_eq x (codes "CVE-2"))) [
    | inl f ↦ rw e (rw f refl)
    | inr f ↦ rw e (rw f refl)
  ]
  | inr e ↦ elim (Bool-cases (text_eq x (codes "CVE-2"))) [
    | inl f ↦ rw e (rw f refl)
    | inr f ↦ rw e (rw f refl)
  ]
]

finding_signature-same_cves_example :
    finding_signature tools (some 1) (codes "CVE-2" ∷ codes "CVE-1" ∷ []) (codes "a") none none
    ≡ finding_signature tools
        (some 1)
        (codes "CVE-1" ∷ codes "CVE-2" ∷ codes "CVE-1" ∷ [])
        (codes "b")
        (some 80)
        (some (codes "tcp"))
finding_signature-same_cves_example =
    finding_signature-same_cves tools (some 1) (codes "CVE-2") (codes "CVE-1") (codes "CVE-1" ∷ [])
      (codes "CVE-2" ∷ codes "CVE-1" ∷ []) (codes "a") (codes "b") none (some 80) none
      (some (codes "tcp")) same_ids

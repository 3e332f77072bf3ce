-- ===== src/Findings/Service/Uniqueness.antt =====
-- The table of findings keeps one row for each signature.
use cyberlab_kali.Base.{
  ℕ, ◌+◌, ◌≡◌, ◌≤◌, inl, inr, Bool, true, false, Option, none, some, List, [], ◌∷◌, ◌++◌, Text,
  text_eq, text_eq→eq, find, count, update_first, arith, Bool-cases, Option-cases,
  count-zero_of_find, ap, subst,
}
use cyberlab_kali.Models.Job.{JobRow}
use cyberlab_kali.Models.Finding.{Finding}
use cyberlab_kali.Findings.Lifecycle.{Tracked}
use cyberlab_kali.Findings.Signature.{
  TextTools, extract_port_protocol, finding_signature, normalize_title,
}
use cyberlab_kali.Findings.Service.{
  FindingData, FindingTable, has_signature, add_finding, build_finding, normalize_cve_ids,
  observed_at_of, reopen_reason, upsert_signed, upsert_finding,
}
use cyberlab_kali.Findings.Service.Merging.{merge_observation-IsMerged}

named_signature :
    (signature : Text) (t : Tracked)
    → has_signature signature t ≡ true
    → t.finding.signature ≡ some signature
named_signature signature t h = elim (Option-cases t.finding.signature) [
  | inl e ↦ absurd (ground (arith, e))
  | inr (s, e) ↦
      let same : s ≡ signature = text_eq→eq s signature (ground (arith, e)) in ground (arith, e)
]

-- No signature stands in two rows.
abbrev pub IsUnique : FindingTable → Type 0
IsUnique table = (signature : Text) → count (has_signature signature) table.rows ≤ 1

count-append :
    (p : Tracked → Bool) (xs ys : List Tracked) → count p (xs ++ ys) ≡ count p xs + count p ys
count-append p [] ys = omega arith
count-append p (x ∷ xs) ys = ground (arith, count-append p xs ys)

-- A write to the row of one signature that keeps the signature.
count-update_kept :
    (p q : Tracked → Bool) (kept : Tracked) (rows : List Tracked) (t : Tracked)
    → find q rows ≡ some t
    → p kept ≡ p t
    → count p (update_first q (λ _. kept) rows) ≡ count p rows
count-update_kept p q kept [] t h same = absurd (ground arith)
count-update_kept p q kept (y ∷ ys) t h same = ground (arith, count-update_kept p q kept ys t)

add_finding-IsUnique :
    (finding : Finding) (table : FindingTable)
    → IsUnique table
    → ((signature : Text)
        → finding.signature ≡ some signature
        → find (has_signature signature) table.rows ≡ none)
    → IsUnique (add_finding finding table)
add_finding-IsUnique finding table unique fresh signature =
    let row : Tracked = record { id = table.next_id; finding = finding; history = [] } in
    let split = count-append (has_signature signature) table.rows (row ∷ []) in
    let before = unique signature in
    elim (Bool-cases (has_signature signature row)) [
      | inr e ↦ rw split (rw e (omega arith))
      | inl e ↦
          let named = named_signature signature row e in
          let absent =
            count-zero_of_find (has_signature signature) table.rows (fresh signature named) in
          rw split (rw e (omega arith))
    ]

-- A merge keeps the signature of its row.
merged_has :
    (signature : Text) (old merged : Tracked)
    → merged.finding.signature ≡ old.finding.signature
    → has_signature signature merged ≡ has_signature signature old
merged_has signature old merged same =
    ap (λ o. elim o [ none ↦ false | some s ↦ text_eq s signature ]) same

module _ (tools : TextTools) (job : JobRow) (now : ℕ) (observed : FindingData)
    (cve_ids : List Text) where
  upsert_signed-IsUnique :
      (signature : Option Text) (table after : FindingTable)
      → IsUnique table
      → upsert_signed tools job now observed cve_ids signature table ≡ some after
      → IsUnique after
  unfolding upsert_signed
  upsert_signed-IsUnique none table after unique = λ h.
      let row = build_finding job.id observed cve_ids none (observed_at_of job now) in
      let same : add_finding row table ≡ after = ground arith in
      subst IsUnique same (add_finding-IsUnique row table unique (λ s e. absurd (ground arith)))
  upsert_signed-IsUnique (some signature) table after unique =
      let at = observed_at_of job now in
      elim (Option-cases (find (has_signature signature) table.rows)) [
        | inl e ↦
            rw (e, upsert_signed)
              (λ h.
                let row = build_finding job.id observed cve_ids (some signature) at in
                let same : add_finding row table ≡ after = ground arith in
                subst IsUnique same (
                  add_finding-IsUnique row table unique (λ s f.
                    let one : signature ≡ s = ground arith in
                    subst (λ x. find (has_signature x) table.rows ≡ none) one e)))
        | inr (t, e) ↦
            let (merged, b, f, facts) =
              merge_observation-IsMerged job.id observed cve_ids at
                (reopen_reason tools observed.source_tool job.id) t in
            rw (e, upsert_signed)
              (rw f (λ h.
                let rows = update_first (has_signature signature) (λ _. merged) table.rows in
                let same : (record table { rows = rows }) ≡ after = ground arith in
                subst IsUnique same (λ s.
                  let kept =
                    count-update_kept (has_signature s) (has_signature signature) merged table.rows
                      t e (merged_has s t merged facts.same_signature) in
                  rw kept (unique s))))
      ]

-- Where no signature stands in two rows, none does after upsert_finding returns.
pub upsert_finding-IsUnique :
    (tools : TextTools) (job : JobRow) (now : ℕ) (observed : FindingData)
    (table after : FindingTable)
    → IsUnique table
    → upsert_finding tools job now observed table ≡ some after
    → IsUnique after
unfolding upsert_finding
upsert_finding-IsUnique tools job now observed table after unique =
    elim (Option-cases
      (extract_port_protocol tools observed.source_tool observed.target observed.evidence)) [
        | inl e ↦ rw (e, upsert_finding) (λ h. absurd (ground arith))
        | inr ((port, protocol), e) ↦
            let cve_ids = normalize_cve_ids tools.upper observed.cve_ids in
            rw (e, upsert_finding)
              (upsert_signed-IsUnique tools job now observed cve_ids
                (finding_signature tools job.target_id cve_ids
                  (normalize_title tools observed.title) port protocol)
                table after unique)
      ]

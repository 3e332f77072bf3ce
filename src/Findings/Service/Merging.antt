-- ===== src/Findings/Service/Merging.antt =====
-- What a later observation of a finding changes in its row.
use cyberlab_kali.Base.{
  ℕ, ◌+◌, ◌≡◌, ◌≤◌, inl, inr, refl, sym, if◌then◌else◌, Bool, true, false, ◌||◌, some, List, [],
  ◌∷◌, ◌++◌, Text, text_eq_refl, elem, any, any-append, elem-sorted_set, is_increasing,
  sorted_set-increasing, arith, Bool-cases, ◌==◌, ==_refl, ◌∙◌,
}
use cyberlab_kali.Models.Finding.{
  FindingStatus, FindingStatusHistory, automatic, false_positive, remediated, reopened,
}
use cyberlab_kali.Findings.Lifecycle.{
  Tracked, auto_reopen_from, is_valid_transition, append_history, transition_status,
  maybe_auto_reopen,
}
use cyberlab_kali.Findings.Service.{
  FindingData, merge_fields, merge_observation, add_tool, add_job_id,
}

reopen_valid :
    (s : FindingStatus) → auto_reopen_from s ≡ true → is_valid_transition s reopened ≡ true
reopen_valid remediated h = refl
reopen_valid false_positive h = refl
reopen_valid _ h = absurd (ground arith)

-- What a merged row owes to the row before it and to the observation.
pub record IsMerged (job_id : ℕ) (observed : FindingData) (cve_ids : List Text) (observed_at : ℕ)
    (old merged : Tracked) (is_reopened : Bool) : Type 0 where
  pub same_id : merged.id ≡ old.id
  pub same_signature : merged.finding.signature ≡ old.finding.signature
  pub first_seen_min :
      (merged.finding.first_seen ≤ old.finding.first_seen)
      × (merged.finding.first_seen ≤ observed_at)
  pub last_seen_max :
      (old.finding.last_seen ≤ merged.finding.last_seen) × (observed_at ≤ merged.finding.last_seen)
  pub counted : merged.finding.observation_count ≡ old.finding.observation_count + 1
  pub cve_union :
      (c : Text) → elem c merged.finding.cve_ids ≡ (elem c old.finding.cve_ids || elem c cve_ids)
  pub cves_sorted : is_increasing merged.finding.cve_ids ≡ true
  pub tool_listed : elem observed.source_tool merged.finding.source_tools ≡ true
  pub job_listed : any (λ i. i == job_id) merged.finding.observation_job_ids ≡ true
  pub reopens : is_reopened ≡ auto_reopen_from old.finding.status
  pub status :
      merged.finding.status
      ≡ (if auto_reopen_from old.finding.status then reopened else old.finding.status)

elem-append : (x : Text) (xs ys : List Text) → elem x (xs ++ ys) ≡ (elem x xs || elem x ys)
unfolding elem
elem-append x [] ys = refl
elem-append x (y ∷ xs) ys = ground (arith, elem-append x xs ys)

add_tool-elem : (tool : Text) (tools : List Text) → elem tool (add_tool tool tools) ≡ true
unfolding elem
add_tool-elem tool tools = ground (arith, elem-append tool tools (tool ∷ []), text_eq_refl tool)

add_job_id-any : (id : ℕ) (ids : List ℕ) → any (λ i. i == id) (add_job_id id ids) ≡ true
add_job_id-any id ids = ground (arith, any-append (λ i. i == id) ids (id ∷ []), ==_refl id)

module _ (job_id : ℕ) (observed : FindingData) (cve_ids : List Text) (observed_at : ℕ)
    (reason : Text) (t : Tracked) where
  merge_fields-cves :
      (c : Text)
      → elem c (merge_fields job_id observed cve_ids observed_at t.finding).cve_ids
        ≡ (elem c t.finding.cve_ids || elem c cve_ids)
  unfolding merge_fields
  merge_fields-cves c =
      elem-sorted_set c (t.finding.cve_ids ++ cve_ids) ∙ elem-append c t.finding.cve_ids cve_ids

  -- The fields of the row, whatever becomes of the status and the history.
  merge_fields-IsMerged :
      (after : FindingStatus) (history : List FindingStatusHistory) (is_reopened : Bool)
      → is_reopened ≡ auto_reopen_from t.finding.status
      → after ≡ (if auto_reopen_from t.finding.status then reopened else t.finding.status)
      → IsMerged job_id observed cve_ids observed_at t
          (record {
            id = t.id;
            finding = record (merge_fields job_id observed cve_ids observed_at t.finding) {
              status = after;
            };
            history = history;
          })
          is_reopened
  unfolding merge_fields
  merge_fields-IsMerged after history is_reopened b s = record {
    same_id = refl;
    same_signature = refl;
    first_seen_min = (ground arith, ground arith);
    last_seen_max = (ground arith, ground arith);
    counted = refl;
    cve_union = merge_fields-cves;
    cves_sorted = sorted_set-increasing (t.finding.cve_ids ++ cve_ids);
    tool_listed = add_tool-elem observed.source_tool t.finding.source_tools;
    job_listed = add_job_id-any job_id t.finding.observation_job_ids;
    reopens = b;
    status = s;
  }

  -- A later observation of a finding always merges: the row keeps its id and signature, the time
  -- from first to last observation comes to hold the new one, the count grows by one, the CVE ids
  -- are the union and stay sorted, the tool and the job are listed, and the status changes only
  -- from REMEDIATED or FALSE_POSITIVE, to REOPENED.
  pub merge_observation-IsMerged :
      (merged : Tracked) × (is_reopened : Bool) × (merge_observation job_id observed cve_ids
          observed_at reason t
        ≡ some (merged, is_reopened))
      × IsMerged job_id observed cve_ids observed_at t merged is_reopened
  unfolding merge_observation maybe_auto_reopen transition_status merge_fields
  merge_observation-IsMerged = elim (Bool-cases (auto_reopen_from t.finding.status)) [
    | inl e ↦
        let row = record t {
          finding = merge_fields job_id observed cve_ids observed_at t.finding;
        } in
        let merged = append_history row reopened (some reason) automatic in
        (
          merged,
          true,
          rw (e, maybe_auto_reopen) (rw (reopen_valid t.finding.status e) refl),
          merge_fields-IsMerged reopened merged.history true (sym e) (rw e refl),
        )
    | inr e ↦
        let row = record t {
          finding = merge_fields job_id observed cve_ids observed_at t.finding;
        } in
        (
          row,
          false,
          rw (e, maybe_auto_reopen) refl,
          merge_fields-IsMerged t.finding.status t.history false (sym e) (rw e refl),
        )
  ]

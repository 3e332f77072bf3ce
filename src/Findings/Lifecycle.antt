-- ===== src/Findings/Lifecycle.antt =====
-- backend/app/findings/lifecycle.py: the state machine of a finding's status.
pub mod Reach
use cyberlab_kali.Base.{
  ℕ, ◌==◌, if◌then◌else◌, Bool, true, false, Option, none, some, List, [], ◌∷◌, ◌++◌, Text, any,
}
use cyberlab_kali.Models.Finding.{
  FindingStatus, new, confirmed, in_review, accepted_risk, false_positive, remediated, reopened,
  TriggeredBy, automatic, Finding, FindingStatusHistory,
}

-- `a == b` on statuses, by their places in the enumeration.
abbrev rank : FindingStatus → ℕ
rank new = 0
rank confirmed = 1
rank in_review = 2
rank accepted_risk = 3
rank false_positive = 4
rank remediated = 5
rank reopened = 6

-- `VALID_TRANSITIONS`
abbrev pub valid_transitions : FindingStatus → List FindingStatus
valid_transitions new = confirmed ∷ []
valid_transitions confirmed = in_review ∷ []
valid_transitions in_review = accepted_risk ∷ false_positive ∷ remediated ∷ []
valid_transitions accepted_risk = reopened ∷ []
valid_transitions false_positive = reopened ∷ []
valid_transitions remediated = reopened ∷ []
valid_transitions reopened = confirmed ∷ in_review ∷ []

abbrev pub is_valid_transition : FindingStatus → FindingStatus → Bool
is_valid_transition old_status new_status =
    any (λ s. rank s == rank new_status) (valid_transitions old_status)

-- A finding with the history of its status, which only grows.
pub record Tracked : Type 0 where
  pub id : ℕ
  pub finding : Finding
  pub history : List FindingStatusHistory

abbrev pub append_history : Tracked → FindingStatus → Option Text → TriggeredBy → Tracked
append_history t new_status reason triggered_by = record t {
  finding = record t.finding { status = new_status };
  history =
      t.history
      ++ record {
        finding_id = t.id;
        old_status = t.finding.status;
        new_status = new_status;
        reason = reason;
        triggered_by = triggered_by;
      }
        ∷ [];
}

-- `none` is an `InvalidTransitionError`.
unfoldable pub transition_status :
    Tracked → (new_status : FindingStatus) → (reason : Option Text) → TriggeredBy → Option Tracked
transition_status t new_status reason triggered_by =
    if is_valid_transition t.finding.status new_status
    then some (append_history t new_status reason triggered_by)
    else none

-- `AUTO_REOPEN_FROM`
abbrev pub auto_reopen_from : FindingStatus → Bool
auto_reopen_from remediated = true
auto_reopen_from false_positive = true
auto_reopen_from _ = false

-- The second component is whether the finding was reopened. An `InvalidTransitionError` would go
-- through, as `none`.
unfoldable pub maybe_auto_reopen : Tracked → (reason : Text) → Option (Tracked × Bool)
unfolding transition_status
maybe_auto_reopen t reason =
    if auto_reopen_from t.finding.status
    then elim (transition_status t reopened (some reason) automatic) [
      | none ↦ none
      | some t' ↦ some (t', true)
    ]
    else some (t, false)

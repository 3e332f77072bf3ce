-- ===== src/Findings/Lifecycle/Reach.antt =====
-- Which statuses a finding can go through, and what its history tells of it.
use cyberlab_kali.Base.{
  ◌≡◌, inl, inr, refl, Bool, true, Option, none, some, List, [], ◌∷◌, ◌++◌, Text, arith, Bool-cases,
}
use cyberlab_kali.Models.Finding.{
  FindingStatus, new, false_positive, remediated, reopened, manual, automatic, FindingStatusHistory,
}
use cyberlab_kali.Findings.Lifecycle.{
  is_valid_transition, Tracked, transition_status, auto_reopen_from, maybe_auto_reopen,
}

-- A history that leads from one status to another by valid transitions, of which the automatic ones
-- reopen a finding that was remediated or a false positive.
pub data Trail : FindingStatus → List FindingStatusHistory → FindingStatus → Type 0 where
  start : {s : FindingStatus} → Trail s [] s
  step :
      {s : FindingStatus} {h : List FindingStatusHistory} (entry : FindingStatusHistory)
      → Trail s h entry.old_status
      → is_valid_transition entry.old_status entry.new_status ≡ true
      → (entry.triggered_by ≡ automatic
          → (auto_reopen_from entry.old_status ≡ true) × (entry.new_status ≡ reopened))
      → Trail s (h ++ entry ∷ []) entry.new_status

-- What the callers do: a route changes the status by hand, and an observation may reopen.
pub data Action : Type 0 where
  change : FindingStatus → (reason : Option Text) → Action
  observe : (reason : Text) → Action

abbrev after_change : Tracked → Option Tracked → Tracked
after_change t none = t
after_change t (some t') = t'

abbrev after_observation : Tracked → Option (Tracked × Bool) → Tracked
after_observation t none = t
after_observation t (some (t', b)) = t'

unfoldable pub act : Action → Tracked → Tracked
act (change status reason) t = after_change t (transition_status t status reason manual)
act (observe reason) t = after_observation t (maybe_auto_reopen t reason)

pub act_all : List Action → Tracked → Tracked
act_all [] t = t
act_all (a ∷ actions) t = act_all actions (act a t)

-- The finding was created as NEW, and its history leads to the status that it has.
abbrev pub IsTrailed : Tracked → Type 0
IsTrailed t = Trail new t.history t.finding.status

reopens_validly :
    (s : FindingStatus) → auto_reopen_from s ≡ true → is_valid_transition s reopened ≡ true
reopens_validly remediated h = refl
reopens_validly false_positive h = refl
reopens_validly _ h = absurd (ground arith)

act-IsTrailed : (a : Action) (t : Tracked) → IsTrailed t → IsTrailed (act a t)
unfolding act maybe_auto_reopen transition_status
act-IsTrailed (change status reason) t h =
    elim (Bool-cases (is_valid_transition t.finding.status status)) [
      | inr e ↦ rw e h
      | inl e ↦ rw e (
          step
            (record {
              finding_id = t.id;
              old_status = t.finding.status;
              new_status = status;
              reason = reason;
              triggered_by = manual;
            })
            h e (λ x. absurd (ground arith)))
    ]
act-IsTrailed (observe reason) t h = elim (Bool-cases (auto_reopen_from t.finding.status)) [
  | inr e ↦ rw e h
  | inl e ↦
      let valid = reopens_validly t.finding.status e in
      rw e (
        rw valid (
          step
            (record {
              finding_id = t.id;
              old_status = t.finding.status;
              new_status = reopened;
              reason = some reason;
              triggered_by = automatic;
            })
            h valid (λ x. (e, refl))))
]

-- After any changes of status by hand, refused ones among them, and any observations, the history
-- of a finding that was created as NEW leads by valid transitions to its status, and each automatic
-- entry reopens a finding that was REMEDIATED or FALSE_POSITIVE.
pub act_all-IsTrailed :
    (actions : List Action) (t : Tracked) → IsTrailed t → IsTrailed (act_all actions t)
unfolding act_all
act_all-IsTrailed [] t h = h
act_all-IsTrailed (a ∷ actions) t h = act_all-IsTrailed actions (act a t) (act-IsTrailed a t h)

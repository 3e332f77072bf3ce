-- ===== src/Scheduling/Bounds.antt =====
-- How often a schedule may fail before it is paused.
use cyberlab_kali.Base.{
  ℕ, ◌+◌, ◌≡◌, ◌≤◌, ◌<◌, ◌⊎◌, inl, inr, refl, leb, true, false, Option, none, some, List, [], ◌∷◌,
  length, Result, ok, err, arith, Bool-cases, Option-cases, ◌==◌, subst,
}
use cyberlab_kali.Targets.{Asset, is_executable}
use cyberlab_kali.Tools.Registry.{ToolError, uncaught_value_error}
use cyberlab_kali.Models.{World}
use cyberlab_kali.Models.Mission.{SkipReason}
use cyberlab_kali.Models.Schedule.{ScheduledJob}
use cyberlab_kali.Jobs.Service.{PreparedJob}
use cyberlab_kali.Jobs.Creation.{Env}
use cyberlab_kali.Scheduling.{
  max_consecutive_failures, save_schedule, is_active, is_due, claim, failed_once, fail, fired, fire,
  on_prepared, process_asset, process_named, process_schedule,
}

-- An active schedule has failed fewer than five times in a row.
abbrev pub IsWithin : ScheduledJob → Type 0
IsWithin s = is_active s.status ≡ true → s.consecutive_failures < max_consecutive_failures

-- Every stored schedule is within the limit.
abbrev pub AllWithin : World → Type 0
AllWithin w = (id : ℕ) (s : ScheduledJob) → w.db.schedules id ≡ some s → IsWithin s

failed_once-IsWithin : (reason : SkipReason) (s : ScheduledJob) → IsWithin (failed_once reason s)
unfolding failed_once
failed_once-IsWithin reason s live = ground arith

pub save_schedule-AllWithin :
    (w : World) (s : ScheduledJob) → IsWithin s → AllWithin w → AllWithin (save_schedule w s)
save_schedule-AllWithin w s within all id found = elim (Bool-cases (s.id == id)) [
  | inl e ↦ rw e (λ h. let same : s ≡ found = ground arith in subst IsWithin same within)
  | inr e ↦ rw e (λ h. all id found h)
]

module _ (env : Env) (w : World) (all : AllWithin w) (s : ScheduledJob) where
  fail-AllWithin : (reason : SkipReason) → AllWithin (fail s reason w)
  unfolding fail
  fail-AllWithin reason =
      save_schedule-AllWithin w (failed_once reason s) (failed_once-IsWithin reason s) all

  fire-AllWithin :
      (asset : Asset) (prepared : PreparedJob) → AllWithin (fire env s asset prepared w)
  unfolding fire
  fire-AllWithin asset prepared = elim (Bool-cases env.redis_up) [
    | inl e ↦ rw e (save_schedule-AllWithin w (fired env w.db.next_job s) (λ live. omega arith) all)
    | inr e ↦ rw e all
  ]

  on_prepared-AllWithin :
      (asset : Asset) (r : Result ToolError PreparedJob) → AllWithin (on_prepared env s asset w r)
  unfolding on_prepared
  on_prepared-AllWithin asset (ok prepared) = fire-AllWithin asset prepared
  on_prepared-AllWithin asset (err uncaught_value_error) = all
  on_prepared-AllWithin asset (err e) = fail-AllWithin _

  process_named-AllWithin : (asset_id : Option ℕ) → AllWithin (process_named env s asset_id w)
  unfolding process_named process_asset
  process_named-AllWithin none = fail-AllWithin _
  process_named-AllWithin (some id) = elim (Option-cases (w.db.assets id)) [
    | inl f ↦
        rw (f, process_named) (save_schedule-AllWithin w _ (λ live. absurd (ground arith)) all)
    | inr (asset, f) ↦ elim (Bool-cases (is_executable asset)) [
      | inl x ↦ rw (f, process_named) (rw x (on_prepared-AllWithin asset _))
      | inr x ↦ rw (f, process_named) (rw x (fail-AllWithin _))
    ]
  ]

  -- Where every stored schedule that is active has failed fewer than five times in a row, this is so
  -- after any schedule was processed, whether it fired, failed or raised.
  pub process_schedule-AllWithin : AllWithin (process_schedule env s w)
  unfolding process_schedule
  process_schedule-AllWithin = process_named-AllWithin s.asset_id

-- Failures in a row, for these reasons.
pub fail_all : List SkipReason → ScheduledJob → ScheduledJob
fail_all [] s = s
fail_all (reason ∷ reasons) s = fail_all reasons (failed_once reason s)

fail_all-inactive :
    (reasons : List SkipReason) (s : ScheduledJob)
    → is_active s.status ≡ false
    → is_active (fail_all reasons s).status ≡ false
unfolding fail_all failed_once
fail_all-inactive [] s h = h
fail_all-inactive (r ∷ rs) s h = fail_all-inactive rs (failed_once r s) (ground arith)

-- Enough failures in a row to make five end every schedule, whatever their reasons: it is not
-- active after them.
pub fail_all-paused :
    (reasons : List SkipReason) (s : ScheduledJob)
    → max_consecutive_failures ≤ s.consecutive_failures + length reasons
    → (reasons ≡ []) ⊎ (is_active (fail_all reasons s).status ≡ false)
unfolding fail_all failed_once
fail_all-paused [] s h = inl refl
fail_all-paused (r ∷ rs) s h =
    let next = failed_once r s in
    elim (Bool-cases (leb max_consecutive_failures (s.consecutive_failures + 1))) [
      | inl e ↦ inr (fail_all-inactive rs next (ground arith))
      | inr e ↦
          let bound : max_consecutive_failures ≤ next.consecutive_failures + length rs =
            omega arith in
          elim (fail_all-paused rs next bound) [
            | inl none_left ↦ absurd (ground arith)
            | inr off ↦ inr off
          ]
    ]

-- A schedule that was claimed is due again no sooner than its interval later.
pub claim-not_due :
    (env env' : Env) (s : ScheduledJob)
    → env'.now < env.now + s.interval_seconds
    → is_due env' (claim env s) ≡ false
unfolding claim
claim-not_due env env' s early = ground arith

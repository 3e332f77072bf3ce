-- ===== src/Chains/Soundness.antt =====
-- What holds of the stored chain runs between two calls of `advance_chain_run`, and what a call that
-- reaches the next step leaves behind.
use cyberlab_kali.Base.{
  ◌≡◌, ◌≤◌, ◌⊎◌, inl, inr, refl, subst, if◌then◌else◌, Bool, true, false, not, ◌||◌, Option, none,
  some, List, find, update_first, Result, ok, err, arith, Bool-cases, Option-cases, All, count,
  is_some, ◌==◌, ==_refl, count-update_on, find-update_first, update_first-All, put_self, get_elem?,
  ℕ, ℕ-cases,
}
use cyberlab_kali.Targets.{Asset, is_executable}
use cyberlab_kali.Tools.Registry.{ToolError, uncaught_value_error}
use cyberlab_kali.Models.{World}
use cyberlab_kali.Models.Job
use cyberlab_kali.Models.Job.{JobRow, JobStatus}
use cyberlab_kali.Models.Chain.{
  ChainRunStatus, running, ChainRunStepStatus, ChainRun, ChainRunStep, is_terminal,
}
use cyberlab_kali.Models.Mission.{
  SkipReason, asset_missing, not_authorized, rejected, condition_not_met,
}
use cyberlab_kali.Models.Result.{ParsedResult}
use cyberlab_kali.Jobs.Service.{PreparedJob}
use cyberlab_kali.Jobs.Creation.{Env, asset_job, add_job}
use cyberlab_kali.Chains.Conditions.{evaluate_condition}
use cyberlab_kali.Chains.{
  ChainError, Outcome, save_run, save_steps, stop_chain_run, is_queued, is_pending, job_of, skip,
  dispatch, skip_next, with_job, queue_next, on_prepared, check_condition, run_next, start_next,
}

-- `ck_chain_run_step_job_id_required_when_executed`: a step that was queued, or ran, names its job.
abbrev pub needs_job : ChainRunStepStatus → Bool
needs_job ChainRunStepStatus.queued = true
needs_job ChainRunStepStatus.success = true
needs_job ChainRunStepStatus.failed = true
needs_job _ = false

abbrev pub is_linked : ChainRunStep → Bool
is_linked s = not (needs_job s.status) || is_some s.job_id

abbrev pub IsLinked : ChainRunStep → Type 0
IsLinked s = is_linked s ≡ true

-- What holds of the stored chain runs between two calls.
pub record IsSound (w : World) : Type 0 where
  pub keyed : (id : ℕ) (run : ChainRun) → w.db.chain_runs id ≡ some run → run.id ≡ id
  pub one_queued : (id : ℕ) → count is_queued (w.db.chain_run_steps id) ≤ 1
  pub linked : (id : ℕ) → All IsLinked (w.db.chain_run_steps id)

-- What keeps a call from resolving the queued step: its job has not ended, or the row of the job is
-- gone, and then for good.
abbrev pub is_unresolved : Option JobRow → Bool
is_unresolved none = true
is_unresolved (some job) = not (Job.is_terminal job.status)

-- The run is held by the job of its first queued step.
pub record IsWaiting (w : World) (id : ℕ) : Type 0 where
  pub step : ChainRunStep
  pub first_queued : find is_queued (w.db.chain_run_steps id) ≡ some step
  pub unfinished : is_unresolved (job_of w step) ≡ true

-- The run `run` is stored under `id`, and it is terminal or held.
pub record IsSettled (w : World) (id : ℕ) (run : ChainRun) : Type 0 where
  pub stored : w.db.chain_runs id ≡ some run
  pub still : (is_terminal run.status ≡ true) ⊎ IsWaiting w id

-- A call leaves sound chain runs behind, and a settled one if it returns.
pub record IsGood (id : ℕ) (o : Outcome) : Type 0 where
  pub sound : IsSound o.1
  pub settled : (run : ChainRun) → o.0 ≡ ok run → IsSettled o.1 id run

pub raises-IsGood : (id : ℕ) (e : ChainError) (w : World) → IsSound w → IsGood id (err e, w)
raises-IsGood id e w h = record { sound = h; settled = λ run r. absurd (ground arith) }

pub save_steps-IsSound :
    (w : World) (id : ℕ) (steps : List ChainRunStep)
    → IsSound w
    → count is_queued steps ≤ 1
    → All IsLinked steps
    → IsSound (save_steps w id steps)
save_steps-IsSound w id steps h one all = record {
  keyed = h.keyed;
  one_queued =
      λ j. elim (Bool-cases (id == j)) [ inl e ↦ rw e one | inr e ↦ rw e (h.one_queued j) ];
  linked = λ j. elim (Bool-cases (id == j)) [ inl e ↦ rw e all | inr e ↦ rw e (h.linked j) ];
}

pub save_run-IsSound : (w : World) (run : ChainRun) → IsSound w → IsSound (save_run w run)
save_run-IsSound w run h = record {
  keyed = λ j n e. ground (arith, h.keyed j n);
  one_queued = h.one_queued;
  linked = h.linked;
}

pub stop_chain_run-IsGood :
    (env : Env) (run : ChainRun) (status : ChainRunStatus) (w : World)
    → is_terminal status ≡ true
    → IsSound w
    → IsGood run.id (stop_chain_run env run status w)
unfolding stop_chain_run
stop_chain_run-IsGood env run status w t h =
    let stopped = record run { status = status; finished_at = some env.now } in
    record {
      sound = save_run-IsSound w stopped h;
      settled = λ n r.
          let same : stopped ≡ n = ground arith in
          subst (IsSettled (save_run w stopped) run.id) same
            (record { stored = put_self w.db.chain_runs run.id stopped; still = inl t });
    }

pub final_is_terminal :
    (b : Bool) → is_terminal (if b then ChainRunStatus.completed else ChainRunStatus.failed) ≡ true
final_is_terminal b = ground arith

-- The steps of a run none of whose steps is queued.
pub record IsIdle (steps : List ChainRunStep) : Type 0 where
  pub none_queued : count is_queued steps ≡ 0
  pub all_linked : All IsLinked steps

module _ (env : Env) (run : ChainRun) (steps : List ChainRunStep) (idle : IsIdle steps) where
  skip_next-IsGood :
      (reason : SkipReason) (status : ChainRunStatus) (w : World)
      → is_terminal status ≡ true
      → IsSound w
      → IsGood run.id (skip_next env run reason status steps w)
  unfolding skip_next
  skip_next-IsGood reason status w t h = stop_chain_run-IsGood env run status _ t (
      save_steps-IsSound w run.id _ h
        (omega (arith, count-update_on is_queued is_pending (skip reason) steps, idle.none_queued))
        (update_first-All IsLinked is_pending (skip reason) steps (λ s e l. refl) idle.all_linked))

  module _ (s : ChainRunStep) (asset : Asset) (prepared : PreparedJob) (w : World)
      (h : IsSound w) where
    with_job-IsSound : IsSound (with_job env run s asset prepared steps w)
    with_job-IsSound =
        let id = w.db.next_job in
        let added = record w {
          db = add_job w.db (asset_job env id s.tool s.profile asset prepared);
        } in
        let steps' = update_first is_pending (dispatch id) steps in
        let base : IsSound added = record {
          keyed = h.keyed;
          one_queued = h.one_queued;
          linked = h.linked;
        } in
        let saved =
          save_run-IsSound (save_steps added run.id steps') (record run { status = running })
            (save_steps-IsSound added run.id steps' base
              (omega
                (arith, count-update_on is_queued is_pending (dispatch id) steps, idle.none_queued))
              (update_first-All IsLinked is_pending (dispatch id) steps (λ t e l. refl)
                idle.all_linked)) in
        record { keyed = saved.keyed; one_queued = saved.one_queued; linked = saved.linked }

    with_job-IsSettled :
        find is_pending steps ≡ some s
        → IsSettled
            (with_job env run s asset prepared steps w)
            run.id
            (record run { status = running })
    with_job-IsSettled found =
        let id = w.db.next_job in
        let job = asset_job env id s.tool s.profile asset prepared in
        record {
          stored = put_self w.db.chain_runs run.id (record run { status = running });
          still = inr (record {
            step = dispatch id s;
            first_queued = rw (==_refl run.id) (
                find-update_first is_queued is_pending (dispatch id) steps s idle.none_queued found
                  (λ t. refl));
            unfinished = rw (put_self w.db.jobs id job) refl;
          });
        }

    queue_next-IsGood :
        find is_pending steps ≡ some s → IsGood run.id (queue_next env run s asset prepared steps w)
    unfolding queue_next
    queue_next-IsGood found = elim (Bool-cases env.redis_up) [
      | inr e ↦ rw e (raises-IsGood run.id _ w h)
      | inl e ↦ rw e (record {
        sound = with_job-IsSound;
        settled = λ n r.
            let same : record run { status = running } ≡ n = ground arith in
            subst (IsSettled (with_job env run s asset prepared steps w) run.id) same
              (with_job-IsSettled found);
      })
    ]

  module _ (s : ChainRunStep) (w : World) (h : IsSound w)
      (found : find is_pending steps ≡ some s) where
    on_prepared-IsGood :
        (asset : Asset) (r : Result ToolError PreparedJob)
        → IsGood run.id (on_prepared env run s asset steps w r)
    unfolding on_prepared
    on_prepared-IsGood asset (ok prepared) = queue_next-IsGood s asset prepared w h found
    on_prepared-IsGood asset (err uncaught_value_error) = raises-IsGood run.id _ w h
    on_prepared-IsGood asset (err e) = skip_next-IsGood (rejected e) ChainRunStatus.failed w refl h

    run_next-IsGood :
        (previous : Option ParsedResult) → IsGood run.id (run_next env run s previous steps w)
    unfolding run_next
    run_next-IsGood previous = elim (Option-cases (w.db.assets run.target_id)) [
      | inl f ↦ rw (f, run_next) (skip_next-IsGood asset_missing ChainRunStatus.failed w refl h)
      | inr (asset, f) ↦ elim (Bool-cases (is_executable asset)) [
        | inl x ↦ rw (f, run_next) (rw x (on_prepared-IsGood asset _))
        | inr x ↦
            rw (f, run_next)
              (rw x (
                skip_next-IsGood (not_authorized asset.authorization_status) ChainRunStatus.failed w
                  refl h))
      ]
    ]

    check_condition-IsGood :
        (previous : Option ParsedResult)
        → IsGood run.id (check_condition env run s previous steps w)
    unfolding check_condition
    check_condition-IsGood previous =
        elim (Bool-cases
          (evaluate_condition env.parsers.lower s.condition_type s.condition_params previous)) [
            | inl c ↦ rw c (run_next-IsGood previous)
            | inr c ↦ rw c (skip_next-IsGood condition_not_met ChainRunStatus.completed w refl h)
          ]

    pub start_next-IsGood : IsGood run.id (start_next env run s steps w)
    unfolding start_next
    start_next-IsGood = elim (ℕ-cases s.step_order) [
      | inl e ↦ rw (e, start_next) (run_next-IsGood none)
      | inr (before, e) ↦ elim (Option-cases (get_elem? steps before)) [
        | inl f ↦ rw (e, start_next) (rw (f, start_next) (raises-IsGood run.id _ w h))
        | inr (previous, f) ↦ rw (e, start_next) (rw (f, start_next) (check_condition-IsGood _))
      ]
    ]

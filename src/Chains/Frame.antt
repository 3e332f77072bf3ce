-- ===== src/Chains/Frame.antt =====
-- What a call of advance_chain_run writes: rows of runs, their steps, a new job and an entry of the
-- queue. A property of worlds that these writes keep is kept by the call.
use cyberlab_kali.Base.{
  ℕ, ◌≡◌, refl, false, some, none, inl, inr, any, find, get_elem?, update_first, Bool-cases,
  Option-cases, ℕ-cases, Option, List, Result, ok, err,
}
use cyberlab_kali.Targets.{Asset, is_executable}
use cyberlab_kali.Tools.Registry.{ToolError, uncaught_value_error}
use cyberlab_kali.Models.{World, QueueEntry}
use cyberlab_kali.Models.Result.{ParsedResult}
use cyberlab_kali.Models.Job
use cyberlab_kali.Models.Job.{JobRow}
use cyberlab_kali.Models.Mission.{SkipReason}
use cyberlab_kali.Models.Chain.{ChainRunStatus, ChainRun, ChainRunStep, is_terminal}
use cyberlab_kali.Jobs.Service.{PreparedJob}
use cyberlab_kali.Jobs.Creation.{Env, asset_job, add_job, entry_for, enqueue}
use cyberlab_kali.Chains.Conditions.{evaluate_condition}
use cyberlab_kali.Chains.{
  save_run, save_steps, stop_chain_run, is_queued, is_cancelled, is_failed, is_pending, job_of,
  resolve, skip, dispatch, skip_next, queue_next, on_prepared, run_next, result_of, check_condition,
  start_next, is_run_cancelled, is_run_failed, continue_run, reconcile_step, advance_found,
  advance_chain_run,
}

pub record IsClosed (P : World → Type 0) : Type 0 where
  pub saved : (w : World) (run : ChainRun) → P w → P (save_run w run)
  pub stepped : (w : World) (id : ℕ) (steps : List ChainRunStep) → P w → P (save_steps w id steps)
  pub added :
      (w : World) (job : JobRow)
      → job.id ≡ w.db.next_job
      → Job.is_terminal job.status ≡ false
      → P w
      → P (record w { db = add_job w.db job })
  pub queued : (w : World) (entry : QueueEntry) → P w → P (enqueue w entry)

module _ (P : World → Type 0) (closed : IsClosed P) (env : Env) (run : ChainRun) where
  stop_chain_run-keeps :
      (status : ChainRunStatus) (w : World) → P w → P (stop_chain_run env run status w).1
  unfolding stop_chain_run
  stop_chain_run-keeps status w h =
      closed.saved w (record run { status = status; finished_at = some env.now }) h

  skip_next-keeps :
      (reason : SkipReason) (status : ChainRunStatus) (steps : List ChainRunStep) (w : World)
      → P w
      → P (skip_next env run reason status steps w).1
  unfolding skip_next
  skip_next-keeps reason status steps w h =
      stop_chain_run-keeps status _
        (closed.stepped w run.id (update_first is_pending (skip reason) steps) h)

  queue_next-keeps :
      (s : ChainRunStep) (asset : Asset) (prepared : PreparedJob) (steps : List ChainRunStep)
      (w : World)
      → P w
      → P (queue_next env run s asset prepared steps w).1
  unfolding queue_next
  queue_next-keeps s asset prepared steps w h = elim (Bool-cases env.redis_up) [
    | inr e ↦ rw e h
    | inl e ↦
        let id = w.db.next_job in
        let job = asset_job env id s.tool s.profile asset prepared in
        let steps' = update_first is_pending (dispatch id) steps in
        let started = record run { status = ChainRunStatus.running } in
        let with_row = record w { db = add_job w.db job } in
        rw e (
          closed.queued (save_run (save_steps with_row run.id steps') started)
            (entry_for id s.tool prepared)
            (closed.saved (save_steps with_row run.id steps') started
              (closed.stepped with_row run.id steps' (closed.added w job refl refl h))))
  ]

  on_prepared-keeps :
      (s : ChainRunStep) (asset : Asset) (steps : List ChainRunStep) (w : World)
      (r : Result ToolError PreparedJob)
      → P w
      → P (on_prepared env run s asset steps w r).1
  unfolding on_prepared
  on_prepared-keeps s asset steps w (ok prepared) h = queue_next-keeps s asset prepared steps w h
  on_prepared-keeps s asset steps w (err uncaught_value_error) h = h
  on_prepared-keeps s asset steps w (err _) h = skip_next-keeps _ _ steps w h

  run_next-keeps :
      (s : ChainRunStep) (previous : Option ParsedResult) (steps : List ChainRunStep) (w : World)
      → P w
      → P (run_next env run s previous steps w).1
  unfolding run_next
  run_next-keeps s previous steps w h = elim (Option-cases (w.db.assets run.target_id)) [
    | inl f ↦ rw (f, run_next) (skip_next-keeps _ _ steps w h)
    | inr (asset, f) ↦ elim (Bool-cases (is_executable asset)) [
      | inl x ↦ rw (f, run_next) (rw x (on_prepared-keeps s asset steps w _ h))
      | inr x ↦ rw (f, run_next) (rw x (skip_next-keeps _ _ steps w h))
    ]
  ]

  check_condition-keeps :
      (s : ChainRunStep) (previous : Option ParsedResult) (steps : List ChainRunStep) (w : World)
      → P w
      → P (check_condition env run s previous steps w).1
  unfolding check_condition
  check_condition-keeps s previous steps w h =
      elim (Bool-cases
        (evaluate_condition env.parsers.lower s.condition_type s.condition_params previous)) [
          | inl e ↦ rw e (run_next-keeps s previous steps w h)
          | inr e ↦ rw e (skip_next-keeps _ _ steps w h)
        ]

  start_next-keeps :
      (s : ChainRunStep) (steps : List ChainRunStep) (w : World)
      → P w
      → P (start_next env run s steps w).1
  unfolding start_next
  start_next-keeps s steps w h = elim (ℕ-cases s.step_order) [
    | inl e ↦ rw (e, start_next) (run_next-keeps s none steps w h)
    | inr (before, e) ↦ elim (Option-cases (get_elem? steps before)) [
      | inl f ↦ rw (e, start_next) (rw (f, start_next) h)
      | inr (previous, f) ↦
          rw (e, start_next)
            (rw (f, start_next) (check_condition-keeps s (result_of (job_of w previous)) steps w h))
    ]
  ]

  continue_run-keeps :
      (steps : List ChainRunStep) (w : World) → P w → P (continue_run env run steps w).1
  unfolding continue_run
  continue_run-keeps steps w h = elim (Bool-cases (any is_cancelled steps)) [
    | inl e ↦ elim (Bool-cases (is_run_cancelled run.status)) [
      | inl f ↦ rw e (rw f h)
      | inr f ↦ rw e (rw f (stop_chain_run-keeps ChainRunStatus.cancelled w h))
    ]
    | inr e ↦ elim (Bool-cases (any is_failed steps)) [
      | inl f ↦ elim (Bool-cases (is_run_failed run.status)) [
        | inl g ↦ rw e (rw f (rw g h))
        | inr g ↦ rw e (rw f (rw g (stop_chain_run-keeps ChainRunStatus.failed w h)))
      ]
      | inr f ↦ elim (Option-cases (find is_pending steps)) [
        | inl g ↦ rw e (rw f (rw (g, continue_run) (stop_chain_run-keeps _ w h)))
        | inr (s, g) ↦ rw e (rw f (rw (g, continue_run) (start_next-keeps s steps w h)))
      ]
    ]
  ]

  reconcile_step-keeps :
      (steps : List ChainRunStep) (w : World) (job : JobRow)
      → P w
      → P (reconcile_step env run steps w job).1
  unfolding reconcile_step
  reconcile_step-keeps steps w job h =
      let steps' = update_first is_queued (resolve job.status) steps in
      elim (Bool-cases (Job.is_terminal job.status)) [
        | inl t ↦ rw t (
            continue_run-keeps steps' (save_steps w run.id steps')
              (closed.stepped w run.id steps' h))
        | inr t ↦ rw t h
      ]

  advance_found-keeps : (w : World) → P w → P (advance_found env run w).1
  unfolding advance_found
  advance_found-keeps w h =
      let steps = w.db.chain_run_steps run.id in
      elim (Bool-cases (is_terminal run.status)) [
        | inl t ↦ rw t h
        | inr live ↦ elim (Option-cases (find is_queued steps)) [
          | inl e ↦ rw live (rw (e, advance_found) (continue_run-keeps steps w h))
          | inr (s, e) ↦ elim (Option-cases (job_of w s)) [
            | inl f ↦ rw live (rw (e, advance_found) (rw (f, advance_found) h))
            | inr (job, f) ↦
                rw live (
                  rw (e, advance_found)
                    (rw (f, advance_found) (reconcile_step-keeps steps w job h)))
          ]
        ]
      ]

pub advance_chain_run-keeps :
    (P : World → Type 0) (closed : IsClosed P) (env : Env) (id : ℕ) (w : World)
    → P w
    → P (advance_chain_run env id w).1
unfolding advance_chain_run
advance_chain_run-keeps P closed env id w h = elim (Option-cases (w.db.chain_runs id)) [
  | inl e ↦ rw (e, advance_chain_run) h
  | inr (run, e) ↦ rw (e, advance_chain_run) (advance_found-keeps P closed env run w h)
]

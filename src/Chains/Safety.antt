-- ===== src/Chains/Safety.antt =====
-- What a call of `advance_chain_run` may put in the queue.
use cyberlab_kali.Base.{
  ℕ, ◌≡◌, ◌⊎◌, inl, inr, refl, true, false, none, some, List, any, find, update_first, Bool-cases,
  Option-cases, if◌then◌else◌,
}
use cyberlab_kali.Models.{World}
use cyberlab_kali.Models.Job
use cyberlab_kali.Models.Job.{JobRow}
use cyberlab_kali.Models.Chain.{ChainRunStatus, ChainRun, ChainRunStep, is_terminal}
use cyberlab_kali.Jobs.Creation.{Env}
use cyberlab_kali.Chains.{
  Outcome, save_steps, is_queued, is_pending, job_of, resolve, is_cancelled, is_failed,
  is_run_cancelled, is_run_failed, is_success, continue_run, reconcile_step, advance_found,
  advance_chain_run,
}
use cyberlab_kali.Chains.Dispatch.{
  reconciled, Dispatches, stop_chain_run-queue, start_next-Dispatches,
}

module _ (env : Env) (w : World) (run : ChainRun) (steps : List ChainRunStep) where
  continue_run-Dispatches : Dispatches env w run steps (continue_run env run steps w)
  unfolding continue_run
  continue_run-Dispatches = elim (Bool-cases (any is_cancelled steps)) [
    | inl e ↦ elim (Bool-cases (is_run_cancelled run.status)) [
      | inl f ↦ rw e (rw f (inl refl))
      | inr f ↦ rw e (rw f (inl (stop_chain_run-queue env run ChainRunStatus.cancelled w)))
    ]
    | inr e ↦ elim (Bool-cases (any is_failed steps)) [
      | inl f ↦ elim (Bool-cases (is_run_failed run.status)) [
        | inl g ↦ rw e (rw f (rw g (inl refl)))
        | inr g ↦ rw e (rw f (rw g (inl (stop_chain_run-queue env run ChainRunStatus.failed w))))
      ]
      | inr f ↦ elim (Option-cases (find is_pending steps)) [
        | inl g ↦ rw e (
            rw f (
              rw (g, continue_run)
                (inl (
                  stop_chain_run-queue env run
                    (if any is_success steps
                      then ChainRunStatus.completed
                      else ChainRunStatus.failed)
                    w))))
        | inr (s, g) ↦
            rw e (rw f (rw (g, continue_run) (start_next-Dispatches env w run steps s g)))
      ]
    ]
  ]

-- What the run may do does not depend on whether its resolved steps are stored yet.
saved-Dispatches :
    (env : Env) (w : World) (run : ChainRun) (steps : List ChainRunStep) (o : Outcome)
    → Dispatches env (save_steps w run.id steps) run steps o
    → Dispatches env w run steps o
saved-Dispatches env w run steps o (inl e) = inl e
saved-Dispatches env w run steps o (inr (entry, e, a)) = inr (
  entry,
  e,
  record {
    asset = a.asset;
    present = a.present;
    executable = a.executable;
    step = a.step;
    next = a.next;
    previous = a.previous;
    met = a.met;
    prepared = a.prepared;
    checked = a.checked;
    given = a.given;
  },
)

module _ (w : World) (steps : List ChainRunStep) where
  reconciled-idle : find is_queued steps ≡ none → reconciled w steps ≡ steps
  unfolding reconciled
  reconciled-idle e = rw (e, reconciled) refl

  reconciled-lost :
      (s : ChainRunStep)
      → find is_queued steps ≡ some s
      → job_of w s ≡ none
      → reconciled w steps ≡ steps
  unfolding reconciled
  reconciled-lost s e f = rw (e, reconciled) (rw (f, reconciled) refl)

  reconciled-resolved :
      (s : ChainRunStep) (job : JobRow)
      → find is_queued steps ≡ some s
      → job_of w s ≡ some job
      → reconciled w steps ≡ update_first is_queued (resolve job.status) steps
  unfolding reconciled
  reconciled-resolved s job e f = rw (e, reconciled) (rw (f, reconciled) refl)

advance_found-Dispatches :
    (env : Env) (w : World) (run : ChainRun)
    → is_terminal run.status ≡ false
    → Dispatches env w run (reconciled w (w.db.chain_run_steps run.id)) (advance_found env run w)
unfolding advance_found reconcile_step
advance_found-Dispatches env w run live =
    let steps = w.db.chain_run_steps run.id in
    elim (Option-cases (find is_queued steps)) [
      | inl e ↦
          rw (reconciled-idle w steps e)
            (rw live (rw (e, advance_found) (continue_run-Dispatches env w run steps)))
      | inr (s, e) ↦ elim (Option-cases (job_of w s)) [
        | inl f ↦ rw live (rw (e, advance_found) (rw (f, advance_found) (inl refl)))
        | inr (job, f) ↦ elim (Bool-cases (Job.is_terminal job.status)) [
          | inl t ↦
              let steps' = update_first is_queued (resolve job.status) steps in
              rw (reconciled-resolved w steps s job e f) (
                rw live (
                  rw (e, advance_found)
                    (rw (f, advance_found)
                      (rw t (
                        saved-Dispatches env w run steps'
                          (continue_run env run steps' (save_steps w run.id steps'))
                          (continue_run-Dispatches env (save_steps w run.id steps') run steps'))))))
          | inr t ↦ rw live (rw (e, advance_found) (rw (f, advance_found) (rw t (inl refl))))
        ]
      ]
    ]

terminal_still :
    (env : Env) (w : World) (run : ChainRun)
    → is_terminal run.status ≡ true
    → (advance_found env run w).1.queue ≡ w.queue
unfolding advance_found
terminal_still env w run t = rw t refl

-- A call of advance_chain_run leaves the queue alone, or adds one entry for a stored run that is
-- not terminal: for its first pending step, if that is the first of the run or its condition is met
-- on the result of the job of the step before, prepared against the executable asset of the run.
pub advance_chain_run-Dispatches :
    (env : Env) (id : ℕ) (w : World)
    → ((advance_chain_run env id w).1.queue ≡ w.queue)
      ⊎ ((run : ChainRun) × (w.db.chain_runs id ≡ some run)
          × (is_terminal run.status ≡ false)
          × Dispatches env w run
              (reconciled w (w.db.chain_run_steps run.id))
              (advance_chain_run env id w))
unfolding advance_chain_run
advance_chain_run-Dispatches env id w = elim (Option-cases (w.db.chain_runs id)) [
  | inl e ↦ rw (e, advance_chain_run) (inl refl)
  | inr (run, e) ↦ elim (Bool-cases (is_terminal run.status)) [
    | inl t ↦ rw (e, advance_chain_run) (inl (terminal_still env w run t))
    | inr live ↦
        rw (e, advance_chain_run) (inr (run, refl, live, advance_found-Dispatches env w run live))
  ]
]

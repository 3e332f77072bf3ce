-- ===== src/Chains/Dispatch.antt =====
-- Which entries a chain run may put in the queue, and that a started step puts no other one there.
use cyberlab_kali.Base.{
  ℕ, suc, ℕ-cases, ◌≡◌, ◌⊎◌, inl, inr, refl, true, Option, none, some, List, [], ◌∷◌, ◌++◌, find,
  update_first, get_elem?, Result, ok, err, Bool-cases, Option-cases,
}
use cyberlab_kali.Targets.{Asset, address, is_executable}
use cyberlab_kali.Tools.Registry.{ToolError, uncaught_value_error}
use cyberlab_kali.Models.{World, QueueEntry}
use cyberlab_kali.Models.Result.{ParsedResult}
use cyberlab_kali.Models.Mission.{
  SkipReason, asset_missing, not_authorized, rejected, condition_not_met,
}
use cyberlab_kali.Models.Chain.{ChainRunStatus, ChainRun, ChainRunStep}
use cyberlab_kali.Jobs.Service.{PreparedJob, prepare_job}
use cyberlab_kali.Jobs.Creation.{Env, entry_for}
use cyberlab_kali.Chains.Conditions.{evaluate_condition}
use cyberlab_kali.Chains.{
  Outcome, stop_chain_run, is_queued, is_pending, job_of, resolve, skip_next, queue_next,
  on_prepared, options_of, run_next, result_of, check_condition, start_next,
}

-- The steps of a run, its queued step resolved by its job as far as that is known.
unfoldable pub reconciled : World → List ChainRunStep → List ChainRunStep
reconciled w steps = elim (find is_queued steps) [
  | none ↦ steps
  | some s ↦ elim (job_of w s) [
    | none ↦ steps
    | some job ↦ update_first is_queued (resolve job.status) steps
  ]
]

-- The previous result that the step is given; its condition was met on it, unless the step is the
-- first one.
abbrev pub IsMet : Env → World → List ChainRunStep → ChainRunStep → Option ParsedResult → Type 0
IsMet env w steps s previous =
    ((s.step_order ≡ 0) × (previous ≡ none))
    ⊎ ((before : ℕ) × (p : ChainRunStep) × (s.step_order ≡ suc before)
        × (get_elem? steps before ≡ some p)
        × (previous ≡ result_of (job_of w p))
        × (evaluate_condition env.parsers.lower s.condition_type s.condition_params previous
            ≡ true))

-- An entry that a run may put in the queue: for its first pending step, whose condition is met,
-- with the step's tool and options, against the run's own asset, which is executable at this moment.
pub record IsAllowed (env : Env) (w : World) (run : ChainRun) (steps : List ChainRunStep)
    (entry : QueueEntry) : Type 0 where
  pub asset : Asset
  pub present : w.db.assets run.target_id ≡ some asset
  pub executable : is_executable asset ≡ true
  pub step : ChainRunStep
  pub next : find is_pending steps ≡ some step
  pub previous : Option ParsedResult
  pub met : IsMet env w steps step previous
  pub prepared : PreparedJob
  pub checked :
      prepare_job env.parsers env.registry step.tool step.profile
        (options_of env.parsers step previous)
        (address asset)
        none
      ≡ ok prepared
  pub given : entry ≡ entry_for w.db.next_job step.tool prepared

-- The queue is left alone, or it has one more entry, an allowed one.
abbrev pub Dispatches : Env → World → ChainRun → List ChainRunStep → Outcome → Type 0
Dispatches env w run steps o =
    (o.1.queue ≡ w.queue)
    ⊎ ((entry : QueueEntry) × (o.1.queue ≡ w.queue ++ entry ∷ []) × IsAllowed env w run steps entry)

pub stop_chain_run-queue :
    (env : Env) (run : ChainRun) (status : ChainRunStatus) (w : World)
    → (stop_chain_run env run status w).1.queue ≡ w.queue
unfolding stop_chain_run
stop_chain_run-queue env run status w = refl

skip_next-queue :
    (env : Env) (run : ChainRun) (reason : SkipReason) (status : ChainRunStatus)
    (steps : List ChainRunStep) (w : World)
    → (skip_next env run reason status steps w).1.queue ≡ w.queue
unfolding skip_next stop_chain_run
skip_next-queue env run reason status steps w = refl

module _ (env : Env) (w : World) (run : ChainRun) (steps : List ChainRunStep) where
  module _ (s : ChainRunStep) (next : find is_pending steps ≡ some s)
      (previous : Option ParsedResult) (met : IsMet env w steps s previous) where
    on_prepared-Dispatches :
        (asset : Asset)
        → w.db.assets run.target_id ≡ some asset
        → is_executable asset ≡ true
        → (r : Result ToolError PreparedJob)
        → prepare_job env.parsers env.registry s.tool s.profile
            (options_of env.parsers s previous)
            (address asset)
            none
          ≡ r
        → Dispatches env w run steps (on_prepared env run s asset steps w r)
    unfolding on_prepared queue_next
    on_prepared-Dispatches asset present executable (err uncaught_value_error) e = inl refl
    on_prepared-Dispatches asset present executable (err e) _ =
        inl (skip_next-queue env run (rejected e) ChainRunStatus.failed steps w)
    on_prepared-Dispatches asset present executable (ok prepared) e =
        elim (Bool-cases env.redis_up) [
          | inr down ↦ rw down (inl refl)
          | inl up ↦ rw up (
              inr (
                entry_for w.db.next_job s.tool prepared,
                refl,
                record {
                  asset = asset;
                  present = present;
                  executable = executable;
                  step = s;
                  next = next;
                  previous = previous;
                  met = met;
                  prepared = prepared;
                  checked = e;
                  given = refl;
                },
              ))
        ]

    run_next-Dispatches : Dispatches env w run steps (run_next env run s previous steps w)
    unfolding run_next
    run_next-Dispatches = elim (Option-cases (w.db.assets run.target_id)) [
      | inl f ↦
          rw (f, run_next)
            (inl (skip_next-queue env run asset_missing ChainRunStatus.failed steps w))
      | inr (asset, f) ↦ elim (Bool-cases (is_executable asset)) [
        | inl x ↦ rw (f, run_next) (rw x (on_prepared-Dispatches asset f x _ refl))
        | inr x ↦
            rw (f, run_next)
              (rw x (
                inl (
                  skip_next-queue env run (not_authorized asset.authorization_status)
                    ChainRunStatus.failed steps w)))
      ]
    ]

  pub start_next-Dispatches :
      (s : ChainRunStep)
      → find is_pending steps ≡ some s
      → Dispatches env w run steps (start_next env run s steps w)
  unfolding start_next check_condition
  start_next-Dispatches s next = elim (ℕ-cases s.step_order) [
    | inl e ↦ rw (e, start_next) (run_next-Dispatches s next none (inl (e, refl)))
    | inr (before, e) ↦ elim (Option-cases (get_elem? steps before)) [
      | inl f ↦ rw (e, start_next) (rw (f, start_next) (inl refl))
      | inr (p, f) ↦
          let previous = result_of (job_of w p) in
          elim (Bool-cases
            (evaluate_condition env.parsers.lower s.condition_type s.condition_params previous)) [
              | inl c ↦
                  rw (e, start_next)
                    (rw (f, start_next)
                      (rw (c, check_condition)
                        (run_next-Dispatches s next previous (inr (before, p, e, f, refl, c)))))
              | inr c ↦
                  rw (e, start_next)
                    (rw (f, start_next)
                      (rw (c, check_condition)
                        (inl (
                          skip_next-queue env run condition_not_met ChainRunStatus.completed steps
                            w))))
            ]
    ]
  ]

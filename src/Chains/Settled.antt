-- ===== src/Chains/Settled.antt =====
-- After a call of `advance_chain_run` that returns and that no other call overlaps, the run is settled:
-- it is terminal, or its first queued step is held by a job that has not ended or whose row is gone. The
-- next call, in any surroundings, then changes nothing.
use cyberlab_kali.Base.{
  ℕ, ◌≡◌, ◌≤◌, ◌⊎◌, inl, inr, refl, sym, subst, true, false, some, List, any, find, update_first,
  ok, arith, Bool-cases, Option-cases, All, count, count-zero_of_find, count-update_off,
  update_first-All,
}
use cyberlab_kali.Models.{World}
use cyberlab_kali.Models.Job
use cyberlab_kali.Models.Job.{JobRow, JobStatus}
use cyberlab_kali.Models.Chain.{ChainRunStatus, ChainRun, ChainRunStep, is_terminal}
use cyberlab_kali.Jobs.Creation.{Env}
use cyberlab_kali.Chains.{
  is_queued, is_pending, job_of, resolve, is_cancelled, is_failed, is_success, is_run_cancelled,
  is_run_failed, continue_run, reconcile_step, advance_found, advance_chain_run,
}
use cyberlab_kali.Chains.Soundness.{
  IsLinked, IsSound, is_unresolved, IsWaiting, IsSettled, IsGood, raises-IsGood, save_steps-IsSound,
  stop_chain_run-IsGood, final_is_terminal, IsIdle, start_next-IsGood,
}

module _ (env : Env) (run : ChainRun) (steps : List ChainRunStep) (idle : IsIdle steps) where
  continue_run-IsGood :
      (w : World)
      → is_terminal run.status ≡ false
      → IsSound w
      → IsGood run.id (continue_run env run steps w)
  unfolding continue_run
  continue_run-IsGood w live h = elim (Bool-cases (any is_cancelled steps)) [
    | inl e ↦ elim (Bool-cases (is_run_cancelled run.status)) [
      | inl f ↦ absurd (ground arith)
      | inr f ↦ rw e (rw f (stop_chain_run-IsGood env run ChainRunStatus.cancelled w refl h))
    ]
    | inr e ↦ elim (Bool-cases (any is_failed steps)) [
      | inl f ↦ elim (Bool-cases (is_run_failed run.status)) [
        | inl g ↦ absurd (ground arith)
        | inr g ↦ rw e (rw f (rw g (stop_chain_run-IsGood env run ChainRunStatus.failed w refl h)))
      ]
      | inr f ↦ elim (Option-cases (find is_pending steps)) [
        | inl g ↦ rw e (
            rw f (
              rw (g, continue_run)
                (stop_chain_run-IsGood env run _ w (final_is_terminal (any is_success steps)) h)))
        | inr (s, g) ↦
            rw e (rw f (rw (g, continue_run) (start_next-IsGood env run steps idle s w h g)))
      ]
    ]
  ]

resolve-not_queued : (status : JobStatus) (s : ChainRunStep) → is_queued (resolve status s) ≡ false
resolve-not_queued JobStatus.queued s = refl
resolve-not_queued _ s = refl

resolve-IsLinked :
    (status : JobStatus) (s : ChainRunStep)
    → is_queued s ≡ true
    → IsLinked s
    → IsLinked (resolve status s)
resolve-IsLinked status s q l = ground arith

resolved-IsIdle :
    (status : JobStatus) (steps : List ChainRunStep) (s : ChainRunStep)
    → count is_queued steps ≤ 1
    → All IsLinked steps
    → find is_queued steps ≡ some s
    → IsIdle (update_first is_queued (resolve status) steps)
resolved-IsIdle status steps s one linked found = record {
  none_queued = omega (
    arith,
    count-update_off is_queued (resolve status) steps s (resolve-not_queued status) found,
  );
  all_linked =
      update_first-All IsLinked is_queued (resolve status) steps (resolve-IsLinked status) linked;
}

module _ (env : Env) (run : ChainRun) (w : World) (stored : w.db.chain_runs run.id ≡ some run)
    (h : IsSound w) where
  unchanged : (is_terminal run.status ≡ true) ⊎ IsWaiting w run.id → IsGood run.id (ok run, w)
  unchanged still = record {
    sound = h;
    settled = λ n r.
        let same : run ≡ n = ground arith in
        subst (IsSettled w run.id) same (record { stored = stored; still = still });
  }

  reconcile_step-IsGood :
      (s : ChainRunStep) (job : JobRow)
      → is_terminal run.status ≡ false
      → find is_queued (w.db.chain_run_steps run.id) ≡ some s
      → job_of w s ≡ some job
      → IsGood run.id (reconcile_step env run (w.db.chain_run_steps run.id) w job)
  unfolding reconcile_step
  reconcile_step-IsGood s job live e f =
      let idle =
        resolved-IsIdle job.status (w.db.chain_run_steps run.id) s (h.one_queued run.id)
          (h.linked run.id) e in
      elim (Bool-cases (Job.is_terminal job.status)) [
        | inl t ↦ rw t (
            continue_run-IsGood env run _ idle _ live
              (save_steps-IsSound w run.id _ h (omega (arith, idle.none_queued)) idle.all_linked))
        | inr t ↦
            rw t (
              unchanged
                (inr (record { step = s; first_queued = e; unfinished = rw f (rw t refl) })))
      ]

  advance_found-IsGood : IsGood run.id (advance_found env run w)
  unfolding advance_found
  advance_found-IsGood = elim (Bool-cases (is_terminal run.status)) [
    | inl t ↦ rw t (unchanged (inl t))
    | inr live ↦ elim (Option-cases (find is_queued (w.db.chain_run_steps run.id))) [
      | inl e ↦ rw live (
          rw (e, advance_found)
            (continue_run-IsGood env run (w.db.chain_run_steps run.id)
              (record {
                none_queued = count-zero_of_find is_queued (w.db.chain_run_steps run.id) e;
                all_linked = h.linked run.id;
              })
              w live h))
      | inr (s, e) ↦ elim (Option-cases (job_of w s)) [
        | inl f ↦ rw live (
            rw (e, advance_found)
              (rw (f, advance_found)
                (unchanged (inr (record { step = s; first_queued = e; unfinished = rw f refl })))))
        | inr (job, f) ↦
            rw live
              (rw (e, advance_found) (rw (f, advance_found) (reconcile_step-IsGood s job live e f)))
      ]
    ]
  ]

advance_chain_run-IsGood :
    (env : Env) (id : ℕ) (w : World) → IsSound w → IsGood id (advance_chain_run env id w)
unfolding advance_chain_run
advance_chain_run-IsGood env id w h = elim (Option-cases (w.db.chain_runs id)) [
  | inl e ↦ rw (e, advance_chain_run) (raises-IsGood id _ w h)
  | inr (run, e) ↦
      let key = h.keyed id run e in
      rw (e, advance_chain_run)
        (subst (λ k. IsGood k (advance_found env run w)) key
          (advance_found-IsGood env run w (subst (λ k. w.db.chain_runs k ≡ some run) (sym key) e)
            h))
]

-- Every call of `advance_chain_run` keeps the stored chain runs sound, also one that raises.
pub advance_chain_run-IsSound :
    (env : Env) (id : ℕ) (w : World) → IsSound w → IsSound (advance_chain_run env id w).1
advance_chain_run-IsSound env id w h = (advance_chain_run-IsGood env id w h).sound

waiting_advance :
    (env : Env) (run : ChainRun) (w : World)
    → IsWaiting w run.id
    → advance_found env run w ≡ (ok run, w)
unfolding advance_found reconcile_step
waiting_advance env run w waiting = elim (Bool-cases (is_terminal run.status)) [
  | inl t ↦ rw t
  | inr live ↦ elim (Option-cases (job_of w waiting.step)) [
    | inl f ↦ rw live (rw (waiting.first_queued, advance_found) (rw (f, advance_found)))
    | inr (job, f) ↦
        let running_job : Job.is_terminal job.status ≡ false =
          ground (arith, subst (λ o. is_unresolved o ≡ true) f waiting.unfinished) in
        rw live (rw (waiting.first_queued, advance_found) (rw (f, advance_found) (rw running_job)))
  ]
]

-- A settled run is left as it is.
pub settled_advance :
    (env : Env) (id : ℕ) (w : World) (run : ChainRun)
    → run.id ≡ id
    → IsSettled w id run
    → advance_chain_run env id w ≡ (ok run, w)
unfolding advance_chain_run advance_found
settled_advance env id w run key settled =
    rw (settled.stored, advance_chain_run)
      (elim settled.still [
        | inl t ↦ rw t
        | inr waiting ↦ waiting_advance env run w (subst (IsWaiting w) (sym key) waiting)
      ])

-- A call of advance_chain_run that follows one which returned, in any surroundings, returns the
-- same run and changes neither the database nor the queue, if the stored runs were sound.
pub advance_chain_run-twice :
    (env env' : Env) (id : ℕ) (w : World) (run : ChainRun)
    → IsSound w
    → (advance_chain_run env id w).0 ≡ ok run
    → advance_chain_run env' id (advance_chain_run env id w).1
      ≡ (ok run, (advance_chain_run env id w).1)
advance_chain_run-twice env env' id w run h r =
    let good = advance_chain_run-IsGood env id w h in
    let settled = good.settled run r in
    settled_advance env' id _ run (good.sound.keyed id run settled.stored) settled

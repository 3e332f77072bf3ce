-- ===== src/Missions/Safety.antt =====
-- What a call of `advance_mission` may put in the queue.
use cyberlab_kali.Base.{
  ℕ, ◌≡◌, ◌<◌, ◌⊎◌, find_sound, arith, inl, inr, refl, true, false, none, some, List, [], ◌∷◌, ◌++◌,
  Text, Table, any, find, update_first, Result, ok, err, Bool-cases, Option-cases, if◌then◌else◌,
}
use cyberlab_kali.Targets.{Asset, address, is_executable}
use cyberlab_kali.Tools.Registry.{ToolError, uncaught_value_error}
use cyberlab_kali.Models.{World, QueueEntry}
use cyberlab_kali.Models.Job
use cyberlab_kali.Models.Job.{JobRow}
use cyberlab_kali.Models.Mission.{
  MissionStatus, MissionStepStatus, completed, SkipReason, rejected, no_valid_tool, asset_missing,
  not_authorized, MissionRow, MissionStep, is_terminal,
}
use cyberlab_kali.Jobs.Service.{PreparedJob, prepare_job, IsPrepared, prepare_job-IsPrepared}
use cyberlab_kali.Jobs.Creation.{Env, entry_for}
use cyberlab_kali.Missions.{
  Outcome, save_steps, stop_mission, is_queued, is_next, job_of, resolve, skip_next, queue_next,
  on_prepared, prepare_next, run_next, is_cancelled, is_failed_or_skipped, is_mission_cancelled,
  is_mission_failed, is_success, continue_mission, reconcile_step, advance_found, advance_mission,
}

-- The stored steps of a mission, its queued step resolved by its job as far as that is known.
pub reconciled : World → List MissionStep → List MissionStep
reconciled w steps = elim (find is_queued steps) [
  | none ↦ steps
  | some s ↦ elim (job_of w s) [
    | none ↦ steps
    | some job ↦ update_first is_queued (resolve job.status) steps
  ]
]

-- An entry that mission `m` with these steps may put in the queue: none of the steps was cancelled,
-- failed or skipped, and the entry is for the first one that is pending and below the cap of the
-- mission, as `prepare_job` makes it from the step's own tool, profile and options, against the
-- mission's own asset, which is executable at this moment.
pub record IsAllowed (env : Env) (assets : Table Asset) (next_job : ℕ) (m : MissionRow)
    (steps : List MissionStep) (entry : QueueEntry) : Type 0 where
  pub none_cancelled : any is_cancelled steps ≡ false
  pub none_failed : any is_failed_or_skipped steps ≡ false
  pub asset : Asset
  pub present : assets m.target_id ≡ some asset
  pub executable : is_executable asset ≡ true
  pub step : MissionStep
  pub next : find (is_next m.max_steps) steps ≡ some step
  pub pending : step.status ≡ MissionStepStatus.pending
  pub capped : step.step_order < m.max_steps
  pub chosen : step.tool ≡ some entry.tool
  pub prepared : PreparedJob
  pub prepares :
      prepare_job env.parsers env.registry entry.tool step.profile step.options (address asset) none
      ≡ ok prepared
  pub checked : IsPrepared env.parsers env.registry entry.tool (address asset) prepared
  pub given : entry ≡ entry_for entry.job_id entry.tool prepared
  pub fresh : entry.job_id ≡ next_job

next_pending :
    (max_steps : ℕ) (s : MissionStep)
    → is_next max_steps s ≡ true
    → (s.status ≡ MissionStepStatus.pending) × (s.step_order < max_steps)
next_pending max_steps s h = (ground (arith, h), ground (arith, h))

-- The queue is left alone, or it has one more entry, an allowed one.
abbrev pub Dispatches : Env → World → MissionRow → List MissionStep → Outcome → Type 0
Dispatches env w m steps o =
    (o.1.queue ≡ w.queue)
    ⊎ ((entry : QueueEntry) × (o.1.queue ≡ w.queue ++ entry ∷ [])
        × IsAllowed env w.db.assets w.db.next_job m steps entry)

module _ (env : Env) (w : World) (m : MissionRow) where
  module _ (steps : List MissionStep) where
    skip_next-Dispatches :
        (reason : SkipReason) → Dispatches env w m steps (skip_next env m reason steps w)
    unfolding skip_next
    skip_next-Dispatches reason = inl refl

    module _ (clean : any is_cancelled steps ≡ false)
        (unfailed : any is_failed_or_skipped steps ≡ false) (s : MissionStep)
        (next : find (is_next m.max_steps) steps ≡ some s) (tool : Text)
        (chosen : s.tool ≡ some tool) (asset : Asset)
        (present : w.db.assets m.target_id ≡ some asset)
        (executable : is_executable asset ≡ true) where
      queue_next-Dispatches :
          (prepared : PreparedJob)
          → prepare_job env.parsers env.registry tool s.profile s.options (address asset) none
            ≡ ok prepared
          → Dispatches env w m steps (queue_next env m s tool asset prepared steps w)
      unfolding queue_next
      queue_next-Dispatches prepared prepares = elim (Bool-cases env.redis_up) [
        | inr e ↦ rw e (inl refl)
        | inl e ↦ rw e (
            inr (
              entry_for w.db.next_job tool prepared,
              refl,
              record {
                asset = asset;
                present = present;
                executable = executable;
                none_cancelled = clean;
                none_failed = unfailed;
                step = s;
                next = next;
                pending =
                    (next_pending m.max_steps s (find_sound (is_next m.max_steps) steps s next)).0;
                capped =
                    (next_pending m.max_steps s (find_sound (is_next m.max_steps) steps s next)).1;
                chosen = chosen;
                prepared = prepared;
                prepares = prepares;
                checked =
                    prepare_job-IsPrepared env.parsers env.registry tool s.profile s.options
                      (address asset) none prepared prepares;
                given = refl;
                fresh = refl;
              },
            ))
      ]

      on_prepared-Dispatches :
          (r : Result ToolError PreparedJob)
          → prepare_job env.parsers env.registry tool s.profile s.options (address asset) none ≡ r
          → Dispatches env w m steps (on_prepared env m s tool asset steps w r)
      unfolding on_prepared
      on_prepared-Dispatches (ok p) prepares = queue_next-Dispatches p prepares
      on_prepared-Dispatches (err uncaught_value_error) prepares = inl refl
      on_prepared-Dispatches (err e) prepares = skip_next-Dispatches (rejected e)

      prepare_next-Dispatches : Dispatches env w m steps (prepare_next env m s tool asset steps w)
      unfolding prepare_next
      prepare_next-Dispatches = on_prepared-Dispatches _ refl

    run_next-Dispatches :
        (s : MissionStep)
        → any is_cancelled steps ≡ false
        → any is_failed_or_skipped steps ≡ false
        → find (is_next m.max_steps) steps ≡ some s
        → Dispatches env w m steps (run_next env m s steps w)
    unfolding run_next
    run_next-Dispatches s clean unfailed next = elim (Option-cases s.tool) [
      | inl e ↦ rw (e, run_next) (skip_next-Dispatches no_valid_tool)
      | inr (tool, e) ↦ elim (Option-cases (w.db.assets m.target_id)) [
        | inl f ↦ rw (e, run_next) (rw (f, run_next) (skip_next-Dispatches asset_missing))
        | inr (asset, f) ↦ elim (Bool-cases (is_executable asset)) [
          | inl x ↦
              rw (e, run_next)
                (rw (f, run_next)
                  (rw x (prepare_next-Dispatches clean unfailed s next tool e asset f x)))
          | inr x ↦
              rw (e, run_next)
                (rw (f, run_next)
                  (rw x (skip_next-Dispatches (not_authorized asset.authorization_status))))
        ]
      ]
    ]

    stop_mission-queue : (status : MissionStatus) → (stop_mission env m status w).1.queue ≡ w.queue
    unfolding stop_mission
    stop_mission-queue status = refl

    continue_mission-Dispatches : Dispatches env w m steps (continue_mission env m steps w)
    unfolding continue_mission
    continue_mission-Dispatches = elim (Bool-cases (any is_cancelled steps)) [
      | inl e ↦ elim (Bool-cases (is_mission_cancelled m.status)) [
        | inl f ↦ rw e (rw f (inl refl))
        | inr f ↦ rw e (rw f (inl (stop_mission-queue MissionStatus.cancelled)))
      ]
      | inr e ↦ elim (Bool-cases (any is_failed_or_skipped steps)) [
        | inl f ↦ elim (Bool-cases (is_mission_failed m.status)) [
          | inl g ↦ rw e (rw f (rw g (inl refl)))
          | inr g ↦ rw e (rw f (rw g (inl (stop_mission-queue MissionStatus.failed))))
        ]
        | inr f ↦ elim (Option-cases (find (is_next m.max_steps) steps)) [
          | inl g ↦ rw e (
              rw f (
                rw (g, continue_mission)
                  (inl (
                    stop_mission-queue
                      (if any is_success steps then completed else MissionStatus.failed)))))
          | inr (s, g) ↦ rw e (rw f (rw (g, continue_mission) (run_next-Dispatches s e f g)))
        ]
      ]
    ]

-- The steps are those that are stored under the mission's id, reconciled with the job of the queued one.
module _ (env : Env) (w : World) (m : MissionRow) where
  abbrev stored_steps : List MissionStep
  stored_steps = w.db.mission_steps m.id

  reconcile_step-Dispatches :
      (job : JobRow)
      → Dispatches env w m
          (update_first is_queued (resolve job.status) stored_steps)
          (reconcile_step env m stored_steps w job)
  unfolding reconcile_step
  reconcile_step-Dispatches job = elim (Bool-cases (Job.is_terminal job.status)) [
    | inl t ↦
        let steps' = update_first is_queued (resolve job.status) stored_steps in
        rw t (continue_mission-Dispatches env (save_steps w m.id steps') m steps')
    | inr t ↦ rw t (inl refl)
  ]

  advance_found-Dispatches : Dispatches env w m (reconciled w stored_steps) (advance_found env m w)
  unfolding advance_found reconciled
  advance_found-Dispatches = elim (Bool-cases (is_terminal m.status)) [
    | inl t ↦ rw t (inl refl)
    | inr live ↦ elim (Option-cases (find is_queued stored_steps)) [
      | inl e ↦
          rw live
            (rw (e, advance_found, reconciled) (continue_mission-Dispatches env w m stored_steps))
      | inr (s, e) ↦ elim (Option-cases (job_of w s)) [
        | inl f ↦
            rw live
              (rw (e, advance_found, reconciled) (rw (f, advance_found, reconciled) (inl refl)))
        | inr (job, f) ↦ rw live (
            rw (e, advance_found, reconciled)
              (rw (f, advance_found, reconciled) (reconcile_step-Dispatches job)))
      ]
    ]
  ]

  terminal_queue : is_terminal m.status ≡ true → (advance_found env m w).1.queue ≡ w.queue
  unfolding advance_found
  terminal_queue t = rw t refl

-- A call of advance_mission leaves the queue alone, or adds one entry for a stored mission that is not
-- terminal and has, once its queued step is resolved by its job, no cancelled, failed or skipped step:
-- for the first of its steps that is pending and below max_steps, with what prepare_job makes of that
-- step's tool, profile and options and of the address of the mission's asset, which exists and is
-- executable at that moment.
pub advance_mission-Dispatches :
    (env : Env) (id : ℕ) (w : World)
    → ((advance_mission env id w).1.queue ≡ w.queue)
      ⊎ ((m : MissionRow) × (w.db.missions id ≡ some m)
          × (is_terminal m.status ≡ false)
          × Dispatches env w m (reconciled w (w.db.mission_steps m.id)) (advance_mission env id w))
unfolding advance_mission
advance_mission-Dispatches env id w = elim (Option-cases (w.db.missions id)) [
  | inl e ↦ rw (e, advance_mission) (inl refl)
  | inr (m, e) ↦ elim (Bool-cases (is_terminal m.status)) [
    | inl t ↦ rw (e, advance_mission) (inl (terminal_queue env w m t))
    | inr live ↦ rw (e, advance_mission) (inr (m, refl, live, advance_found-Dispatches env w m))
  ]
]

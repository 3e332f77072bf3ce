-- ===== src/Missions/Frame.antt =====
-- What a call of advance_mission writes: rows of missions, their steps, a new job and an entry of the
-- queue. A property of worlds that these writes keep is kept by the call.
use cyberlab_kali.Base.{
  ℕ, ◌≡◌, refl, false, some, inl, inr, any, find, update_first, Bool-cases, Option-cases, List,
  Text, Result, ok, err,
}
use cyberlab_kali.Targets.{Asset, is_executable}
use cyberlab_kali.Tools.Registry.{ToolError, uncaught_value_error}
use cyberlab_kali.Models.{World, QueueEntry}
use cyberlab_kali.Models.Job
use cyberlab_kali.Models.Job.{JobRow}
use cyberlab_kali.Models.Mission.{
  MissionStatus, running, SkipReason, MissionRow, MissionStep, is_terminal,
}
use cyberlab_kali.Jobs.Service.{PreparedJob}
use cyberlab_kali.Jobs.Creation.{Env, asset_job, add_job, entry_for, enqueue}
use cyberlab_kali.Missions.{
  save_mission, save_steps, stop_mission, is_queued, is_cancelled, is_failed_or_skipped, is_next,
  job_of, resolve, skip, dispatch, skip_next, queue_next, on_prepared, prepare_next, run_next,
  is_mission_cancelled, is_mission_failed, continue_mission, reconcile_step, advance_found,
  advance_mission,
}

pub record IsClosed (P : World → Type 0) : Type 0 where
  pub saved : (w : World) (m : MissionRow) → P w → P (save_mission w m)
  pub stepped : (w : World) (id : ℕ) (steps : List MissionStep) → P w → P (save_steps w id steps)
  pub added :
      (w : World) (job : JobRow)
      → job.id ≡ w.db.next_job
      → Job.is_terminal job.status ≡ false
      → P w
      → P (record w { db = add_job w.db job })
  pub queued : (w : World) (entry : QueueEntry) → P w → P (enqueue w entry)

module _ (P : World → Type 0) (closed : IsClosed P) (env : Env) (m : MissionRow) where
  stop_mission-keeps :
      (status : MissionStatus) (w : World) → P w → P (stop_mission env m status w).1
  unfolding stop_mission
  stop_mission-keeps status w h =
      closed.saved w (record m { status = status; finished_at = some env.now }) h

  skip_next-keeps :
      (reason : SkipReason) (steps : List MissionStep) (w : World)
      → P w
      → P (skip_next env m reason steps w).1
  unfolding skip_next
  skip_next-keeps reason steps w h =
      stop_mission-keeps MissionStatus.failed _
        (closed.stepped w m.id (update_first (is_next m.max_steps) (skip reason) steps) h)

  queue_next-keeps :
      (s : MissionStep) (tool : Text) (asset : Asset) (prepared : PreparedJob)
      (steps : List MissionStep) (w : World)
      → P w
      → P (queue_next env m s tool asset prepared steps w).1
  unfolding queue_next
  queue_next-keeps s tool asset prepared steps w h = elim (Bool-cases env.redis_up) [
    | inr e ↦ rw e h
    | inl e ↦
        let id = w.db.next_job in
        let job = asset_job env id tool s.profile asset prepared in
        let steps' = update_first (is_next m.max_steps) (dispatch id) steps in
        let started = record m { status = running } in
        let with_row = record w { db = add_job w.db job } in
        rw e (
          closed.queued (save_mission (save_steps with_row m.id steps') started)
            (entry_for id tool prepared)
            (closed.saved (save_steps with_row m.id steps') started
              (closed.stepped with_row m.id steps' (closed.added w job refl refl h))))
  ]

  on_prepared-keeps :
      (s : MissionStep) (tool : Text) (asset : Asset) (steps : List MissionStep) (w : World)
      (r : Result ToolError PreparedJob)
      → P w
      → P (on_prepared env m s tool asset steps w r).1
  unfolding on_prepared
  on_prepared-keeps s tool asset steps w (ok prepared) h =
      queue_next-keeps s tool asset prepared steps w h
  on_prepared-keeps s tool asset steps w (err uncaught_value_error) h = h
  on_prepared-keeps s tool asset steps w (err _) h = skip_next-keeps _ steps w h

  prepare_next-keeps :
      (s : MissionStep) (tool : Text) (asset : Asset) (steps : List MissionStep) (w : World)
      → P w
      → P (prepare_next env m s tool asset steps w).1
  unfolding prepare_next
  prepare_next-keeps s tool asset steps w h = on_prepared-keeps s tool asset steps w _ h

  run_next-keeps :
      (s : MissionStep) (steps : List MissionStep) (w : World)
      → P w
      → P (run_next env m s steps w).1
  unfolding run_next
  run_next-keeps s steps w h = elim (Option-cases s.tool) [
    | inl e ↦ rw (e, run_next) (skip_next-keeps _ steps w h)
    | inr (tool, e) ↦ elim (Option-cases (w.db.assets m.target_id)) [
      | inl f ↦ rw (e, run_next) (rw (f, run_next) (skip_next-keeps _ steps w h))
      | inr (asset, f) ↦ elim (Bool-cases (is_executable asset)) [
        | inl x ↦
            rw (e, run_next) (rw (f, run_next) (rw x (prepare_next-keeps s tool asset steps w h)))
        | inr x ↦ rw (e, run_next) (rw (f, run_next) (rw x (skip_next-keeps _ steps w h)))
      ]
    ]
  ]

  continue_mission-keeps :
      (steps : List MissionStep) (w : World) → P w → P (continue_mission env m steps w).1
  unfolding continue_mission
  continue_mission-keeps steps w h = elim (Bool-cases (any is_cancelled steps)) [
    | inl e ↦ elim (Bool-cases (is_mission_cancelled m.status)) [
      | inl f ↦ rw e (rw f h)
      | inr f ↦ rw e (rw f (stop_mission-keeps MissionStatus.cancelled w h))
    ]
    | inr e ↦ elim (Bool-cases (any is_failed_or_skipped steps)) [
      | inl f ↦ elim (Bool-cases (is_mission_failed m.status)) [
        | inl g ↦ rw e (rw f (rw g h))
        | inr g ↦ rw e (rw f (rw g (stop_mission-keeps MissionStatus.failed w h)))
      ]
      | inr f ↦ elim (Option-cases (find (is_next m.max_steps) steps)) [
        | inl g ↦ rw e (rw f (rw (g, continue_mission) (stop_mission-keeps _ w h)))
        | inr (s, g) ↦ rw e (rw f (rw (g, continue_mission) (run_next-keeps s steps w h)))
      ]
    ]
  ]

  reconcile_step-keeps :
      (steps : List MissionStep) (w : World) (job : JobRow)
      → P w
      → P (reconcile_step env m steps w job).1
  unfolding reconcile_step
  reconcile_step-keeps steps w job h =
      let steps' = update_first is_queued (resolve job.status) steps in
      elim (Bool-cases (Job.is_terminal job.status)) [
        | inl t ↦ rw t (
            continue_mission-keeps steps' (save_steps w m.id steps')
              (closed.stepped w m.id steps' h))
        | inr t ↦ rw t h
      ]

  advance_found-keeps : (w : World) → P w → P (advance_found env m w).1
  unfolding advance_found
  advance_found-keeps w h =
      let steps = w.db.mission_steps m.id in
      elim (Bool-cases (is_terminal m.status)) [
        | inl t ↦ rw t h
        | inr live ↦ elim (Option-cases (find is_queued steps)) [
          | inl e ↦ rw live (rw (e, advance_found) (continue_mission-keeps steps w h))
          | inr (s, e) ↦ elim (Option-cases (job_of w s)) [
            | inl f ↦ rw live (rw (e, advance_found) (rw (f, advance_found) h))
            | inr (job, f) ↦
                rw live (
                  rw (e, advance_found)
                    (rw (f, advance_found) (reconcile_step-keeps steps w job h)))
          ]
        ]
      ]

pub advance_mission-keeps :
    (P : World → Type 0) (closed : IsClosed P) (env : Env) (id : ℕ) (w : World)
    → P w
    → P (advance_mission env id w).1
unfolding advance_mission
advance_mission-keeps P closed env id w h = elim (Option-cases (w.db.missions id)) [
  | inl e ↦ rw (e, advance_mission) h
  | inr (m, e) ↦ rw (e, advance_mission) (advance_found-keeps P closed env m w h)
]

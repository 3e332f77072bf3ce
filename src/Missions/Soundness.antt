-- ===== src/Missions/Soundness.antt =====
-- What holds of the stored missions between two calls of `advance_mission`, and what a call that
-- reaches the next step leaves behind.
use cyberlab_kali.Base.{
  ℕ, ◌≡◌, ◌≤◌, ◌⊎◌, inl, inr, refl, subst, if◌then◌else◌, Bool, true, false, not, ◌||◌, Option,
  none, some, List, Text, find, update_first, Result, ok, err, arith, Bool-cases, Option-cases, All,
  count, is_some, ◌==◌, ==_refl, count-update_on, find-update_first, update_first-All, put_self,
}
use cyberlab_kali.Targets.{Asset, is_executable}
use cyberlab_kali.Tools.Registry.{ToolError, uncaught_value_error}
use cyberlab_kali.Models.{World}
use cyberlab_kali.Models.Job
use cyberlab_kali.Models.Job.{JobRow, JobStatus}
use cyberlab_kali.Models.Mission.{
  MissionStatus, running, MissionStepStatus, SkipReason, MissionRow, MissionStep, is_terminal,
}
use cyberlab_kali.Jobs.Service.{PreparedJob}
use cyberlab_kali.Jobs.Creation.{Env, asset_job, add_job}
use cyberlab_kali.Missions.{
  MissionError, Outcome, save_mission, save_steps, stop_mission, is_queued, is_next, job_of, skip,
  dispatch, skip_next, with_job, queue_next, on_prepared, prepare_next, run_next,
}

-- `ck_mission_step_job_id_required_when_executed`: a step that was queued, or ran, names its job.
abbrev pub needs_job : MissionStepStatus → Bool
needs_job MissionStepStatus.queued = true
needs_job MissionStepStatus.success = true
needs_job MissionStepStatus.failed = true
needs_job _ = false

abbrev pub is_linked : MissionStep → Bool
is_linked s = not (needs_job s.status) || is_some s.job_id

abbrev pub IsLinked : MissionStep → Type 0
IsLinked s = is_linked s ≡ true

-- What holds of the stored missions between two calls.
pub record IsSound (w : World) : Type 0 where
  pub keyed : (id : ℕ) (m : MissionRow) → w.db.missions id ≡ some m → m.id ≡ id
  pub one_queued : (id : ℕ) → count is_queued (w.db.mission_steps id) ≤ 1
  pub linked : (id : ℕ) → All IsLinked (w.db.mission_steps id)

-- What keeps a call from resolving the queued step: its job has not ended, or the row of the job is
-- gone, and then for good.
abbrev pub is_unresolved : Option JobRow → Bool
is_unresolved none = true
is_unresolved (some job) = not (Job.is_terminal job.status)

-- The mission is held by the job of its first queued step.
pub record IsWaiting (w : World) (id : ℕ) : Type 0 where
  pub step : MissionStep
  pub first_queued : find is_queued (w.db.mission_steps id) ≡ some step
  pub unfinished : is_unresolved (job_of w step) ≡ true

-- The mission `m` is stored under `id`, and it is terminal or held.
pub record IsSettled (w : World) (id : ℕ) (m : MissionRow) : Type 0 where
  pub stored : w.db.missions id ≡ some m
  pub still : (is_terminal m.status ≡ true) ⊎ IsWaiting w id

-- A call leaves sound missions behind, and a settled one if it returns.
pub record IsGood (id : ℕ) (o : Outcome) : Type 0 where
  pub sound : IsSound o.1
  pub settled : (m : MissionRow) → o.0 ≡ ok m → IsSettled o.1 id m

pub raises-IsGood : (id : ℕ) (e : MissionError) (w : World) → IsSound w → IsGood id (err e, w)
raises-IsGood id e w h = record { sound = h; settled = λ m r. absurd (ground arith) }

pub save_steps-IsSound :
    (w : World) (id : ℕ) (steps : List MissionStep)
    → IsSound w
    → count is_queued steps ≤ 1
    → All IsLinked steps
    → IsSound (save_steps w id steps)
save_steps-IsSound w id steps h one all = record {
  keyed = h.keyed;
  one_queued =
      λ j. elim (Bool-cases (id == j)) [ inl e ↦ rw e one | inr e ↦ rw e (h.one_queued j) ];
  linked = λ j. elim (Bool-cases (id == j)) [ inl e ↦ rw e all | inr e ↦ rw e (h.linked j) ];
}

pub save_mission-IsSound : (w : World) (m : MissionRow) → IsSound w → IsSound (save_mission w m)
save_mission-IsSound w m h = record {
  keyed = λ j n e. ground (arith, h.keyed j n);
  one_queued = h.one_queued;
  linked = h.linked;
}

pub stop_mission-IsGood :
    (env : Env) (m : MissionRow) (status : MissionStatus) (w : World)
    → is_terminal status ≡ true
    → IsSound w
    → IsGood m.id (stop_mission env m status w)
unfolding stop_mission
stop_mission-IsGood env m status w t h =
    let stopped = record m { status = status; finished_at = some env.now } in
    record {
      sound = save_mission-IsSound w stopped h;
      settled = λ n r.
          let same : stopped ≡ n = ground arith in
          subst (IsSettled (save_mission w stopped) m.id) same
            (record { stored = put_self w.db.missions m.id stopped; still = inl t });
    }

pub final_is_terminal :
    (b : Bool) → is_terminal (if b then MissionStatus.completed else MissionStatus.failed) ≡ true
final_is_terminal b = ground arith

-- The steps of a mission none of whose steps is queued.
pub record IsIdle (steps : List MissionStep) : Type 0 where
  pub none_queued : count is_queued steps ≡ 0
  pub all_linked : All IsLinked steps

module _ (env : Env) (m : MissionRow) (steps : List MissionStep) (idle : IsIdle steps) where
  skip_next-IsGood :
      (reason : SkipReason) (w : World) → IsSound w → IsGood m.id (skip_next env m reason steps w)
  unfolding skip_next
  skip_next-IsGood reason w h = stop_mission-IsGood env m MissionStatus.failed _ refl (
      save_steps-IsSound w m.id _ h
        (omega (
          arith,
          count-update_on is_queued (is_next m.max_steps) (skip reason) steps,
          idle.none_queued,
        ))
        (update_first-All IsLinked (is_next m.max_steps) (skip reason) steps (λ s e l. refl)
          idle.all_linked))

  module _ (s : MissionStep) (tool : Text) (asset : Asset) (prepared : PreparedJob) (w : World)
      (h : IsSound w) where
    with_job-IsSound : IsSound (with_job env m s tool asset prepared steps w)
    with_job-IsSound =
        let id = w.db.next_job in
        let added = record w {
          db = add_job w.db (asset_job env id tool s.profile asset prepared);
        } in
        let steps' = update_first (is_next m.max_steps) (dispatch id) steps in
        let base : IsSound added = record {
          keyed = h.keyed;
          one_queued = h.one_queued;
          linked = h.linked;
        } in
        let saved =
          save_mission-IsSound (save_steps added m.id steps') (record m { status = running })
            (save_steps-IsSound added m.id steps' base
              (omega (
                arith,
                count-update_on is_queued (is_next m.max_steps) (dispatch id) steps,
                idle.none_queued,
              ))
              (update_first-All IsLinked (is_next m.max_steps) (dispatch id) steps (λ t e l. refl)
                idle.all_linked)) in
        record { keyed = saved.keyed; one_queued = saved.one_queued; linked = saved.linked }

    with_job-IsSettled :
        find (is_next m.max_steps) steps ≡ some s
        → IsSettled
            (with_job env m s tool asset prepared steps w)
            m.id
            (record m { status = running })
    with_job-IsSettled found =
        let id = w.db.next_job in
        let job = asset_job env id tool s.profile asset prepared in
        record {
          stored = put_self w.db.missions m.id (record m { status = running });
          still = inr (record {
            step = dispatch id s;
            first_queued = rw (==_refl m.id) (
                find-update_first is_queued (is_next m.max_steps) (dispatch id) steps s
                  idle.none_queued found (λ t. refl));
            unfinished = rw (put_self w.db.jobs id job) refl;
          });
        }

    queue_next-IsGood :
        find (is_next m.max_steps) steps ≡ some s
        → IsGood m.id (queue_next env m s tool asset prepared steps w)
    unfolding queue_next
    queue_next-IsGood found = elim (Bool-cases env.redis_up) [
      | inr e ↦ rw e (raises-IsGood m.id _ w h)
      | inl e ↦ rw e (record {
        sound = with_job-IsSound;
        settled = λ n r.
            let same : record m { status = running } ≡ n = ground arith in
            subst (IsSettled (with_job env m s tool asset prepared steps w) m.id) same
              (with_job-IsSettled found);
      })
    ]

  module _ (s : MissionStep) (w : World) (h : IsSound w)
      (found : find (is_next m.max_steps) steps ≡ some s) where
    on_prepared-IsGood :
        (tool : Text) (asset : Asset) (r : Result ToolError PreparedJob)
        → IsGood m.id (on_prepared env m s tool asset steps w r)
    unfolding on_prepared
    on_prepared-IsGood tool asset (ok prepared) = queue_next-IsGood s tool asset prepared w h found
    on_prepared-IsGood tool asset (err uncaught_value_error) = raises-IsGood m.id _ w h
    on_prepared-IsGood tool asset (err _) = skip_next-IsGood _ w h

    prepare_next-IsGood :
        (tool : Text) (asset : Asset) → IsGood m.id (prepare_next env m s tool asset steps w)
    unfolding prepare_next
    prepare_next-IsGood tool asset = on_prepared-IsGood tool asset _

    pub run_next-IsGood : IsGood m.id (run_next env m s steps w)
    unfolding run_next
    run_next-IsGood = elim (Option-cases s.tool) [
      | inl e ↦ rw (e, run_next) (skip_next-IsGood _ w h)
      | inr (tool, e) ↦ elim (Option-cases (w.db.assets m.target_id)) [
        | inl f ↦ rw (e, run_next) (rw (f, run_next) (skip_next-IsGood _ w h))
        | inr (asset, f) ↦ elim (Bool-cases (is_executable asset)) [
          | inl x ↦ rw (e, run_next) (rw (f, run_next) (rw x (prepare_next-IsGood tool asset)))
          | inr x ↦ rw (e, run_next) (rw (f, run_next) (rw x (skip_next-IsGood _ w h)))
        ]
      ]
    ]

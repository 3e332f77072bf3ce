-- ===== src/Missions/Settled.antt =====
-- After a call of `advance_mission` that returns and that no other call overlaps, the mission is settled:
-- it is terminal, or its first queued step is held by a job that has not ended or whose row is gone. The
-- next call, in any surroundings, then changes nothing.
use cyberlab_kali.Base.{
  ℕ, ◌≡◌, ◌≤◌, ◌⊎◌, inl, inr, refl, sym, subst, true, false, some, List, any, find, update_first,
  ok, arith, Bool-cases, Option-cases, All, count, count-zero_of_find, count-update_off,
  update_first-All,
}
use cyberlab_kali.Models.{World}
use cyberlab_kali.Models.Job
use cyberlab_kali.Models.Job.{JobRow, JobStatus}
use cyberlab_kali.Models.Mission.{MissionStatus, MissionRow, MissionStep, is_terminal}
use cyberlab_kali.Jobs.Creation.{Env}
use cyberlab_kali.Missions.{
  is_queued, is_next, job_of, resolve, is_cancelled, is_failed_or_skipped, is_success,
  is_mission_cancelled, is_mission_failed, continue_mission, reconcile_step, advance_found,
  advance_mission,
}
use cyberlab_kali.Missions.Soundness.{
  IsLinked, IsSound, is_unresolved, IsWaiting, IsSettled, IsGood, raises-IsGood, save_steps-IsSound,
  stop_mission-IsGood, final_is_terminal, IsIdle, run_next-IsGood,
}

module _ (env : Env) (m : MissionRow) (steps : List MissionStep) (idle : IsIdle steps) where
  continue_mission-IsGood :
      (w : World)
      → is_terminal m.status ≡ false
      → IsSound w
      → IsGood m.id (continue_mission env m steps w)
  unfolding continue_mission
  continue_mission-IsGood w live h = elim (Bool-cases (any is_cancelled steps)) [
    | inl e ↦ elim (Bool-cases (is_mission_cancelled m.status)) [
      | inl f ↦ absurd (ground arith)
      | inr f ↦ rw e (rw f (stop_mission-IsGood env m MissionStatus.cancelled w refl h))
    ]
    | inr e ↦ elim (Bool-cases (any is_failed_or_skipped steps)) [
      | inl f ↦ elim (Bool-cases (is_mission_failed m.status)) [
        | inl g ↦ absurd (ground arith)
        | inr g ↦ rw e (rw f (rw g (stop_mission-IsGood env m MissionStatus.failed w refl h)))
      ]
      | inr f ↦ elim (Option-cases (find (is_next m.max_steps) steps)) [
        | inl g ↦ rw e (
            rw f (
              rw (g, continue_mission)
                (stop_mission-IsGood env m _ w (final_is_terminal (any is_success steps)) h)))
        | inr (s, g) ↦
            rw e (rw f (rw (g, continue_mission) (run_next-IsGood env m steps idle s w h g)))
      ]
    ]
  ]

resolve-not_queued : (status : JobStatus) (s : MissionStep) → is_queued (resolve status s) ≡ false
resolve-not_queued JobStatus.queued s = refl
resolve-not_queued _ s = refl

resolve-IsLinked :
    (status : JobStatus) (s : MissionStep)
    → is_queued s ≡ true
    → IsLinked s
    → IsLinked (resolve status s)
resolve-IsLinked status s q l = ground arith

resolved-IsIdle :
    (status : JobStatus) (steps : List MissionStep) (s : MissionStep)
    → count is_queued steps ≤ 1
    → All IsLinked steps
    → find is_queued steps ≡ some s
    → IsIdle (update_first is_queued (resolve status) steps)
resolved-IsIdle status steps s one linked found = record {
  none_queued = omega (
    arith,
    count-update_off is_queued (resolve status) steps s (resolve-not_queued status) found,
  );
  all_linked =
      update_first-All IsLinked is_queued (resolve status) steps (resolve-IsLinked status) linked;
}

module _ (env : Env) (m : MissionRow) (w : World) (stored : w.db.missions m.id ≡ some m)
    (h : IsSound w) where
  unchanged : (is_terminal m.status ≡ true) ⊎ IsWaiting w m.id → IsGood m.id (ok m, w)
  unchanged still = record {
    sound = h;
    settled = λ n r.
        let same : m ≡ n = ground arith in
        subst (IsSettled w m.id) same (record { stored = stored; still = still });
  }

  reconcile_step-IsGood :
      (s : MissionStep) (job : JobRow)
      → is_terminal m.status ≡ false
      → find is_queued (w.db.mission_steps m.id) ≡ some s
      → job_of w s ≡ some job
      → IsGood m.id (reconcile_step env m (w.db.mission_steps m.id) w job)
  unfolding reconcile_step
  reconcile_step-IsGood s job live e f =
      let idle =
        resolved-IsIdle job.status (w.db.mission_steps m.id) s (h.one_queued m.id) (h.linked m.id)
          e in
      elim (Bool-cases (Job.is_terminal job.status)) [
        | inl t ↦ rw t (
            continue_mission-IsGood env m _ idle _ live
              (save_steps-IsSound w m.id _ h (omega (arith, idle.none_queued)) idle.all_linked))
        | inr t ↦
            rw t (
              unchanged
                (inr (record { step = s; first_queued = e; unfinished = rw f (rw t refl) })))
      ]

  advance_found-IsGood : IsGood m.id (advance_found env m w)
  unfolding advance_found
  advance_found-IsGood = elim (Bool-cases (is_terminal m.status)) [
    | inl t ↦ rw t (unchanged (inl t))
    | inr live ↦ elim (Option-cases (find is_queued (w.db.mission_steps m.id))) [
      | inl e ↦ rw live (
          rw (e, advance_found)
            (continue_mission-IsGood env m (w.db.mission_steps m.id)
              (record {
                none_queued = count-zero_of_find is_queued (w.db.mission_steps m.id) e;
                all_linked = h.linked m.id;
              })
              w live h))
      | inr (s, e) ↦ elim (Option-cases (job_of w s)) [
        | inl f ↦ rw live (
            rw (e, advance_found)
              (rw (f, advance_found)
                (unchanged (inr (record { step = s; first_queued = e; unfinished = rw f refl })))))
        | inr (job, f) ↦
            rw live
              (rw (e, advance_found) (rw (f, advance_found) (reconcile_step-IsGood s job live e f)))
      ]
    ]
  ]

pub advance_mission-IsGood :
    (env : Env) (id : ℕ) (w : World) → IsSound w → IsGood id (advance_mission env id w)
unfolding advance_mission
advance_mission-IsGood env id w h = elim (Option-cases (w.db.missions id)) [
  | inl e ↦ rw (e, advance_mission) (raises-IsGood id _ w h)
  | inr (m, e) ↦
      let key = h.keyed id m e in
      rw (e, advance_mission)
        (subst (λ k. IsGood k (advance_found env m w)) key
          (advance_found-IsGood env m w (subst (λ k. w.db.missions k ≡ some m) (sym key) e) h))
]

-- Every call of `advance_mission` keeps the stored missions sound, also one that raises.
pub advance_mission-IsSound :
    (env : Env) (id : ℕ) (w : World) → IsSound w → IsSound (advance_mission env id w).1
advance_mission-IsSound env id w h = (advance_mission-IsGood env id w h).sound

waiting_advance :
    (env : Env) (m : MissionRow) (w : World) → IsWaiting w m.id → advance_found env m w ≡ (ok m, w)
unfolding advance_found reconcile_step
waiting_advance env m w waiting = elim (Bool-cases (is_terminal m.status)) [
  | inl t ↦ rw t
  | inr live ↦ elim (Option-cases (job_of w waiting.step)) [
    | inl f ↦ rw live (rw (waiting.first_queued, advance_found) (rw (f, advance_found)))
    | inr (job, f) ↦
        let running_job : Job.is_terminal job.status ≡ false =
          ground (arith, subst (λ o. is_unresolved o ≡ true) f waiting.unfinished) in
        rw live (rw (waiting.first_queued, advance_found) (rw (f, advance_found) (rw running_job)))
  ]
]

-- A settled mission is left as it is.
pub settled_advance :
    (env : Env) (id : ℕ) (w : World) (m : MissionRow)
    → m.id ≡ id
    → IsSettled w id m
    → advance_mission env id w ≡ (ok m, w)
unfolding advance_mission advance_found
settled_advance env id w m key settled =
    rw (settled.stored, advance_mission)
      (elim settled.still [
        | inl t ↦ rw t
        | inr waiting ↦ waiting_advance env m w (subst (IsWaiting w) (sym key) waiting)
      ])

-- A call of advance_mission that follows one which returned, in any surroundings, neither of them
-- overlapped by another call, returns the same mission and changes neither the database nor the queue,
-- if the stored missions were sound.
pub advance_mission-twice :
    (env env' : Env) (id : ℕ) (w : World) (m : MissionRow)
    → IsSound w
    → (advance_mission env id w).0 ≡ ok m
    → advance_mission env' id (advance_mission env id w).1 ≡ (ok m, (advance_mission env id w).1)
advance_mission-twice env env' id w m h r =
    let good = advance_mission-IsGood env id w h in
    let settled = good.settled m r in
    settled_advance env' id _ m (good.sound.keyed id m settled.stored) settled

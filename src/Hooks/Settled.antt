-- ===== src/Hooks/Settled.antt =====
-- What becomes of the mission of a job that has ended, in the hooks that follow its execution.
use cyberlab_kali.Base.{
  ℕ, ◌≡◌, ◌≢◌, ◌⊎◌, ◌<◌, arith, find_sound, find-All, inl, inr, refl, sym, subst, ◌==◌, true, false,
  Bool-cases, find, Option, none, some, Option-cases, ok,
}
use cyberlab_kali.Models.{World}
use cyberlab_kali.Models.Job
use cyberlab_kali.Models.Job.{JobRow}
use cyberlab_kali.Models.Mission.{MissionRow, MissionStep, is_terminal}
use cyberlab_kali.Jobs.Creation.{Env, add_job}
use cyberlab_kali.Missions.{advance_mission, is_queued, job_of}
use cyberlab_kali.Missions.Soundness.{IsLinked, IsWaiting, is_unresolved, IsSettled}
use cyberlab_kali.Missions.Settled.{advance_mission-IsGood}
use cyberlab_kali.Missions.Frame as MissionFrame
use cyberlab_kali.Chains.Frame as ChainFrame
use cyberlab_kali.Reconciliation.Soundness.{
  IsSound, advance_mission-IsSound, advance_chain_run-IsSound,
}
use cyberlab_kali.Hooks.{
  Single, nobody, several, one, owner_mission, owner_run, advance_owner, advance_owner_run,
  run_hooks,
}

advance_owner-IsSound :
    (env : Env) (found : Single) (w : World) → IsSound w → IsSound (advance_owner env found w)
advance_owner-IsSound env nobody w h = h
advance_owner-IsSound env several w h = h
advance_owner-IsSound env (one id) w h = advance_mission-IsSound env id w h

advance_owner_run-IsSound :
    (env : Env) (found : Single) (w : World) → IsSound w → IsSound (advance_owner_run env found w)
advance_owner_run-IsSound env nobody w h = h
advance_owner_run-IsSound env several w h = h
advance_owner_run-IsSound env (one id) w h = advance_chain_run-IsSound env id w h

run_hooks-IsSound :
    (env : Env) (job_id : ℕ) (w : World) → IsSound w → IsSound (run_hooks env job_id w)
unfolding run_hooks
run_hooks-IsSound env job_id w h =
    advance_owner_run-IsSound env (owner_run job_id (advance_owner env (owner_mission job_id w) w))
      (advance_owner env (owner_mission job_id w) w)
      (advance_owner-IsSound env (owner_mission job_id w) w h)

-- A new job that has not ended leaves a mission settled.
added-is_unresolved :
    (w : World) (job : JobRow) (s : MissionStep)
    → Job.is_terminal job.status ≡ false
    → is_unresolved (job_of w s) ≡ true
    → is_unresolved (job_of (record w { db = add_job w.db job }) s) ≡ true
added-is_unresolved w job s fresh = elim (Option-cases s.job_id) [
  | inl e ↦ rw (e, job_of) (λ h. refl)
  | inr (id, e) ↦
      rw (e, job_of)
        (elim (Bool-cases (job.id == id)) [
          | inl here ↦ rw here (λ h. rw fresh refl)
          | inr other ↦ rw other (λ h. h)
        ])
]

added-IsSettled :
    (id : ℕ) (m : MissionRow) (w : World) (job : JobRow)
    → Job.is_terminal job.status ≡ false
    → IsSettled w id m
    → IsSettled (record w { db = add_job w.db job }) id m
added-IsSettled id m w job fresh h = record {
  stored = h.stored;
  still = elim h.still [
    | inl t ↦ inl t
    | inr waiting ↦ inr (record {
      step = waiting.step;
      first_queued = waiting.first_queued;
      unfinished = added-is_unresolved w job waiting.step fresh waiting.unfinished;
    })
  ];
}

-- A write elsewhere, which leaves missions, their steps and the jobs as they are.
elsewhere-IsSettled :
    (id : ℕ) (m : MissionRow) (w v : World)
    → v.db.missions ≡ w.db.missions
    → v.db.mission_steps ≡ w.db.mission_steps
    → v.db.jobs ≡ w.db.jobs
    → IsSettled w id m
    → IsSettled v id m
elsewhere-IsSettled id m w v missions steps jobs h = record {
  stored = subst (λ t. t id ≡ some m) (sym missions) h.stored;
  still = elim h.still [
    | inl t ↦ inl t
    | inr waiting ↦ inr (record {
      step = waiting.step;
      first_queued =
          subst (λ rows. find is_queued (rows id) ≡ some waiting.step) (sym steps)
            waiting.first_queued;
      unfinished =
          subst
            (λ (t : ℕ → Option JobRow).
              is_unresolved (elim waiting.step.job_id [ none ↦ none | some j ↦ t j ]) ≡ true)
            (sym jobs) waiting.unfinished;
    })
  ];
}

chain_writes : (id : ℕ) (m : MissionRow) → ChainFrame.IsClosed (λ w. IsSettled w id m)
chain_writes id m = record {
  saved = λ w run h. elsewhere-IsSettled id m w _ refl refl refl h;
  stepped = λ w run_id steps h. elsewhere-IsSettled id m w _ refl refl refl h;
  added = λ w job new fresh h. added-IsSettled id m w job fresh h;
  queued = λ w entry h. elsewhere-IsSettled id m w _ refl refl refl h;
}

advance_owner_run-IsSettled :
    (env : Env) (found : Single) (id : ℕ) (m : MissionRow) (w : World)
    → IsSettled w id m
    → IsSettled (advance_owner_run env found w) id m
advance_owner_run-IsSettled env nobody id m w h = h
advance_owner_run-IsSettled env several id m w h = h
advance_owner_run-IsSettled env (one run) id m w h =
    ChainFrame.advance_chain_run-keeps (λ v. IsSettled v id m) (chain_writes id m) env run w h

run_hooks-IsSettled :
    (env : Env) (job_id id : ℕ) (m : MissionRow) (w : World)
    → IsSound w
    → owner_mission job_id w ≡ one id
    → (advance_mission env id w).0 ≡ ok m
    → IsSettled (run_hooks env job_id w) id m
unfolding run_hooks
run_hooks-IsSettled env job_id id m w h found returned =
    let settled = (advance_mission-IsGood env id w h.missions).settled m returned in
    let first : IsSettled (advance_owner env (owner_mission job_id w) w) id m =
      subst (λ o. IsSettled (advance_owner env o w) id m) (sym found) settled in
    advance_owner_run-IsSettled env
      (owner_run job_id (advance_owner env (owner_mission job_id w) w)) id m
      (advance_owner env (owner_mission job_id w) w) first

-- The job is stored in a terminal status, and its id was given out.
pub record IsEnded (w : World) (job_id : ℕ) : Type 0 where
  pub job : JobRow
  pub row : w.db.jobs job_id ≡ some job
  pub ended : Job.is_terminal job.status ≡ true
  pub given_out : job_id < w.db.next_job

added-IsEnded :
    (job_id : ℕ) (w : World) (job : JobRow)
    → job.id ≡ w.db.next_job
    → IsEnded w job_id
    → IsEnded (record w { db = add_job w.db job }) job_id
added-IsEnded job_id w job new h =
    let other : job.id == job_id ≡ false = ground (arith, new, h.given_out) in
    record {
      job = h.job;
      row = rw other h.row;
      ended = h.ended;
      given_out = omega (arith, h.given_out);
    }

mission_writes : (job_id : ℕ) → MissionFrame.IsClosed (λ w. IsEnded w job_id)
mission_writes job_id = record {
  saved = λ w m h. record { job = h.job; row = h.row; ended = h.ended; given_out = h.given_out };
  stepped =
      λ w id steps h. record { job = h.job; row = h.row; ended = h.ended; given_out = h.given_out };
  added = λ w job new fresh h. added-IsEnded job_id w job new h;
  queued =
      λ w entry h. record { job = h.job; row = h.row; ended = h.ended; given_out = h.given_out };
}

run_writes : (job_id : ℕ) → ChainFrame.IsClosed (λ w. IsEnded w job_id)
run_writes job_id = record {
  saved = λ w run h. record { job = h.job; row = h.row; ended = h.ended; given_out = h.given_out };
  stepped =
      λ w id steps h. record { job = h.job; row = h.row; ended = h.ended; given_out = h.given_out };
  added = λ w job new fresh h. added-IsEnded job_id w job new h;
  queued =
      λ w entry h. record { job = h.job; row = h.row; ended = h.ended; given_out = h.given_out };
}

advance_owner-IsEnded :
    (env : Env) (found : Single) (job_id : ℕ) (w : World)
    → IsEnded w job_id
    → IsEnded (advance_owner env found w) job_id
advance_owner-IsEnded env nobody job_id w h = h
advance_owner-IsEnded env several job_id w h = h
advance_owner-IsEnded env (one id) job_id w h =
    MissionFrame.advance_mission-keeps (λ v. IsEnded v job_id) (mission_writes job_id) env id w h

advance_owner_run-IsEnded :
    (env : Env) (found : Single) (job_id : ℕ) (w : World)
    → IsEnded w job_id
    → IsEnded (advance_owner_run env found w) job_id
advance_owner_run-IsEnded env nobody job_id w h = h
advance_owner_run-IsEnded env several job_id w h = h
advance_owner_run-IsEnded env (one id) job_id w h =
    ChainFrame.advance_chain_run-keeps (λ v. IsEnded v job_id) (run_writes job_id) env id w h

run_hooks-IsEnded :
    (env : Env) (job_id : ℕ) (w : World)
    → IsEnded w job_id
    → IsEnded (run_hooks env job_id w) job_id
unfolding run_hooks
run_hooks-IsEnded env job_id w h =
    advance_owner_run-IsEnded env (owner_run job_id (advance_owner env (owner_mission job_id w) w))
      job_id (advance_owner env (owner_mission job_id w) w)
      (advance_owner-IsEnded env (owner_mission job_id w) job_id w h)

-- The first queued step of the mission names another job than `job_id`, and the row of that one is
-- gone or not terminal.
pub record AwaitsAnother (w : World) (id job_id : ℕ) : Type 0 where
  pub step : MissionStep
  pub first_queued : find is_queued (w.db.mission_steps id) ≡ some step
  pub awaited : ℕ
  pub named : step.job_id ≡ some awaited
  pub another : awaited ≢ job_id
  pub unfinished :
      (job : JobRow) → w.db.jobs awaited ≡ some job → Job.is_terminal job.status ≡ false

waiting-AwaitsAnother :
    (w : World) (id job_id : ℕ)
    → IsSound w
    → IsEnded w job_id
    → IsWaiting w id
    → AwaitsAnother w id job_id
waiting-AwaitsAnother w id job_id h ended waiting =
    let s = waiting.step in
    let q = find_sound is_queued (w.db.mission_steps id) s waiting.first_queued in
    let linked =
      find-All IsLinked is_queued (w.db.mission_steps id) waiting.first_queued
        (h.missions.linked id) in
    elim (Option-cases s.job_id) [
      | inl e ↦ absurd (ground (arith, q, linked, e))
      | inr (k, e) ↦
          let held = waiting.unfinished in
          let open_job : (job : JobRow)
              → w.db.jobs k ≡ some job
              → Job.is_terminal job.status ≡ false =
            λ job f. ground (arith, e, f, held) in
          record {
            step = s;
            first_queued = waiting.first_queued;
            awaited = k;
            named = e;
            another = λ same.
                let at_id = subst (λ j. w.db.jobs j ≡ some ended.job) (sym same) ended.row in
                absurd (ground (arith, open_job ended.job at_id, ended.ended));
            unfinished = open_job;
          }
    ]

-- After the hooks of a job that is stored in a terminal status and belongs to one step of one mission,
-- in a sound database: the missions and chain runs are sound, and where advance_mission returned, the
-- mission that it returned is stored, and is terminal, or its first queued step names another job, whose
-- row is gone or not terminal. The chain run that goes on after it does not disturb this.
pub run_hooks-AwaitsAnother :
    (env : Env) (job_id id : ℕ) (m : MissionRow) (w : World)
    → IsSound w
    → IsEnded w job_id
    → owner_mission job_id w ≡ one id
    → (advance_mission env id w).0 ≡ ok m
    → IsSound (run_hooks env job_id w)
      × ((run_hooks env job_id w).db.missions id ≡ some m)
      × ((is_terminal m.status ≡ true) ⊎ AwaitsAnother (run_hooks env job_id w) id job_id)
run_hooks-AwaitsAnother env job_id id m w h ended found returned =
    let sound = run_hooks-IsSound env job_id w h in
    let settled = run_hooks-IsSettled env job_id id m w h found returned in
    (
      sound,
      settled.stored,
      elim settled.still [
        | inl t ↦ inl t
        | inr waiting ↦ inr (
            waiting-AwaitsAnother (run_hooks env job_id w) id job_id sound
              (run_hooks-IsEnded env job_id w ended) waiting)
      ],
    )

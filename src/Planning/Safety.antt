-- ===== src/Planning/Safety.antt =====
-- What a call of create_mission stores, and when it stores nothing.
use cyberlab_kali.Base.{
  ℕ, suc, ◌+◌, ◌≡◌, ◌≢◌, ◌≤◌, ◌⊎◌, ◌↔◌, inl, inr, refl, subst, true, false, any, Bool-cases, Option,
  some, List, [], ◌∷◌, take, length, length-take, take-All, count, put_self, ok, err, All, arith,
}
use cyberlab_kali.Targets.{Asset}
use cyberlab_kali.Tools.Registry.{Registry}
use cyberlab_kali.Models.{World}
use cyberlab_kali.Models.Mission.{MissionRow}
use cyberlab_kali.Missions.{is_queued, save_steps}
use cyberlab_kali.Missions.Soundness.{IsSound, IsLinked, save_steps-IsSound, save_mission-IsSound}
use cyberlab_kali.Jobs.Execute.Outcome.{Result-cases}
use cyberlab_kali.Planning.{
  PlannedStep, Reply, unreadable, malformed, steps, PlanError, missing_tool, label_too_long,
  has_long_label, plan, step_rows, new_mission, add_mission, created, create_mission,
}
use cyberlab_kali.Planning.Steps.{
  IsGrounded, check_steps-IsGrounded, is_unprovided, check_steps-missing, check_steps-provided,
}

plan-IsGrounded :
    (registry : Registry) (reply : Reply) (planned : List PlannedStep)
    → plan registry reply ≡ ok planned
    → All (IsGrounded registry) planned
unfolding plan
plan-IsGrounded registry unreadable planned h =
    let same : [] ≡ planned = ground arith in subst (All (IsGrounded registry)) same tt
plan-IsGrounded registry malformed planned h = absurd (ground arith)
plan-IsGrounded registry (steps raw_steps) planned h =
    check_steps-IsGrounded registry raw_steps planned h

step_rows-count :
    (order : ℕ) (planned : List PlannedStep) → count is_queued (step_rows order planned) ≡ 0
unfolding step_rows
step_rows-count order [] = refl
step_rows-count order (step ∷ rest) = step_rows-count (suc order) rest

step_rows-IsLinked :
    (order : ℕ) (planned : List PlannedStep) → All IsLinked (step_rows order planned)
unfolding step_rows
step_rows-IsLinked order [] = tt
step_rows-IsLinked order (step ∷ rest) = (refl, step_rows-IsLinked (suc order) rest)

add_mission-IsSound :
    (target : Asset) (max_steps : ℕ) (planned : List PlannedStep) (w : World)
    → IsSound w
    → IsSound (add_mission target max_steps planned w)
add_mission-IsSound target max_steps planned w h =
    let id = w.db.next_mission in
    let added = record w { db = record w.db { next_mission = id + 1 } } in
    let rows = step_rows 0 (take max_steps planned) in
    let base : IsSound added = record {
      keyed = h.keyed;
      one_queued = h.one_queued;
      linked = h.linked;
    } in
    save_mission-IsSound (save_steps added id rows) (new_mission id target max_steps) (
      save_steps-IsSound added id rows base
        (omega (arith, step_rows-count 0 (take max_steps planned)))
        (step_rows-IsLinked 0 (take max_steps planned)))

-- What a new mission is, in the world after the call.
pub record IsDrafted (registry : Registry) (target : Asset) (max_steps : ℕ) (w after : World)
    (mission : MissionRow) : Type 0 where
  pub row : mission ≡ new_mission w.db.next_mission target max_steps
  pub stored : after.db.missions mission.id ≡ some mission
  pub planned : List PlannedStep
  pub rows : after.db.mission_steps mission.id ≡ step_rows 0 planned
  pub bounded : length planned ≤ max_steps
  pub labelled : any has_long_label planned ≡ false
  pub grounded : All (IsGrounded registry) planned
  pub queue : after.queue ≡ w.queue
  pub jobs : after.db.jobs ≡ w.db.jobs
  pub sound : IsSound w → IsSound after

-- A call of create_mission raises and stores nothing, or stores a draft of the mission of the asset
-- with numbered pending steps, at most max_steps, each of which has a label that fits its column,
-- and has no tool and no profile, or names a registered tool that a model may propose, with no
-- profile or with one of that tool; it queues nothing, creates no job, and keeps a sound database
-- sound.
pub create_mission-IsDrafted :
    (registry : Registry) (target : Asset) (max_steps : ℕ) (reply : Reply) (w : World)
    → ((e : PlanError) × (create_mission registry target max_steps reply w ≡ (err e, w)))
      ⊎ ((mission : MissionRow) × ((create_mission registry target max_steps reply w).0
            ≡ ok mission)
          × IsDrafted registry target max_steps w
              (create_mission registry target max_steps reply w).1
              mission)
unfolding create_mission
create_mission-IsDrafted registry target max_steps reply w =
    elim (Result-cases (plan registry reply)) [
      | inl (e, h) ↦ inl (e, rw (h, created) refl)
      | inr (planned, h) ↦ elim (Bool-cases (any has_long_label (take max_steps planned))) [
        | inl long ↦ inl (label_too_long, rw (h, created) (rw long refl))
        | inr short ↦
            let mission = new_mission w.db.next_mission target max_steps in
            rw (h, created)
              (rw short (
                inr (
                  mission,
                  refl,
                  record {
                    row = refl;
                    stored = put_self w.db.missions w.db.next_mission mission;
                    planned = take max_steps planned;
                    rows = ground arith;
                    labelled = short;
                    bounded = length-take max_steps planned;
                    grounded =
                        take-All (IsGrounded registry) max_steps planned
                          (plan-IsGrounded registry reply planned h);
                    queue = refl;
                    jobs = refl;
                    sound = add_mission-IsSound target max_steps planned w;
                  },
                )))
      ]
    ]

-- A mission that is created, or refused for a label, is not refused for a tool.
created-provided :
    (target : Asset) (max_steps : ℕ) (planned : List PlannedStep) (w : World)
    → created target max_steps w (ok planned) ≢ (err missing_tool, w)
created-provided target max_steps planned w =
    elim (Bool-cases (any has_long_label (take max_steps planned))) [
      | inl long ↦ rw long (λ h. absurd (ground arith))
      | inr short ↦ rw short (λ h. absurd (ground arith))
    ]

-- Where the answer is a list of steps, create_mission raises the KeyError and stores nothing exactly
-- when one of the steps that pydantic accepts names a profile and no tool; such a step takes the whole
-- mission with it.
pub create_mission-missing_tool :
    (registry : Registry) (target : Asset) (max_steps : ℕ) (raw_steps : List (Option PlannedStep))
    (w : World)
    → (any is_unprovided raw_steps ≡ true)
      ↔ (create_mission registry target max_steps (steps raw_steps) w ≡ (err missing_tool, w))
unfolding create_mission plan
create_mission-missing_tool registry target max_steps raw_steps w = (
  λ h. rw (check_steps-missing registry raw_steps h, created) refl,
  λ raised. elim (Bool-cases (any is_unprovided raw_steps)) [
    | inl e ↦ e
    | inr e ↦
        let (planned, p) = check_steps-provided registry raw_steps e in
        absurd (created-provided target max_steps planned w (rw p at raised))
  ],
)

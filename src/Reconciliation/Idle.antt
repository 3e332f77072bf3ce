-- ===== src/Reconciliation/Idle.antt =====
-- What the sweep leaves alone: jobs that RQ knows, and missions and runs that wait for a job.
use cyberlab_kali.Base.{
  ℕ, ◌≡◌, inl, inr, refl, Bool, true, false, not, ◌&&◌, any, Bool-cases, Option, none, some, List,
  [], ◌∷◌, All, keep, scan, arith,
}
use cyberlab_kali.Models.{World}
use cyberlab_kali.Models.Job
use cyberlab_kali.Models.Job.{JobRow}
use cyberlab_kali.Models.Mission.{MissionRow, MissionStep}
use cyberlab_kali.Models.Chain.{ChainRun, ChainRunStep}
use cyberlab_kali.Jobs.Creation.{Env}
use cyberlab_kali.Missions
use cyberlab_kali.Missions.{advance_mission}
use cyberlab_kali.Chains
use cyberlab_kali.Chains.{advance_chain_run}
use cyberlab_kali.Reconciliation.Jobs.{reconcile_jobs-idle}
use cyberlab_kali.Reconciliation.{
  Fetched, present, stuck_jobs, Progress, in_flight, past_step, mission_progress,
  chain_run_progress, is_live_mission, is_live_run, nudge_missions, nudge_chain_runs,
  run_reconciliation_sweep,
}

-- The step is queued, and its job has not ended.
abbrev pub runs_job : Bool → Option JobRow → Bool
runs_job waiting none = false
runs_job waiting (some job) = waiting && not (Job.is_terminal job.status)

past_step-in_flight :
    (waiting : Bool) (job : Option JobRow) (next : Option ℕ → Progress) (latest : Option ℕ)
    → runs_job waiting job ≡ true
    → past_step waiting job next latest ≡ in_flight
unfolding past_step
past_step-in_flight waiting none next latest h = absurd (ground arith)
past_step-in_flight waiting (some job) next latest h = rw h refl

past_step-later :
    (waiting : Bool) (job : Option JobRow) (next : Option ℕ → Progress) (latest : Option ℕ)
    → ((l : Option ℕ) → next l ≡ in_flight)
    → past_step waiting job next latest ≡ in_flight
unfolding past_step
past_step-later waiting none next latest h = h latest
past_step-later waiting (some job) next latest h =
    elim (Bool-cases (waiting && not (Job.is_terminal job.status))) [
      | inl e ↦ rw e refl
      | inr e ↦ rw e (h _)
    ]

abbrev pub mission_runs_job : World → MissionStep → Bool
mission_runs_job w s = runs_job (Missions.is_queued s) (Missions.job_of w s)

abbrev pub run_runs_job : World → ChainRunStep → Bool
run_runs_job w s = runs_job (Chains.is_queued s) (Chains.job_of w s)

mission_progress-in_flight :
    (w : World) (anchor : Option ℕ) (steps : List MissionStep) (latest : Option ℕ)
    → any (mission_runs_job w) steps ≡ true
    → mission_progress w anchor steps latest ≡ in_flight
unfolding mission_progress
mission_progress-in_flight w anchor [] latest h = absurd (ground arith)
mission_progress-in_flight w anchor (s ∷ rest) latest h = elim (Bool-cases (mission_runs_job w s)) [
  | inl e ↦
      past_step-in_flight (Missions.is_queued s) (Missions.job_of w s)
        (mission_progress w anchor rest) latest e
  | inr e ↦
      past_step-later (Missions.is_queued s) (Missions.job_of w s) (mission_progress w anchor rest)
        latest (λ l. mission_progress-in_flight w anchor rest l (ground arith))
]

chain_run_progress-in_flight :
    (w : World) (anchor : Option ℕ) (steps : List ChainRunStep) (latest : Option ℕ)
    → any (run_runs_job w) steps ≡ true
    → chain_run_progress w anchor steps latest ≡ in_flight
unfolding chain_run_progress
chain_run_progress-in_flight w anchor [] latest h = absurd (ground arith)
chain_run_progress-in_flight w anchor (s ∷ rest) latest h = elim (Bool-cases (run_runs_job w s)) [
  | inl e ↦
      past_step-in_flight (Chains.is_queued s) (Chains.job_of w s)
        (chain_run_progress w anchor rest) latest e
  | inr e ↦
      past_step-later (Chains.is_queued s) (Chains.job_of w s) (chain_run_progress w anchor rest)
        latest (λ l. chain_run_progress-in_flight w anchor rest l (ground arith))
]

nudge_missions-idle :
    (env : Env) (stuck_after : ℕ) (w : World) (missions : List MissionRow)
    → All (λ m. any (mission_runs_job w) (w.db.mission_steps m.id) ≡ true) missions
    → nudge_missions env stuck_after missions w ≡ record { acted = some []; world = w }
unfolding nudge_missions
nudge_missions-idle env stuck_after w [] h = refl
nudge_missions-idle env stuck_after w (m ∷ rest) h =
    rw (mission_progress-in_flight w m.approved_at (w.db.mission_steps m.id) none h.0)
      (nudge_missions-idle env stuck_after w rest h.1)

nudge_chain_runs-idle :
    (env : Env) (stuck_after : ℕ) (w : World) (runs : List ChainRun)
    → All (λ run. any (run_runs_job w) (w.db.chain_run_steps run.id) ≡ true) runs
    → nudge_chain_runs env stuck_after runs w ≡ record { acted = some []; world = w }
unfolding nudge_chain_runs
nudge_chain_runs-idle env stuck_after w [] h = refl
nudge_chain_runs-idle env stuck_after w (run ∷ rest) h =
    rw (chain_run_progress-in_flight w (some run.created_at) (w.db.chain_run_steps run.id) none h.0)
      (nudge_chain_runs-idle env stuck_after w rest h.1)

-- A world in which nothing is lost: RQ has an entry for each stuck job, and each live mission and
-- each live run waits for a job that has not ended.
pub record IsHealthy (now stuck_after : ℕ) (fetch : ℕ → Fetched) (w : World) : Type 0 where
  pub jobs : All (λ job. fetch job.id ≡ present) (stuck_jobs now stuck_after w)
  pub missions :
      All
        (λ m. any (mission_runs_job w) (w.db.mission_steps m.id) ≡ true)
        (keep is_live_mission (scan w.db.missions w.db.next_mission))
  pub runs :
      All
        (λ run. any (run_runs_job w) (w.db.chain_run_steps run.id) ≡ true)
        (keep is_live_run (scan w.db.chain_runs w.db.next_chain_run))

-- Where each job that is old enough has an entry in RQ, and each live mission and live run waits for a
-- job that has not ended, a whole sweep changes nothing, however old those jobs are.
pub run_reconciliation_sweep-idle :
    (env : Env) (stuck_after orchestration_stuck_after : ℕ) (fetch : ℕ → Fetched) (w : World)
    → IsHealthy env.now stuck_after fetch w
    → run_reconciliation_sweep env stuck_after orchestration_stuck_after fetch w ≡ ([], w)
unfolding run_reconciliation_sweep
run_reconciliation_sweep-idle env stuck_after orchestration_stuck_after fetch w h =
    let jobs =
      reconcile_jobs-idle env.now stuck_after fetch (stuck_jobs env.now stuck_after w) w h.jobs in
    let missions =
      nudge_missions-idle env orchestration_stuck_after w
        (keep is_live_mission (scan w.db.missions w.db.next_mission)) h.missions in
    let runs =
      nudge_chain_runs-idle env orchestration_stuck_after w
        (keep is_live_run (scan w.db.chain_runs w.db.next_chain_run)) h.runs in
    rw jobs (rw missions (rw runs refl))

-- ===== src/Reconciliation.antt =====
-- backend/app/jobs/reconciliation.py: the sweep that the worker makes every few minutes, for jobs that
-- Redis lost, and for missions and chain runs that stopped between two steps. Nothing else commits
-- while a sweep runs; `publish_job_update` is left out, as if it succeeded.
pub mod Jobs
pub mod Soundness
pub mod Idle
use cyberlab_kali.Base.{
  ℕ, ◌+◌, ltb, if◌then◌else◌, Bool, true, false, not, ◌&&◌, Option, none, some, List, [], ◌∷◌, Text,
  put, keep, scan, Result, ok, err,
}
use cyberlab_kali.Models.{World}
use cyberlab_kali.Models.Job
use cyberlab_kali.Models.Job.{JobRow, JobStatus, orphaned}
use cyberlab_kali.Models.Mission.{MissionStatus, MissionRow, MissionStep}
use cyberlab_kali.Models.Chain.{ChainRunStatus, ChainRun, ChainRunStep}
use cyberlab_kali.Jobs.Creation.{Env}
use cyberlab_kali.Missions
use cyberlab_kali.Missions.{advance_mission}
use cyberlab_kali.Chains
use cyberlab_kali.Chains.{advance_chain_run}

-- What `queue.fetch_job` comes to: RQ knows nothing of the job, it has an entry, or Redis cannot be
-- reached and the call raises.
pub data Fetched : Type 0 where
  missing present unreachable : Fetched

-- What a sweep leaves behind: the ids that it acted on, unless it raised, and what was committed.
pub record Swept : Type 0 where
  pub acted : Option (List ℕ)
  pub world : World

abbrev pub add_id : ℕ → Swept → Swept
add_id id swept = record swept {
  acted = elim swept.acted [ none ↦ none | some ids ↦ some (id ∷ ids) ];
}

-- `Job.status.in_([QUEUED, RUNNING]), Job.created_at < now - stuck_after`
abbrev pub is_live : JobStatus → Bool
is_live JobStatus.queued = true
is_live JobStatus.running = true
is_live _ = false

abbrev pub is_stuck : (now stuck_after : ℕ) → JobRow → Bool
is_stuck now stuck_after job = is_live job.status && ltb (job.created_at + stuck_after) now

-- The commit for one lost job.
abbrev pub resolved : (now stuck_after : ℕ) → JobRow → JobRow
resolved now stuck_after job = record job {
  status = JobStatus.failed;
  error = some (orphaned job.status stuck_after);
  finished_at = some now;
}

abbrev pub resolve : (now stuck_after : ℕ) → JobRow → World → World
resolve now stuck_after job w = record w {
  db = record w.db { jobs = put w.db.jobs job.id (resolved now stuck_after job) };
}

-- The body of the loop over the candidates, with the rest of the loop.
unfoldable pub reconcile_job :
    (now stuck_after : ℕ) → JobRow → Fetched → (World → Swept) → World → Swept
reconcile_job now stuck_after job missing next w =
    add_id job.id (next (resolve now stuck_after job w))
reconcile_job now stuck_after job present next w = next w
reconcile_job now stuck_after job unreachable next w = record { acted = none; world = w }

unfoldable pub reconcile_jobs : (now stuck_after : ℕ) → (ℕ → Fetched) → List JobRow → World → Swept
unfolding reconcile_job
reconcile_jobs now stuck_after fetch [] w = record { acted = some []; world = w }
reconcile_jobs now stuck_after fetch (job ∷ rest) w =
    reconcile_job now stuck_after job (fetch job.id) (reconcile_jobs now stuck_after fetch rest) w

abbrev pub stuck_jobs : (now stuck_after : ℕ) → World → List JobRow
stuck_jobs now stuck_after w = keep (is_stuck now stuck_after) (scan w.db.jobs w.db.next_job)

unfoldable pub reconcile_stuck_jobs : (now stuck_after : ℕ) → (ℕ → Fetched) → World → Swept
unfolding reconcile_jobs
reconcile_stuck_jobs now stuck_after fetch w =
    reconcile_jobs now stuck_after fetch (stuck_jobs now stuck_after w) w

-- (True, None), or (False, last_progress_at).
pub data Progress : Type 0 where
  in_flight : Progress
  last : Option ℕ → Progress

-- The later of two moments, of which either may be missing.
abbrev pub later : Option ℕ → Option ℕ → Option ℕ
later latest none = latest
later none (some finished) = some finished
later (some latest) (some finished) = if ltb latest finished then some finished else some latest

abbrev pub or_anchor : Option ℕ → Option ℕ → Option ℕ
or_anchor none anchor = anchor
or_anchor (some latest) anchor = some latest

-- One step of the loop of `_mission_last_progress_at` and `_chain_run_last_progress_at`, with the
-- rest of the loop: `waiting` says whether the step is queued.
unfoldable pub past_step :
    (waiting : Bool) → Option JobRow → (Option ℕ → Progress) → Option ℕ → Progress
past_step waiting none next latest = next latest
past_step waiting (some job) next latest =
    if waiting && not (Job.is_terminal job.status)
    then in_flight
    else next (later latest job.finished_at)

unfoldable pub mission_progress :
    World → (anchor : Option ℕ) → List MissionStep → Option ℕ → Progress
unfolding past_step
mission_progress w anchor [] latest = last (or_anchor latest anchor)
mission_progress w anchor (s ∷ rest) latest =
    past_step (Missions.is_queued s) (Missions.job_of w s) (mission_progress w anchor rest) latest

unfoldable pub chain_run_progress :
    World → (anchor : Option ℕ) → List ChainRunStep → Option ℕ → Progress
unfolding past_step
chain_run_progress w anchor [] latest = last (or_anchor latest anchor)
chain_run_progress w anchor (s ∷ rest) latest =
    past_step (Chains.is_queued s) (Chains.job_of w s) (chain_run_progress w anchor rest) latest

-- Nothing is in flight, and the last progress is before `now - stuck_after`.
abbrev pub is_stalled : (now stuck_after : ℕ) → Progress → Bool
is_stalled now stuck_after in_flight = false
is_stalled now stuck_after (last none) = false
is_stalled now stuck_after (last (some moment)) = ltb (moment + stuck_after) now

-- What follows a call of `advance_mission` or `advance_chain_run` in the loop.
abbrev pub nudged {ℓ κ} :
    {E : Type ℓ} {A : Type κ} → ℕ → Result E A × World → (World → Swept) → Swept
nudged id (err e, w) next = record { acted = none; world = w }
nudged id (ok row, w) next = add_id id (next w)

abbrev pub is_live_mission : MissionRow → Bool
is_live_mission m = elim m.status [
  | MissionStatus.approved ↦ true
  | MissionStatus.running ↦ true
  | _ ↦ false
]

abbrev pub is_live_run : ChainRun → Bool
is_live_run run = elim run.status [ ChainRunStatus.running ↦ true | _ ↦ false ]

unfoldable pub nudge_missions : Env → (stuck_after : ℕ) → List MissionRow → World → Swept
unfolding mission_progress
nudge_missions env stuck_after [] w = record { acted = some []; world = w }
nudge_missions env stuck_after (m ∷ rest) w =
    let next = nudge_missions env stuck_after rest in
    if is_stalled env.now stuck_after
      (mission_progress w m.approved_at (w.db.mission_steps m.id) none)
    then nudged m.id (advance_mission env m.id w) next
    else next w

unfoldable pub reconcile_stuck_missions : Env → (stuck_after : ℕ) → World → Swept
unfolding nudge_missions
reconcile_stuck_missions env stuck_after w =
    nudge_missions env stuck_after (keep is_live_mission (scan w.db.missions w.db.next_mission)) w

unfoldable pub nudge_chain_runs : Env → (stuck_after : ℕ) → List ChainRun → World → Swept
unfolding chain_run_progress
nudge_chain_runs env stuck_after [] w = record { acted = some []; world = w }
nudge_chain_runs env stuck_after (run ∷ rest) w =
    let next = nudge_chain_runs env stuck_after rest in
    if is_stalled env.now stuck_after
      (chain_run_progress w (some run.created_at) (w.db.chain_run_steps run.id) none)
    then nudged run.id (advance_chain_run env run.id w) next
    else next w

unfoldable pub reconcile_stuck_chain_runs : Env → (stuck_after : ℕ) → World → Swept
unfolding nudge_chain_runs
reconcile_stuck_chain_runs env stuck_after w =
    nudge_chain_runs env stuck_after (keep is_live_run (scan w.db.chain_runs w.db.next_chain_run)) w

-- Each of the three is isolated: what an earlier one raised does not keep the next from running.
unfoldable pub run_reconciliation_sweep :
    Env → (stuck_after orchestration_stuck_after : ℕ) → (ℕ → Fetched) → World → List ℕ × World
unfolding reconcile_stuck_jobs reconcile_stuck_missions reconcile_stuck_chain_runs
run_reconciliation_sweep env stuck_after orchestration_stuck_after fetch w =
    let jobs = reconcile_stuck_jobs env.now stuck_after fetch w in
    let missions = reconcile_stuck_missions env orchestration_stuck_after jobs.world in
    let runs = reconcile_stuck_chain_runs env orchestration_stuck_after missions.world in
    (elim jobs.acted [ none ↦ [] | some ids ↦ ids ], runs.world)

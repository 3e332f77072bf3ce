-- ===== src/Reconciliation/Soundness.antt =====
-- The sweep over jobs, missions and chain runs keeps what holds of stored missions and runs.
use cyberlab_kali.Base.{ℕ, inl, inr, Bool-cases, none, some, List, [], ◌∷◌, Result, ok, err}
use cyberlab_kali.Models.{World}
use cyberlab_kali.Models.Job.{JobRow}
use cyberlab_kali.Models.Mission.{MissionRow}
use cyberlab_kali.Models.Chain.{ChainRun}
use cyberlab_kali.Jobs.Creation.{Env}
use cyberlab_kali.Missions.{advance_mission}
use cyberlab_kali.Missions.Soundness as MissionSoundness
use cyberlab_kali.Missions.Settled as MissionSettled
use cyberlab_kali.Missions.Frame as MissionFrame
use cyberlab_kali.Chains.{advance_chain_run}
use cyberlab_kali.Chains.Soundness as ChainSoundness
use cyberlab_kali.Chains.Settled as ChainSettled
use cyberlab_kali.Chains.Frame as ChainFrame
use cyberlab_kali.Reconciliation.{
  Fetched, missing, present, unreachable, Swept, resolve, reconcile_job, reconcile_jobs, stuck_jobs,
  mission_progress, chain_run_progress, is_stalled, nudged, nudge_missions, nudge_chain_runs,
  run_reconciliation_sweep,
}

-- The invariants of missions and of chain runs, together.
pub record IsSound (w : World) : Type 0 where
  pub missions : MissionSoundness.IsSound w
  pub runs : ChainSoundness.IsSound w

mission_writes : MissionFrame.IsClosed ChainSoundness.IsSound
mission_writes = record {
  saved = λ w m h. record { keyed = h.keyed; one_queued = h.one_queued; linked = h.linked };
  stepped =
      λ w id steps h. record { keyed = h.keyed; one_queued = h.one_queued; linked = h.linked };
  added =
      λ w job new fresh h. record { keyed = h.keyed; one_queued = h.one_queued; linked = h.linked };
  queued = λ w entry h. record { keyed = h.keyed; one_queued = h.one_queued; linked = h.linked };
}

chain_writes : ChainFrame.IsClosed MissionSoundness.IsSound
chain_writes = record {
  saved = λ w run h. record { keyed = h.keyed; one_queued = h.one_queued; linked = h.linked };
  stepped =
      λ w id steps h. record { keyed = h.keyed; one_queued = h.one_queued; linked = h.linked };
  added =
      λ w job new fresh h. record { keyed = h.keyed; one_queued = h.one_queued; linked = h.linked };
  queued = λ w entry h. record { keyed = h.keyed; one_queued = h.one_queued; linked = h.linked };
}

pub advance_mission-IsSound :
    (env : Env) (id : ℕ) (w : World) → IsSound w → IsSound (advance_mission env id w).1
advance_mission-IsSound env id w h = record {
  missions = MissionSettled.advance_mission-IsSound env id w h.missions;
  runs = MissionFrame.advance_mission-keeps ChainSoundness.IsSound mission_writes env id w h.runs;
}

pub advance_chain_run-IsSound :
    (env : Env) (id : ℕ) (w : World) → IsSound w → IsSound (advance_chain_run env id w).1
advance_chain_run-IsSound env id w h = record {
  missions =
      ChainFrame.advance_chain_run-keeps MissionSoundness.IsSound chain_writes env id w h.missions;
  runs = ChainSettled.advance_chain_run-IsSound env id w h.runs;
}

resolve-IsSound :
    (now stuck_after : ℕ) (job : JobRow) (w : World)
    → IsSound w
    → IsSound (resolve now stuck_after job w)
resolve-IsSound now stuck_after job w h = record {
  missions = record {
    keyed = h.missions.keyed;
    one_queued = h.missions.one_queued;
    linked = h.missions.linked;
  };
  runs = record { keyed = h.runs.keyed; one_queued = h.runs.one_queued; linked = h.runs.linked };
}

nudged-IsSound {ℓ κ} :
    {E : Type ℓ} {A : Type κ} (id : ℕ) (o : Result E A × World) (next : World → Swept)
    → IsSound o.1
    → ((v : World) → IsSound v → IsSound (next v).world)
    → IsSound (nudged id o next).world
nudged-IsSound id (err e, w) next h step = h
nudged-IsSound id (ok row, w) next h step = step w h

module _ (env : Env) (stuck_after : ℕ) where
  nudge_missions-IsSound :
      (missions : List MissionRow) (w : World)
      → IsSound w
      → IsSound (nudge_missions env stuck_after missions w).world
  unfolding nudge_missions
  nudge_missions-IsSound [] w h = h
  nudge_missions-IsSound (m ∷ rest) w h =
      elim (Bool-cases (
        is_stalled env.now stuck_after
          (mission_progress w m.approved_at (w.db.mission_steps m.id) none))) [
            | inr e ↦ rw e (nudge_missions-IsSound rest w h)
            | inl e ↦ rw e (
                nudged-IsSound m.id (advance_mission env m.id w)
                  (nudge_missions env stuck_after rest) (advance_mission-IsSound env m.id w h)
                  (nudge_missions-IsSound rest))
          ]

  nudge_chain_runs-IsSound :
      (runs : List ChainRun) (w : World)
      → IsSound w
      → IsSound (nudge_chain_runs env stuck_after runs w).world
  unfolding nudge_chain_runs
  nudge_chain_runs-IsSound [] w h = h
  nudge_chain_runs-IsSound (run ∷ rest) w h =
      elim (Bool-cases (
        is_stalled env.now stuck_after
          (chain_run_progress w (some run.created_at) (w.db.chain_run_steps run.id) none))) [
            | inr e ↦ rw e (nudge_chain_runs-IsSound rest w h)
            | inl e ↦ rw e (
                nudged-IsSound run.id (advance_chain_run env run.id w)
                  (nudge_chain_runs env stuck_after rest) (advance_chain_run-IsSound env run.id w h)
                  (nudge_chain_runs-IsSound rest))
          ]

module _ (now stuck_after : ℕ) (fetch : ℕ → Fetched) where
  reconcile_job-IsSound :
      (job : JobRow) (found : Fetched) (next : World → Swept) (w : World)
      → ((v : World) → IsSound v → IsSound (next v).world)
      → IsSound w
      → IsSound (reconcile_job now stuck_after job found next w).world
  unfolding reconcile_job
  reconcile_job-IsSound job missing next w step h =
      step (resolve now stuck_after job w) (resolve-IsSound now stuck_after job w h)
  reconcile_job-IsSound job present next w step h = step w h
  reconcile_job-IsSound job unreachable next w step h = h

  reconcile_jobs-IsSound :
      (jobs : List JobRow) (w : World)
      → IsSound w
      → IsSound (reconcile_jobs now stuck_after fetch jobs w).world
  unfolding reconcile_jobs
  reconcile_jobs-IsSound [] w h = h
  reconcile_jobs-IsSound (job ∷ rest) w h =
      reconcile_job-IsSound job (fetch job.id) (reconcile_jobs now stuck_after fetch rest) w
        (reconcile_jobs-IsSound rest) h

-- A whole sweep keeps the missions and the chain runs sound, whatever Redis answers, whatever the
-- limits are, and also where one of its three parts raises.
pub run_reconciliation_sweep-IsSound :
    (env : Env) (stuck_after orchestration_stuck_after : ℕ) (fetch : ℕ → Fetched) (w : World)
    → IsSound w
    → IsSound (run_reconciliation_sweep env stuck_after orchestration_stuck_after fetch w).1
unfolding run_reconciliation_sweep
run_reconciliation_sweep-IsSound env stuck_after orchestration_stuck_after fetch w h =
    nudge_chain_runs-IsSound env orchestration_stuck_after _ _ (
      nudge_missions-IsSound env orchestration_stuck_after _ _
        (reconcile_jobs-IsSound env.now stuck_after fetch (stuck_jobs env.now stuck_after w) w h))

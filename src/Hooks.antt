-- ===== src/Hooks.antt =====
-- backend/app/jobs/tasks.py, execute_job: what follows each execution of a job, in sessions of their
-- own: the mission and the chain run to which the job belongs go on. Each of the hooks is isolated, so
-- what one raises is logged and goes no further.
pub mod Settled
use cyberlab_kali.Base.{
  ℕ, zero, suc, ◌==◌, if◌then◌else◌, Bool, true, false, Option, none, some, List, [], ◌∷◌, ◌++◌,
  Text, Dict, Result, ok, err,
}
use cyberlab_kali.Tools.Schema.{Value}
use cyberlab_kali.Models.{World}
use cyberlab_kali.Models.Mission.{MissionStep}
use cyberlab_kali.Models.Chain.{ChainRunStep}
use cyberlab_kali.Jobs.Creation.{Env}
use cyberlab_kali.Jobs.Execute
use cyberlab_kali.Jobs.Execute.{Worker, Executed}
use cyberlab_kali.Missions.{advance_mission}
use cyberlab_kali.Chains.{advance_chain_run}

-- `scalar_one_or_none()`: no row, the only one, or an exception for several.
pub data Single : Type 0 where
  nobody several : Single
  one : ℕ → Single

abbrev pub single : List ℕ → Single
single [] = nobody
single (id ∷ []) = one id
single (id ∷ other ∷ rest) = several

abbrev pub names_job : ℕ → Option ℕ → Bool
names_job job_id none = false
names_job job_id (some id) = id == job_id

-- The parent's id, once for each of its steps that has the job.
unfoldable pub owners_in {ℓ} : {A : Type ℓ} → (A → Option ℕ) → (job_id parent : ℕ) → List A → List ℕ
owners_in job_of job_id parent [] = []
owners_in job_of job_id parent (s ∷ rest) =
    let later = owners_in job_of job_id parent rest in
    if names_job job_id (job_of s) then parent ∷ later else later

-- The same for all parents whose ids were given out.
unfoldable pub owners {ℓ} :
    {A : Type ℓ} → (A → Option ℕ) → (job_id : ℕ) → (ℕ → List A) → (bound : ℕ) → List ℕ
unfolding owners_in
owners job_of job_id rows zero = []
owners job_of job_id rows (suc k) =
    owners job_of job_id rows k ++ owners_in job_of job_id k (rows k)

abbrev pub owner_mission : ℕ → World → Single
owner_mission job_id w = single (owners (λ s. s.job_id) job_id w.db.mission_steps w.db.next_mission)

abbrev pub owner_run : ℕ → World → Single
owner_run job_id w = single (owners (λ s. s.job_id) job_id w.db.chain_run_steps w.db.next_chain_run)

-- What `advance_mission_for_job` leaves behind, whether it raises or not.
abbrev pub advance_owner : Env → Single → World → World
advance_owner env nobody w = w
advance_owner env several w = w
advance_owner env (one id) w = (advance_mission env id w).1

unfoldable pub advance_mission_for_job : Env → (job_id : ℕ) → World → World
unfolding owners
advance_mission_for_job env job_id w = advance_owner env (owner_mission job_id w) w

abbrev pub advance_owner_run : Env → Single → World → World
advance_owner_run env nobody w = w
advance_owner_run env several w = w
advance_owner_run env (one id) w = (advance_chain_run env id w).1

unfoldable pub advance_chain_run_for_job : Env → (job_id : ℕ) → World → World
unfolding owners
advance_chain_run_for_job env job_id w = advance_owner_run env (owner_run job_id w) w

-- The `finally` block. The summary of the project, which a language model writes between the two, is
-- text that nothing here reads.
unfoldable pub run_hooks : Env → (job_id : ℕ) → World → World
unfolding advance_mission_for_job advance_chain_run_for_job
run_hooks env job_id w = advance_chain_run_for_job env job_id (advance_mission_for_job env job_id w)

-- `execute_job`
unfoldable pub execute_job :
    Worker → (job_id : ℕ) → (tool_name : Text) → Dict Value → (timeout : Option ℕ) → World → World
unfolding run_hooks
execute_job worker job_id tool_name params timeout w =
    run_hooks worker.env job_id (Execute.execute_job worker job_id tool_name params timeout w).world

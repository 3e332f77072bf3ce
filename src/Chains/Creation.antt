-- ===== src/Chains/Creation.antt =====
-- backend/app/chains/service.py: the start of a chain run, whose steps are copies of its template's.
use cyberlab_kali.Base.{ℕ, ◌+◌, Option, none, some, List, [], ◌∷◌, map}
use cyberlab_kali.Targets.{Asset}
use cyberlab_kali.Models.{World}
use cyberlab_kali.Models.Chain.{
  MissionTemplateStep, ChainRunStatus, ChainRunStepStatus, ChainRun, ChainRunStep,
}
use cyberlab_kali.Jobs.Creation.{Env}
use cyberlab_kali.Chains.{Outcome, save_run, save_steps, advance_chain_run}

-- The copy of a template's step.
abbrev pub snapshot : MissionTemplateStep → ChainRunStep
snapshot step = record {
  step_order = step.step_order;
  tool = step.tool;
  profile = step.profile;
  options = step.options;
  condition_type = step.condition_type;
  condition_params = step.condition_params;
  status = ChainRunStepStatus.pending;
  job_id = none;
  skip_reason = none;
}

abbrev pub new_run : Env → ℕ → (template_id target_id : ℕ) → Asset → ChainRun
new_run env id template_id target_id asset = record {
  id = id;
  template_id = some template_id;
  target_id = target_id;
  project_id = some asset.project_id;
  status = ChainRunStatus.running;
  created_at = env.now;
  finished_at = none;
}

-- The first transaction of `create_chain_run`.
abbrev pub add_run :
    Env → (template_id target_id : ℕ) → Asset → List MissionTemplateStep → World → World
add_run env template_id target_id asset steps w =
    let id = w.db.next_chain_run in
    let added = record w { db = record w.db { next_chain_run = id + 1 } } in
    save_run (save_steps added id (map snapshot steps)) (new_run env id template_id target_id asset)

-- Up to the first commit of `create_chain_run`; `none` where the template, its steps or the asset are
-- missing.
unfoldable pub start_chain_run : Env → (template_id target_id : ℕ) → World → Option World
start_chain_run env template_id target_id w = elim (w.db.template_steps template_id) [
  | none ↦ none
  | some steps ↦ elim (w.db.assets target_id) [
    | none ↦ none
    | some asset ↦ elim steps [
      | [] ↦ none
      | s ∷ rest ↦ some (add_run env template_id target_id asset (s ∷ rest) w)
    ]
  ]
]

abbrev pub then_advance_run : Env → (others : World → World) → ℕ → Option World → Option Outcome
then_advance_run env others id none = none
then_advance_run env others id (some w) = some (advance_chain_run env id (others w))

-- `create_chain_run`: the first transaction and then a call of `advance_chain_run`, where `others` is
-- what other calls commit between the two.
unfoldable pub create_chain_run :
    Env → (others : World → World) → (template_id target_id : ℕ) → World → Option Outcome
unfolding start_chain_run
create_chain_run env others template_id target_id w =
    then_advance_run env others w.db.next_chain_run (start_chain_run env template_id target_id w)

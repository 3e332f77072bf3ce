-- ===== src/Planning.antt =====
-- backend/app/ai/planner.py, and create_mission of ai/orchestrator.py: what becomes of the answer of a
-- language model. The provider, the prompt and the search for JSON in the answer are outside; the
-- model starts from what `extract_json` and pydantic make of the answer.
pub mod Steps
pub mod Safety
use cyberlab_kali.Base.{
  ℕ, suc, ◌+◌, ltb, length, if◌then◌else◌, Bool, true, false, any, Option, none, some, is_some,
  List, [], ◌∷◌, take, Text, text_eq, Dict, Map, text_key, get, set, put, Result, ok, err, ◌>>=◌,
}
use cyberlab_kali.Targets.{Asset}
use cyberlab_kali.Tools.Schema.{Value, ToolProfile, ToolDefinition}
use cyberlab_kali.Tools.Registry.{Registry}
use cyberlab_kali.Models.{World}
use cyberlab_kali.Models.Mission.{draft, pending, MissionRow, MissionStep}
use cyberlab_kali.Missions.{save_mission, save_steps}

-- backend/app/ai/schemas.py: a proposed step, without its rationale, a text of any length that only a
-- reader sees.
pub record PlannedStep : Type 0 where
  pub label : Text
  pub tool : Option Text
  pub profile : Option Text
  pub options : Dict Value

-- The answer: no JSON or no `steps`, JSON of a kind on which the planner's own lines raise, or the
-- entries of `steps`, where `none` is one that pydantic refuses.
pub data Reply : Type 0 where
  unreadable malformed : Reply
  steps : List (Option PlannedStep) → Reply

-- An exception that goes up to the route: a `KeyError` for a step, an answer of a wrong kind, or the
-- database's refusal of a label that is longer than its column.
pub data PlanError : Type 0 where
  missing_tool wrong_kind label_too_long : PlanError

-- `{tool.name: tool for tool in ai_visible_tools}`
unfoldable pub add_visible : ToolDefinition → Map Text ToolDefinition → Map Text ToolDefinition
add_visible tool visible = if tool.ai_allowed then set tool.name tool visible else visible

unfoldable pub visible_from : Registry → Map Text ToolDefinition → Map Text ToolDefinition
unfolding add_visible
visible_from [] visible = visible
visible_from ((name, tool) ∷ rest) visible = visible_from rest (add_visible tool visible)

unfoldable pub ai_allowed_tools : Registry → Map Text ToolDefinition
unfolding visible_from
ai_allowed_tools registry = visible_from registry []

abbrev pub has_profile : Text → List ToolProfile → Bool
has_profile profile profiles = any (λ p. text_eq p.name profile) profiles

-- The profile of a step whose tool is allowed.
abbrev pub checked_profile : ToolDefinition → Option Text → Option Text
checked_profile tool none = none
checked_profile tool (some profile) =
    if has_profile profile tool.profiles then some profile else none

-- A step that names a tool, by what stands under the name.
abbrev pub check_named : Text → PlannedStep → Option ToolDefinition → PlannedStep
check_named name step none = record step { tool = none; profile = none }
check_named name step (some tool) = record step {
  tool = some name;
  profile = checked_profile tool step.profile;
}

-- The checks on one step. One without a tool passes the first test, and then its profile is looked
-- up under the missing name.
unfoldable pub check_tool :
    Registry → PlannedStep → (tool profile : Option Text) → Result PlanError PlannedStep
check_tool registry step none none = ok step
check_tool registry step none (some profile) = err missing_tool
check_tool registry step (some name) profile =
    ok (check_named name step (get name (ai_allowed_tools registry)))

unfoldable pub check_step : Registry → PlannedStep → Result PlanError PlannedStep
unfolding check_tool
check_step registry step = check_tool registry step step.tool step.profile

abbrev pub prepend :
    PlannedStep → Result PlanError (List PlannedStep) → Result PlanError (List PlannedStep)
prepend step (ok rest) = ok (step ∷ rest)
prepend step (err e) = err e

unfoldable pub check_steps :
    Registry → List (Option PlannedStep) → Result PlanError (List PlannedStep)
unfolding check_step
check_steps registry [] = ok []
check_steps registry (none ∷ rest) = check_steps registry rest
check_steps registry (some step ∷ rest) =
    let later = check_steps registry rest in
    check_step registry step >>= λ checked. prepend checked later

-- `AIMissionPlanner.plan`
unfoldable pub plan : Registry → Reply → Result PlanError (List PlannedStep)
unfolding check_steps
plan registry unreadable = ok []
plan registry malformed = err wrong_kind
plan registry (steps raw_steps) = check_steps registry raw_steps

-- The rows of the steps, numbered from `order` on.
unfoldable pub step_rows : ℕ → List PlannedStep → List MissionStep
step_rows order [] = []
step_rows order (step ∷ rest) =
    record {
      step_order = order;
      label = step.label;
      tool = step.tool;
      profile = step.profile;
      options = step.options;
      status = pending;
      job_id = none;
      skip_reason = none;
    }
    ∷ step_rows (suc order) rest

abbrev pub new_mission : ℕ → Asset → (max_steps : ℕ) → MissionRow
new_mission id target max_steps = record {
  id = id;
  project_id = some target.project_id;
  target_id = target.id;
  status = draft;
  max_steps = max_steps;
  approved_at = none;
  finished_at = none;
}

-- What the commit of `create_mission` makes durable.
abbrev pub add_mission : Asset → (max_steps : ℕ) → List PlannedStep → World → World
add_mission target max_steps planned w =
    let id = w.db.next_mission in
    let added = record w { db = record w.db { next_mission = id + 1 } } in
    save_mission (save_steps added id (step_rows 0 (take max_steps planned)))
      (new_mission id target max_steps)

-- `label: Mapped[str] = mapped_column(String(256))`
abbrev pub max_label : ℕ
max_label = 256

abbrev pub has_long_label : PlannedStep → Bool
has_long_label step = ltb max_label (length step.label)

-- A row that the database refuses takes the whole transaction with it.
abbrev pub created :
    Asset
    → (max_steps : ℕ) → World
    → Result PlanError (List PlannedStep)
    → Result PlanError MissionRow × World
created target max_steps w (err e) = (err e, w)
created target max_steps w (ok planned) =
    if any has_long_label (take max_steps planned) then (err label_too_long, w) else (
      ok (new_mission w.db.next_mission target max_steps),
      add_mission target max_steps planned w,
    )

unfoldable pub create_mission :
    Registry → Asset → (max_steps : ℕ) → Reply → World → Result PlanError MissionRow × World
unfolding plan
create_mission registry target max_steps reply w = created target max_steps w (plan registry reply)

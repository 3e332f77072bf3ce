-- ===== src/Witnesses/Planning.antt =====
-- backend/app/ai/planner.py and create_mission on an answer with three steps.
use cyberlab_kali.Base.{
  ◌≡◌, ◌⊎◌, ◌↔◌, refl, true, any, Option, none, some, List, [], ◌∷◌, Text, codes, text_eq, text_key,
  set, ok, err,
}
use cyberlab_kali.Models.Mission.{MissionRow}
use cyberlab_kali.Planning.{
  PlannedStep, Reply, steps, PlanError, missing_tool, add_visible, visible_from, ai_allowed_tools,
  check_tool, check_step, check_steps, plan, create_mission,
}
use cyberlab_kali.Planning.Steps.{is_unprovided}
use cyberlab_kali.Planning.Safety.{IsDrafted, create_mission-IsDrafted, create_mission-missing_tool}
use cyberlab_kali.Samples.{registry, world, dvwa, port_80}

abbrev step_of : Option Text → Option Text → PlannedStep
step_of tool profile = record {
  label = codes "check";
  tool = tool;
  profile = profile;
  options = port_80;
}

-- A good step, one that pydantic refuses, and a tool that is not registered.
abbrev answer : Reply
answer = steps (
    some (step_of (some (codes "nc")) (some (codes "port_check")))
    ∷ none
    ∷ some (step_of (some (codes "sqlmap")) none)
    ∷ [])

two_steps :
    plan registry answer
    ≡ ok (step_of (some (codes "nc")) (some (codes "port_check")) ∷ step_of none none ∷ [])
unfolding plan check_steps check_step check_tool ai_allowed_tools visible_from add_visible set
    text_eq
two_steps = refl

create_mission-IsDrafted_example :
    ((e : PlanError) × (create_mission registry dvwa 10 answer world ≡ (err e, world)))
    ⊎ ((mission : MissionRow) × ((create_mission registry dvwa 10 answer world).0 ≡ ok mission)
        × IsDrafted registry dvwa 10 world (create_mission registry dvwa 10 answer world).1 mission)
create_mission-IsDrafted_example = create_mission-IsDrafted registry dvwa 10 answer world

-- A profile without a tool.
abbrev unprovided : List (Option PlannedStep)
unprovided = some (step_of none (some (codes "port_check"))) ∷ []

create_mission-missing_tool_example :
    (any is_unprovided unprovided ≡ true)
    ↔ (create_mission registry dvwa 10 (steps unprovided) world ≡ (err missing_tool, world))
create_mission-missing_tool_example = create_mission-missing_tool registry dvwa 10 unprovided world

-- ===== src/Witnesses/Chains.antt =====
-- backend/app/chains on a template of two steps, the second of which asks for an open port 80.
use cyberlab_kali.Base.{
  ◌≡◌, ◌≤◌, ◌⊎◌, inl, inr, refl, true, false, none, some, [], ◌∷◌, ok, arith, length, ◌==◌, codes,
  put, all, text_ltb, sorted_set, Bool-cases,
}
use cyberlab_kali.Targets.{is_executable, address}
use cyberlab_kali.Models.{World}
use cyberlab_kali.Models.Result.{ParsedResult, other}
use cyberlab_kali.Models.Chain.{
  ChainRun, MissionTemplateStep, running, always, port_open, is_terminal,
}
use cyberlab_kali.Chains.Conditions.{
  is_empty, evaluate_condition, technologies_from_whatweb, technology_tags_for_nuclei,
}
use cyberlab_kali.Chains.Conditions.Tags.{is_tags_char, technology_tags-IsTags}
use cyberlab_kali.Chains.{options_of, advance_chain_run, cancel_chain_run}
use cyberlab_kali.Chains.Creation.{start_chain_run, add_run}
use cyberlab_kali.Chains.Soundness.{IsSound}
use cyberlab_kali.Chains.Settled.{advance_chain_run-twice}
use cyberlab_kali.Chains.Dispatch.{reconciled, Dispatches}
use cyberlab_kali.Chains.Safety.{advance_chain_run-Dispatches}
use cyberlab_kali.Chains.Lifecycle.{start, advance, cancel, run_calls, chain_calls-IsSound}
use cyberlab_kali.Witnesses.Tools.{program}
use cyberlab_kali.Samples.{env, world, dvwa, port_80}

chains : Unit {0}
unfolding program advance_chain_run cancel_chain_run start_chain_run options_of evaluate_condition
    is_executable address technologies_from_whatweb technology_tags_for_nuclei sorted_set text_ltb
chains = tt

abbrev first_step : MissionTemplateStep
first_step = record {
  step_order = 0;
  tool = codes "nc";
  profile = none;
  options = port_80;
  condition_type = always;
  condition_params = record { ports = []; severity = none };
}

abbrev second_step : MissionTemplateStep
second_step = record first_step {
  step_order = 1;
  condition_type = port_open;
  condition_params = record { ports = 80 ∷ []; severity = none };
}

abbrev stocked : World
stocked = record world {
  db = record world.db { template_steps = put (λ k. none) 4 (first_step ∷ second_step ∷ []) };
}

abbrev new_chain : ChainRun
new_chain = record {
  id = 0;
  template_id = some 4;
  target_id = 1;
  project_id = some 1;
  status = running;
  created_at = 1000;
  finished_at = none;
}

stocked-IsSound : IsSound stocked
stocked-IsSound = record {
  keyed = λ id m e. absurd (ground arith);
  one_queued = λ id. omega arith;
  linked = λ id. tt;
}

chain_calls-IsSound_example :
    IsSound (run_calls ((env, start 4 1) ∷ (env, advance 0) ∷ (env, cancel 0) ∷ []) stocked)
chain_calls-IsSound_example =
    chain_calls-IsSound ((env, start 4 1) ∷ (env, advance 0) ∷ (env, cancel 0) ∷ []) stocked
      stocked-IsSound

abbrev running_world : World
running_world = add_run env 4 1 dvwa (first_step ∷ second_step ∷ []) stocked

running-IsSound : IsSound running_world
running-IsSound = record {
  keyed = λ id m e. ground arith;
  one_queued = λ id. ground arith;
  linked = λ id. elim (Bool-cases (0 == id)) [ inl e ↦ rw e (refl, (refl, tt)) | inr e ↦ rw e tt ];
}

advanced : (advance_chain_run env 0 running_world).0 ≡ ok new_chain
unfolding chains
advanced = refl

queued_one : length (advance_chain_run env 0 running_world).1.queue ≡ 1
unfolding chains
queued_one = refl

advance_chain_run-twice_example :
    advance_chain_run env 0 (advance_chain_run env 0 running_world).1
    ≡ (ok new_chain, (advance_chain_run env 0 running_world).1)
advance_chain_run-twice_example =
    advance_chain_run-twice env env 0 running_world new_chain running-IsSound advanced

advance_chain_run-Dispatches_example :
    ((advance_chain_run env 0 running_world).1.queue ≡ running_world.queue)
    ⊎ ((run : ChainRun) × (running_world.db.chain_runs 0 ≡ some run)
        × (is_terminal run.status ≡ false)
        × Dispatches env running_world run
            (reconciled running_world (running_world.db.chain_run_steps run.id))
            (advance_chain_run env 0 running_world))
advance_chain_run-Dispatches_example = advance_chain_run-Dispatches env 0 running_world

abbrev web_result : ParsedResult
web_result = record {
  hosts = [];
  web_results =
      record {
        http_status = some 200;
        plugins =
            (codes "php", other []) ∷ (codes "apache 2.4", other []) ∷ (codes "!", other []) ∷ [];
      }
      ∷ [];
  findings = [];
  ssl_targets = [];
  paths = [];
}

tags_found : technology_tags_for_nuclei (λ s. s) web_result ≡ some (codes "apache24,php")
unfolding chains
tags_found = refl

technology_tags-IsTags_example :
    (is_empty (codes "apache24,php") ≡ false)
    × (length (codes "apache24,php") ≤ 128)
    × (all is_tags_char (codes "apache24,php") ≡ true)
technology_tags-IsTags_example =
    technology_tags-IsTags (λ s. s) web_result (codes "apache24,php") tags_found

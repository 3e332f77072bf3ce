-- ===== src/Witnesses/Tools.antt =====
-- backend/app/tools/registry.py and backend/app/jobs/service.py on a registry of one tool.
use cyberlab_kali.Base.{
  ◌≡◌, refl, true, Option, none, some, List, [], ◌∷◌, Text, codes, text_eq, starts_with, elem, All,
  ok, lookup, insert, merge,
}
use cyberlab_kali.Tools.Schema.{text, ToolDefinition, Value, int, pos, ltb_ℤ}
use cyberlab_kali.Tools.Patterns.{target_pattern, drop_newline, unsafe_search}
use cyberlab_kali.Tools.Registry.{
  str, build_command, get_tool, validate_target, validate_integer, validate_string, validate_url,
  validate_choice, effective_timeout,
}
use cyberlab_kali.Tools.Registry.Safety.{IsPermitted, build_command-IsPermitted}
use cyberlab_kali.Tools.Loading.{load_definitions}
use cyberlab_kali.Jobs.Service.{PreparedJob, prepare_job, IsPrepared, prepare_job-IsPrepared}
use cyberlab_kali.Samples.{registry, parsers, nc, port_80}

unfoldable pub program : Unit {0}
unfolding prepare_job build_command effective_timeout get_tool validate_target validate_integer
    validate_string validate_url validate_choice target_pattern unsafe_search str ltb_ℤ text_eq
    starts_with elem lookup insert merge load_definitions
program = tt

abbrev good_params : List (Text × Value)
good_params = (codes "target", text (codes "10.0.0.5")) ∷ port_80

abbrev good_command : List (Option Text)
good_command =
    some (codes "-zv")
    ∷ some (codes "-w")
    ∷ some (codes "5")
    ∷ some (codes "10.0.0.5")
    ∷ some (codes "80")
    ∷ []

command_good : build_command parsers registry (codes "nc") good_params none ≡ ok good_command
unfolding program
command_good = refl

build_command-IsPermitted_example :
    (tool : ToolDefinition) × (get_tool registry (codes "nc") ≡ ok tool)
    × All (IsPermitted tool) good_command
build_command-IsPermitted_example =
    build_command-IsPermitted parsers registry (codes "nc") good_params none good_command
      command_good

target_plain : target_pattern (codes "10.0.0.5") ≡ true
unfolding program
target_plain = refl

plain_line : drop_newline (codes "10.0.0.5") ≡ codes "10.0.0.5"
unfolding program drop_newline
plain_line = refl

abbrev prepared : PreparedJob
prepared = record {
  full_params = (codes "port", int (pos 80)) ∷ (codes "target", text (codes "10.0.0.5")) ∷ [];
  effective_timeout = 10;
}

prepare_good :
    prepare_job parsers registry
      (codes "nc")
      (some (codes "port_check"))
      port_80
      (codes "10.0.0.5")
      none
    ≡ ok prepared
unfolding program
prepare_good = refl

prepare_job-IsPrepared_example :
    IsPrepared parsers registry (codes "nc") (codes "10.0.0.5") prepared
prepare_job-IsPrepared_example =
    prepare_job-IsPrepared parsers registry (codes "nc") (some (codes "port_check")) port_80
      (codes "10.0.0.5") none prepared prepare_good

loaded :
    load_definitions (some nc ∷ []) (some (record nc { max_timeout = 9 }) ∷ none ∷ [])
    ≡ some registry
unfolding program
loaded = refl

loaded_core : load_definitions (some nc ∷ []) [] ≡ some registry
unfolding program
loaded_core = refl

found_nc : lookup (codes "nc") registry ≡ some nc
unfolding program
found_nc = refl

-- ===== src/Tools/Loading.antt =====
-- backend/app/tools/registry.py: the checks on a definition, and `_load_definitions`, which puts the
-- built-in definitions and then the plugins into one table.
use cyberlab_kali.Base.{
  ℕ, ◌+◌, ltb, ◌==◌, if◌then◌else◌, Bool, true, false, not, ◌&&◌, ◌||◌, Option, none, some, List,
  [], ◌∷◌, ◌≡◌, map, Text, elem, all, any, lookup, insert, keys, lookup-insert, text_eq_iff, arith,
  is_some, Option-cases, inl, inr,
}
use cyberlab_kali.Tools.Schema.{
  ArgumentType, target, url, string, choice, ArgumentDef, ToolProfile, ToolDefinition,
  manual_only_implies_not_ai_allowed,
}
use cyberlab_kali.Tools.Registry.{Registry}

abbrev is_target_type : ArgumentType → Bool
is_target_type target = true
is_target_type url = true
is_target_type _ = false

abbrev may_come_first : ArgumentType → Bool
may_come_first string = true
may_come_first t = is_target_type t

-- `not arg.flag`
abbrev has_flag : ArgumentDef → Bool
has_flag arg = elim arg.flag [ none ↦ false | some [] ↦ false | some (c ∷ s) ↦ true ]

-- `arg.type == "choice" and not arg.choices`
abbrev has_choices : ArgumentType → Option (List Text) → Bool
has_choices choice none = false
has_choices choice (some []) = false
has_choices _ _ = true

-- The first loop: `positional_count` counts the positional arguments already seen.
check_arguments : (positional_count : ℕ) → List ArgumentDef → Bool
check_arguments positional_count [] = not (ltb 2 positional_count)
check_arguments positional_count (arg ∷ rest) =
    (if arg.positional
      then not (positional_count == 0) || may_come_first arg.type
      else has_flag arg)
    && has_choices arg.type arg.choices
    && check_arguments (if arg.positional then positional_count + 1 else positional_count) rest

target_arg_names : List ArgumentDef → List Text
target_arg_names [] = []
target_arg_names (arg ∷ rest) =
    if is_target_type arg.type then arg.name ∷ target_arg_names rest else target_arg_names rest

-- The second loop.
check_profiles : (known targets seen : List Text) → List ToolProfile → Bool
check_profiles known targets seen [] = true
check_profiles known targets seen (profile ∷ rest) =
    not (elem profile.name seen)
    && all (λ k. elem k known) (keys profile.args)
    && not (any (λ k. elem k targets) (keys profile.args))
    && check_profiles known targets (profile.name ∷ seen) rest

-- `_validate_definition_integrity`: whether no `ValueError` is raised.
unfoldable pub validate_definition_integrity : ToolDefinition → Bool
unfolding check_arguments check_profiles target_arg_names
validate_definition_integrity tool =
    check_arguments 0 tool.arguments
    && check_profiles (map (λ arg. arg.name) tool.arguments) (target_arg_names tool.arguments) []
        tool.profiles

-- `_load_one`, on what the YAML parser and pydantic make of the file, or `none` if they raise.
unfoldable pub load_one : Option ToolDefinition → Option ToolDefinition
unfolding validate_definition_integrity manual_only_implies_not_ai_allowed
load_one none = none
load_one (some tool) =
    if manual_only_implies_not_ai_allowed tool && validate_definition_integrity tool
    then some tool
    else none

-- The loop over the built-in files: a file that does not load takes the registry down.
load_builtin : List (Option ToolDefinition) → Registry → Option Registry
unfolding load_one
load_builtin [] definitions = some definitions
load_builtin (file ∷ rest) definitions = elim (load_one file) [
  | none ↦ none
  | some tool ↦ load_builtin rest (insert tool.name tool definitions)
]

-- The body of the loop over the plugin files: one that does not load, or whose name is taken, is
-- skipped.
add_plugin : Option ToolDefinition → Registry → Registry
unfolding load_one
add_plugin file definitions = elim (load_one file) [
  | none ↦ definitions
  | some tool ↦
      if is_some (lookup tool.name definitions)
      then definitions
      else insert tool.name tool definitions
]

load_plugins : List (Option ToolDefinition) → Registry → Registry
unfolding add_plugin
load_plugins [] definitions = definitions
load_plugins (file ∷ rest) definitions = load_plugins rest (add_plugin file definitions)

-- `_load_definitions`; without an extra directory there are no plugins.
unfoldable pub load_definitions : (builtin plugins : List (Option ToolDefinition)) → Option Registry
unfolding load_builtin load_plugins
load_definitions builtin plugins = elim (load_builtin builtin []) [
  | none ↦ none
  | some definitions ↦ some (load_plugins plugins definitions)
]

-- ------------------------------------------------------------------ plugins never shadow

add_plugin-lookup :
    (file : Option ToolDefinition) (definitions : Registry) (name : Text) (tool : ToolDefinition)
    → lookup name definitions ≡ some tool
    → lookup name (add_plugin file definitions) ≡ some tool
unfolding add_plugin
add_plugin-lookup file definitions name tool h = elim (Option-cases (load_one file)) [
  | inl e ↦ rw (e, add_plugin) h
  | inr (plugin, e) ↦
      ground
        (arith, e, lookup-insert plugin.name name plugin definitions, text_eq_iff plugin.name name)
]

load_plugins-lookup :
    (plugins : List (Option ToolDefinition)) (definitions : Registry) (name : Text)
    (tool : ToolDefinition)
    → lookup name definitions ≡ some tool
    → lookup name (load_plugins plugins definitions) ≡ some tool
unfolding load_plugins
load_plugins-lookup [] definitions name tool h = h
load_plugins-lookup (file ∷ rest) definitions name tool h =
    load_plugins-lookup rest (add_plugin file definitions) name tool
      (add_plugin-lookup file definitions name tool h)

-- The registry that the built-in files alone give.
pub load_definitions-builtin_kept :
    (builtin plugins : List (Option ToolDefinition)) (core registry : Registry) (name : Text)
    (tool : ToolDefinition)
    → load_definitions builtin [] ≡ some core
    → load_definitions builtin plugins ≡ some registry
    → lookup name core ≡ some tool
    → lookup name registry ≡ some tool
unfolding load_definitions
load_definitions-builtin_kept builtin plugins core registry name tool c r h =
    elim (Option-cases (load_builtin builtin [])) [
      | inl e ↦ absurd (ground (arith, e))
      | inr (definitions, e) ↦
          let same : core ≡ definitions = ground (arith, e) in
          let whole : load_plugins plugins definitions ≡ registry = ground (arith, e) in
          rw (← whole) (load_plugins-lookup plugins definitions name tool (rw same at h))
    ]

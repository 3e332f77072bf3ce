-- ===== src/Tools/Registry.antt =====
-- backend/app/tools/registry.py: which definitions are loaded, and how the arguments of a call are
-- validated and turned into a command line.
pub mod Safety
use cyberlab_kali.Base.{
  ℕ, zero, suc, ◌+◌, ◌-◌, ◌*◌, ◌/◌, ◌%◌, ltb, leb, ◌==◌, min, if◌then◌else◌, Bool, true, false, not,
  ◌&&◌, ◌||◌, Option, none, some, List, [], ◌∷◌, ◌++◌, map, Text, codes, text_eq, starts_with, elem,
  length, all, any, find, Dict, lookup, insert, merge, keys, or_else, Result, ok, err, ◌>>=◌, ◌>>◌,
}
use cyberlab_kali.Tools.Schema.{
  ℤ, pos, negsuc, ltb_ℤ, Value, null, other, bool, int, text, ArgumentType, target, url, string,
  boolean, choice, integer, ArgumentDef, ToolProfile, ToolDefinition,
  manual_only_implies_not_ai_allowed,
}
use cyberlab_kali.Tools.Patterns.{unsafe_search, target_pattern, string_arg_pattern}

-- The exceptions that the registry raises, and the `ValueError` that `urlparse` raises on a
-- malformed address, which nothing here catches.
pub data ToolError : Type 0 where
  tool_not_found : (name : Text) → ToolError
  unknown_profile : (name : Text) → ToolError
  unknown_arguments : (names : List Text) → ToolError
  missing_argument invalid_argument : (name : Text) → ToolError
  uncaught_value_error : ToolError

-- What `urllib.parse.urlparse` returns of an address: its scheme, and its host name if it has one.
pub record ParsedUrl : Type 0 where
  pub scheme : Text
  pub hostname : Option Text

-- The code outside the repository that the registry calls: `urlparse`, where `none` is a
-- `ValueError`, and `re.compile(pattern).match(value)` for the pattern of a definition. `lower` is
-- `str.lower`, with the tables of Unicode, for the conditions of chains.
pub record Parsers : Type 0 where
  pub urlparse : Text → Option ParsedUrl
  pub pattern_match : (pattern value : Text) → Bool
  pub lower : Text → Text

-- The decimal digits of a number, the last one first to be found; `fuel` bounds their number.
digits_from : (fuel n : ℕ) → Text → Text
digits_from zero n out = out
digits_from (suc fuel) n out =
    let rest = digits_from fuel (n / 10) ((b'0' + n % 10) ∷ out) in
    if ltb n 10 then (b'0' + n) ∷ out else rest

-- `str(value)`, on an integer
unfoldable pub str : ℤ → Text
unfolding digits_from
str (pos n) = digits_from (suc n) n []
str (negsuc n) = b'-' ∷ digits_from (suc (suc n)) (suc n) []

abbrev pub Registry : Type 0
Registry = Dict ToolDefinition

-- `get_tool`
unfoldable pub get_tool : Registry → Text → Result ToolError ToolDefinition
get_tool registry name = elim (lookup name registry) [
  | none ↦ err (tool_not_found name)
  | some tool ↦ ok tool
]

-- The `for` loop of `get_profile`.
find_profile : List ToolProfile → Text → Result ToolError ToolProfile
find_profile [] profile_name = err (unknown_profile profile_name)
find_profile (p ∷ ps) profile_name =
    if text_eq p.name profile_name then ok p else find_profile ps profile_name

unfoldable pub get_profile : ToolDefinition → Text → Result ToolError ToolProfile
unfolding find_profile
get_profile tool profile_name = find_profile tool.profiles profile_name

-- The timeout of the profile, if there is one, else that of the tool.
unfoldable pub base_timeout : ToolDefinition → Option Text → Result ToolError ℕ
unfolding get_profile
base_timeout tool none = ok tool.default_timeout
base_timeout tool (some profile) = do
  profile_def ← get_profile tool profile
  ok (elim profile_def.timeout [ none ↦ tool.default_timeout | some t ↦ t ])

unfoldable pub effective_timeout :
    ToolDefinition → (profile : Option Text) → (requested_timeout : Option ℕ) → Result ToolError ℕ
unfolding base_timeout
effective_timeout tool profile requested_timeout = do
  base ← base_timeout tool profile
  ok (min (or_else requested_timeout base) tool.max_timeout)

unfoldable pub validate_target : ArgumentDef → Value → Result ToolError Text
validate_target arg (text value) =
    if target_pattern value then ok value else err (invalid_argument arg.name)
validate_target arg _ = err (invalid_argument arg.name)

abbrev url_schemes : List Text
url_schemes = codes "http" ∷ codes "https" ∷ codes "ldap" ∷ codes "ldaps" ∷ []

-- `parsed.hostname or ""`
abbrev host_of : ParsedUrl → Text
host_of parsed = elim parsed.hostname [ none ↦ [] | some h ↦ h ]

-- The second half of `_validate_url`, on what `urlparse` returned.
validate_parsed : ArgumentDef → Text → Option ParsedUrl → Result ToolError Text
validate_parsed arg value none = err uncaught_value_error
validate_parsed arg value (some parsed) =
    let schemed =
      (if elem parsed.scheme url_schemes
        then if target_pattern (host_of parsed) then ok value else err (invalid_argument arg.name)
        else err (invalid_argument arg.name)) in
    let plain = (if target_pattern value then ok value else err (invalid_argument arg.name)) in
    if text_eq parsed.scheme [] then plain else schemed

unfoldable pub validate_url : Parsers → ArgumentDef → Value → Result ToolError Text
unfolding validate_parsed
validate_url parsers arg (text value) =
    if text_eq value [] || unsafe_search value || starts_with value (codes "-")
    then err (invalid_argument arg.name)
    else validate_parsed arg value (parsers.urlparse value)
validate_url parsers arg _ = err (invalid_argument arg.name)

-- `pattern.match(value)`, by the argument's pattern or by `STRING_ARG_PATTERN`; an empty pattern
-- counts as none.
string_match : Parsers → Option Text → Text → Bool
string_match parsers none value = string_arg_pattern value
string_match parsers (some []) value = string_arg_pattern value
string_match parsers (some (c ∷ p)) value = parsers.pattern_match (c ∷ p) value

unfoldable pub validate_string : Parsers → ArgumentDef → Value → Result ToolError Text
unfolding string_match
validate_string parsers arg (text value) =
    if unsafe_search value
    then err (invalid_argument arg.name)
    else if string_match parsers arg.pattern value
    then ok value
    else err (invalid_argument arg.name)
validate_string parsers arg _ = err (invalid_argument arg.name)

-- `value in (arg.choices or [])`
abbrev choices_of : ArgumentDef → List Text
choices_of arg = elim arg.choices [ none ↦ [] | some xs ↦ xs ]

unfoldable pub validate_choice : ArgumentDef → Value → Result ToolError Text
validate_choice arg (text value) =
    if elem value (choices_of arg) then ok value else err (invalid_argument arg.name)
validate_choice arg _ = err (invalid_argument arg.name)

unfoldable pub below : ℤ → Option ℤ → Bool
below value none = false
below value (some bound) = ltb_ℤ value bound

unfoldable pub above : ℤ → Option ℤ → Bool
above value none = false
above value (some bound) = ltb_ℤ bound value

unfoldable pub validate_integer : ArgumentDef → Value → Result ToolError ℤ
unfolding below above
validate_integer arg (int value) =
    if below value arg.min_value || above value arg.max_value
    then err (invalid_argument arg.name)
    else ok value
validate_integer arg _ = err (invalid_argument arg.name)

-- The two lists that the loop of `build_command` fills. An argument without a flag that is not
-- positional would add Python's `None`, so an item is optional.
pub record Command : Type 0 where
  pub args : List (Option Text)
  pub positional : List (Option Text)

-- `positional.append(value)` or `args += [arg.flag, value]`
place : ArgumentDef → Text → Command → Command
place arg value command =
    if arg.positional
    then record command { positional = command.positional ++ some value ∷ [] }
    else record command { args = command.args ++ arg.flag ∷ some value ∷ [] }

-- The body of the loop, for a value that is not `None`, by the type of the argument.
add_value : Parsers → ArgumentType → ArgumentDef → Value → Command → Result ToolError Command
unfolding place
add_value parsers target arg value command = do
  checked ← validate_target arg value
  ok (place arg checked command)
add_value parsers url arg value command = do
  checked ← validate_url parsers arg value
  ok (place arg checked command)
add_value parsers string arg value command = do
  checked ← validate_string parsers arg value
  ok (place arg checked command)
add_value parsers boolean arg (bool true) command =
    ok (record command { args = command.args ++ arg.flag ∷ [] })
add_value parsers boolean arg (bool false) command = ok command
add_value parsers boolean arg _ command = err (invalid_argument arg.name)
add_value parsers choice arg value command = do
  checked ← validate_choice arg value
  ok (record command { args = command.args ++ arg.flag ∷ some checked ∷ [] })
add_value parsers integer arg value command = do
  checked ← validate_integer arg value
  ok (place arg (str checked) command)

-- `params.get(arg.name, arg.default)`
abbrev pub get_param : Dict Value → ArgumentDef → Value
get_param params arg = elim (lookup arg.name params) [ none ↦ arg.default | some v ↦ v ]

-- The body of the loop.
add_argument : Parsers → ArgumentDef → Value → Command → Result ToolError Command
unfolding add_value
add_argument parsers arg null command =
    if arg.required then err (missing_argument arg.name) else ok command
add_argument parsers arg value command = add_value parsers arg.type arg value command

add_arguments : Parsers → Dict Value → List ArgumentDef → Command → Result ToolError Command
unfolding add_argument
add_arguments parsers params [] command = ok command
add_arguments parsers params (arg ∷ rest) command = do
  command' ← add_argument parsers arg (get_param params arg) command
  add_arguments parsers params rest command'

-- `set(params) - known_names`
unknown_names : Dict Value → List Text → List Text
unknown_names [] known = []
unknown_names ((k, v) ∷ params) known =
    let rest = unknown_names params known in if elem k known then rest else k ∷ rest

-- The part of `build_command` that follows the lookup of the profile.
command_for : Parsers → ToolDefinition → Dict Value → Result ToolError (List (Option Text))
unfolding add_arguments unknown_names
command_for parsers tool params =
    elim (unknown_names params (map (λ arg. arg.name) tool.arguments)) [
      | [] ↦ do
        command ←
            add_arguments parsers params tool.arguments
              (record { args = map some tool.fixed_args; positional = [] })
        ok (command.args ++ command.positional)
      | k ∷ ks ↦ err (unknown_arguments (k ∷ ks))
    ]

-- `effective_params`
with_profile : ToolDefinition → Option Text → Dict Value → Result ToolError (Dict Value)
unfolding get_profile
with_profile tool none params = ok params
with_profile tool (some profile) params = do
  profile_def ← get_profile tool profile
  ok (merge profile_def.args params)

unfoldable pub build_command :
    Parsers
    → Registry
    → (tool_name : Text) → (params : Dict Value) → (profile : Option Text)
    → Result ToolError (List (Option Text))
unfolding get_tool with_profile command_for
build_command parsers registry tool_name params profile = do
  tool ← get_tool registry tool_name
  effective_params ← with_profile tool profile params
  command_for parsers tool effective_params

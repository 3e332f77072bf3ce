-- ===== src/Tools/Registry/Safety.antt =====
-- What a command line that `build_command` returns is made of.
use mathlib.Core.List.{Memᴰ}
use cyberlab_kali.Base.{
  ◌≡◌, refl, sym, true, false, Option, none, some, List, [], ◌∷◌, ◌++◌, map, Text, codes,
  starts_with, elem, Dict, All, All-append, arith, Result, ok, ◌>>=◌, >>=-eq-ok, Bool-cases, inl,
  inr, subst, List-cases,
}
use cyberlab_kali.Tools.Schema.{
  ℤ, Value, null, bool, int, text, ArgumentType, target, url, string, boolean, choice, integer,
  ArgumentDef, ToolDefinition,
}
use cyberlab_kali.Tools.Patterns.{unsafe_search, drop_newline, target_pattern}
use cyberlab_kali.Tools.Patterns.Safety.{target_pattern-safe, target_pattern-no_dash}
use cyberlab_kali.Tools.Registry.{
  ToolError, ParsedUrl, Parsers, Registry, Command, str, below, above, get_tool, choices_of,
  get_param, validate_target, validate_url, validate_parsed, validate_string, validate_choice,
  validate_integer, place, add_value, add_argument, add_arguments, unknown_names, command_for,
  with_profile, build_command,
}

-- What a validated value of each type of argument may be.
abbrev pub IsSafeValue : ArgumentType → ArgumentDef → Text → Type 0
IsSafeValue target arg v =
    (unsafe_search (drop_newline v) ≡ false) × (starts_with v (codes "-") ≡ false)
IsSafeValue url arg v = (unsafe_search v ≡ false) × (starts_with v (codes "-") ≡ false)
IsSafeValue string arg v = unsafe_search v ≡ false
IsSafeValue boolean arg v = ⊥
IsSafeValue choice arg v = elem v (choices_of arg) ≡ true
IsSafeValue integer arg v =
    (z : ℤ) × (v ≡ str z) × (below z arg.min_value ≡ false) × (above z arg.max_value ≡ false)

-- An item of a command line: a fixed argument of the tool, the flag of one of its arguments, or a
-- value that one of its arguments accepts.
pub data IsPermitted (tool : ToolDefinition) (item : Option Text) : Type 0 where
  fixed : (v : Text) → item ≡ some v → Memᴰ v tool.fixed_args → IsPermitted tool item
  flagged : (arg : ArgumentDef) → Memᴰ arg tool.arguments → item ≡ arg.flag → IsPermitted tool item
  valued :
      (arg : ArgumentDef) (v : Text)
      → Memᴰ arg tool.arguments
      → item ≡ some v
      → IsSafeValue arg.type arg v
      → IsPermitted tool item

validate_target-safe :
    (arg : ArgumentDef) (value : Value) (v : Text)
    → validate_target arg value ≡ ok v
    → IsSafeValue target arg v
unfolding validate_target
validate_target-safe arg (text s) v h = elim (Bool-cases (target_pattern s)) [
  | inl e ↦
      let same : s ≡ v = ground (arith, e) in
      rw (← same) (target_pattern-safe s e, target_pattern-no_dash s e)
  | inr e ↦ absurd (ground (arith, e))
]
validate_target-safe arg _ v h = absurd (ground arith)

validate_parsed-same :
    (arg : ArgumentDef) (s v : Text) (parsed : Option ParsedUrl)
    → validate_parsed arg s parsed ≡ ok v
    → s ≡ v
unfolding validate_parsed
validate_parsed-same arg s v none h = absurd (ground arith)
validate_parsed-same arg s v (some p) h = ground arith

validate_url-safe :
    (parsers : Parsers) (arg : ArgumentDef) (value : Value) (v : Text)
    → validate_url parsers arg value ≡ ok v
    → IsSafeValue url arg v
unfolding validate_url
validate_url-safe parsers arg (text s) v h =
    ground (arith, validate_parsed-same arg s v (parsers.urlparse s))
validate_url-safe parsers arg _ v h = absurd (ground arith)

validate_string-safe :
    (parsers : Parsers) (arg : ArgumentDef) (value : Value) (v : Text)
    → validate_string parsers arg value ≡ ok v
    → IsSafeValue string arg v
unfolding validate_string
validate_string-safe parsers arg (text s) v h = ground arith
validate_string-safe parsers arg _ v h = absurd (ground arith)

validate_choice-safe :
    (arg : ArgumentDef) (value : Value) (v : Text)
    → validate_choice arg value ≡ ok v
    → IsSafeValue choice arg v
unfolding validate_choice
validate_choice-safe arg (text s) v h = ground arith
validate_choice-safe arg _ v h = absurd (ground arith)

validate_integer-safe :
    (arg : ArgumentDef) (value : Value) (z : ℤ)
    → validate_integer arg value ≡ ok z
    → (below z arg.min_value ≡ false) × (above z arg.max_value ≡ false)
unfolding validate_integer
validate_integer-safe arg (int n) z h = ground arith
validate_integer-safe arg _ z h = absurd (ground arith)

module _ (parsers : Parsers) (tool : ToolDefinition) where
  abbrev AllPermitted : Command → Type 0
  AllPermitted c = All (IsPermitted tool) c.args × All (IsPermitted tool) c.positional

  module _ (arg : ArgumentDef) (m : Memᴰ arg tool.arguments) where
    place-IsPermitted :
        (v : Text) (c : Command)
        → IsSafeValue arg.type arg v
        → AllPermitted c
        → AllPermitted (place arg v c)
    unfolding place
    place-IsPermitted v c safe (h, k) =
        let item = valued arg v m refl safe in
        elim (Bool-cases arg.positional) [
          | inl e ↦ rw e (h, All-append (IsPermitted tool) c.positional _ k (item, tt))
          | inr e ↦
              rw e (All-append (IsPermitted tool) c.args _ h (flagged arg m refl, (item, tt)), k)
        ]

    add_flag-IsPermitted :
        (c : Command) → AllPermitted c → All (IsPermitted tool) (c.args ++ arg.flag ∷ [])
    add_flag-IsPermitted c (h, k) =
        All-append (IsPermitted tool) c.args _ h (flagged arg m refl, tt)

    finished :
        (c c' : Command)
        → AllPermitted c
        → ◌≡◌ {A = Result ToolError Command} (ok c) (ok c')
        → AllPermitted c'
    finished c c' p h = let same : c ≡ c' = ground arith in subst AllPermitted same p

    placed :
        (t : ArgumentType) (r : Result ToolError Text) (c c' : Command)
        → arg.type ≡ t
        → ((v : Text) → r ≡ ok v → IsSafeValue t arg v)
        → (r >>= λ v. ok (place arg v c)) ≡ ok c'
        → AllPermitted c
        → AllPermitted c'
    placed t r c c' typed safe h p =
        let (v, e, f) = >>=-eq-ok r (λ v. ok (place arg v c)) h in
        finished _ c'
          (place-IsPermitted v c (subst (λ u. IsSafeValue u arg v) (sym typed) (safe v e)) p) f

    add_value-IsPermitted :
        (t : ArgumentType) (value : Value) (c c' : Command)
        → arg.type ≡ t
        → add_value parsers t arg value c ≡ ok c'
        → AllPermitted c
        → AllPermitted c'
    unfolding add_value
    add_value-IsPermitted target value c c' typed h p =
        placed target (validate_target arg value) c c' typed (validate_target-safe arg value) h p
    add_value-IsPermitted url value c c' typed h p =
        placed url (validate_url parsers arg value) c c' typed (validate_url-safe parsers arg value)
          h p
    add_value-IsPermitted string value c c' typed h p =
        placed string (validate_string parsers arg value) c c' typed
          (validate_string-safe parsers arg value) h p
    add_value-IsPermitted boolean (bool true) c c' typed h p =
        finished _ c' (add_flag-IsPermitted c p, p.1) h
    add_value-IsPermitted boolean (bool false) c c' typed h p = finished c c' p h
    add_value-IsPermitted boolean _ c c' typed h p = absurd (ground arith)
    add_value-IsPermitted choice value c c' typed h p =
        let (v, e, f) =
          >>=-eq-ok (validate_choice arg value)
            (λ v. ok (record c { args = c.args ++ arg.flag ∷ some v ∷ [] })) h in
        let item =
          valued arg v m refl
            (subst (λ u. IsSafeValue u arg v) (sym typed) (validate_choice-safe arg value v e)) in
        finished _ c'
          (All-append (IsPermitted tool) c.args _ p.0 (flagged arg m refl, (item, tt)), p.1) f
    add_value-IsPermitted integer value c c' typed h p =
        let (z, e, f) = >>=-eq-ok (validate_integer arg value) (λ z. ok (place arg (str z) c)) h in
        let safe : IsSafeValue integer arg (str z) = (
          z,
          refl,
          ground (arith, validate_integer-safe arg value z e),
          ground (arith, validate_integer-safe arg value z e),
        ) in
        finished _ c'
          (place-IsPermitted (str z) c (subst (λ u. IsSafeValue u arg (str z)) (sym typed) safe) p)
          f

    add_argument-IsPermitted :
        (value : Value) (c c' : Command)
        → add_argument parsers arg value c ≡ ok c'
        → AllPermitted c
        → AllPermitted c'
    unfolding add_argument
    add_argument-IsPermitted null c c' h p = elim (Bool-cases arg.required) [
      | inl e ↦ absurd (ground (arith, e))
      | inr e ↦ finished c c' p (rw e at h)
    ]
    add_argument-IsPermitted value c c' h p = add_value-IsPermitted arg.type value c c' refl h p

  add_arguments-IsPermitted :
      (params : Dict Value) (arguments : List ArgumentDef) (c c' : Command)
      → ((arg : ArgumentDef) → Memᴰ arg arguments → Memᴰ arg tool.arguments)
      → add_arguments parsers params arguments c ≡ ok c'
      → AllPermitted c
      → AllPermitted c'
  unfolding add_arguments
  add_arguments-IsPermitted params [] c c' among h p = subst AllPermitted (ground arith) p
  add_arguments-IsPermitted params (arg ∷ rest) c c' among h p =
      let (d, e, f) =
        >>=-eq-ok (add_argument parsers arg (get_param params arg) c)
          (λ d. add_arguments parsers params rest d) h in
      add_arguments-IsPermitted params rest d c' (λ a m. among a (Memᴰ.tail m)) f
        (add_argument-IsPermitted arg (among arg (Memᴰ.head refl)) (get_param params arg) c d e p)

  fixed-IsPermitted :
      (vs : List Text)
      → ((v : Text) → Memᴰ v vs → Memᴰ v tool.fixed_args)
      → All (IsPermitted tool) (map some vs)
  fixed-IsPermitted [] among = tt
  fixed-IsPermitted (v ∷ vs) among =
      (fixed v refl (among v (Memᴰ.head refl)), fixed-IsPermitted vs (λ u m. among u (Memᴰ.tail m)))

  command_for-IsPermitted :
      (params : Dict Value) (items : List (Option Text))
      → command_for parsers tool params ≡ ok items
      → All (IsPermitted tool) items
  unfolding command_for
  command_for-IsPermitted params items h =
      elim (List-cases (unknown_names params (map (λ arg. arg.name) tool.arguments))) [
        | inl e ↦
            let start : Command = record { args = map some tool.fixed_args; positional = [] } in
            let join : Command → Result ToolError (List (Option Text)) =
              λ c. ok (c.args ++ c.positional) in
            let (c, built, out) =
              >>=-eq-ok (add_arguments parsers params tool.arguments start) join
                (rw (e, command_for) at h) in
            let (left, right) =
              add_arguments-IsPermitted params tool.arguments start c (λ arg m. m) built
                (fixed-IsPermitted tool.fixed_args (λ v m. m), tt) in
            let same : c.args ++ c.positional ≡ items = ground arith in
            subst (All (IsPermitted tool)) same
              (All-append (IsPermitted tool) c.args c.positional left right)
        | inr (k, ks, e) ↦ absurd (ground (arith, e))
      ]

-- Each item of a command line that build_command returns is a fixed argument of the tool, a flag of
-- one of its arguments, or a value that passed the check of one of its arguments: targets and URLs
-- do not begin with a dash, and targets (but for a final newline), URLs and strings hold no unsafe
-- character.
pub build_command-IsPermitted :
    (parsers : Parsers) (registry : Registry) (tool_name : Text) (params : Dict Value)
    (profile : Option Text) (items : List (Option Text))
    → build_command parsers registry tool_name params profile ≡ ok items
    → (tool : ToolDefinition) × (get_tool registry tool_name ≡ ok tool)
      × All (IsPermitted tool) items
unfolding build_command
build_command-IsPermitted parsers registry tool_name params profile items h =
    let (tool, found, rest) =
      >>=-eq-ok (get_tool registry tool_name)
        (λ t. with_profile t profile params >>= λ p. command_for parsers t p) h in
    let (effective, e, built) =
      >>=-eq-ok (with_profile tool profile params) (λ p. command_for parsers tool p) rest in
    (tool, found, command_for-IsPermitted parsers tool effective items built)

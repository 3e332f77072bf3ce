-- ===== src/Planning/Steps.antt =====
-- Which steps the planner lets through, and when it fails instead.
use cyberlab_kali.Base.{
  ◌≡◌, ◌⊎◌, inl, inr, refl, subst, Bool, true, false, not, ◌&&◌, any, Bool-cases, Option, none,
  some, is_some, List, [], ◌∷◌, Text, text_eq, text_eq→eq, Map, text_key, get, get-set, Result, ok,
  err, >>=-eq-ok, All, arith,
}
use cyberlab_kali.Tools.Schema.{ToolDefinition}
use cyberlab_kali.Tools.Registry.{Registry}
use cyberlab_kali.Planning.{
  PlannedStep, PlanError, missing_tool, add_visible, visible_from, ai_allowed_tools, has_profile,
  checked_profile, check_named, check_tool, check_step, prepend, check_steps,
}

-- The tool is one of the registered ones, has the name, and a model may propose it.
abbrev pub Registered : Registry → ToolDefinition → Type 0
Registered [] tool = ⊥
Registered ((key, other) ∷ registry) tool = (other ≡ tool) ⊎ Registered registry tool

abbrev pub IsOffered : Registry → Text → ToolDefinition → Type 0
IsOffered registry name tool =
    Registered registry tool × (tool.ai_allowed ≡ true) × (tool.name ≡ name)

add_visible-cases :
    (tool found : ToolDefinition) (visible : Map Text ToolDefinition) (name : Text)
    → get name (add_visible tool visible) ≡ some found
    → ((tool ≡ found) × (tool.ai_allowed ≡ true) × (tool.name ≡ name))
      ⊎ (get name visible ≡ some found)
unfolding add_visible
add_visible-cases tool found visible name = elim (Bool-cases tool.ai_allowed) [
  | inr e ↦ rw e (λ h. inr h)
  | inl e ↦ rw e (λ h. elim (Bool-cases (text_eq tool.name name)) [
    | inr f ↦ inr (ground (arith, get-set tool.name name tool visible, f))
    | inl f ↦
        inl (
          ground (arith, get-set tool.name name tool visible, f),
          refl,
          text_eq→eq tool.name name f,
        )
  ])
]

visible_from-IsOffered :
    (registry : Registry) (visible : Map Text ToolDefinition) (name : Text) (found : ToolDefinition)
    → get name (visible_from registry visible) ≡ some found
    → IsOffered registry name found ⊎ (get name visible ≡ some found)
unfolding visible_from
visible_from-IsOffered [] visible name found h = inr h
visible_from-IsOffered ((key, tool) ∷ rest) visible name found h =
    elim (visible_from-IsOffered rest (add_visible tool visible) name found h) [
      | inl (later, allowed, named) ↦ inl (inr later, allowed, named)
      | inr here ↦ elim (add_visible-cases tool found visible name here) [
        | inr before ↦ inr before
        | inl (same, allowed, named) ↦ inl (
          inl same,
          subst (λ t. t.ai_allowed ≡ true) same allowed,
          subst (λ t. t.name ≡ name) same named,
        )
      ]
    ]

-- A step that may be stored: without a tool it has no profile, and its tool is offered, with a
-- profile of that tool if it has one.
pub data IsGrounded (registry : Registry) (step : PlannedStep) : Type 0 where
  untooled : step.tool ≡ none → step.profile ≡ none → IsGrounded registry step
  tooled :
      (name : Text)
      → (tool : ToolDefinition) → step.tool ≡ some name
      → IsOffered registry name tool
      → (step.profile ≡ none)
        ⊎ ((profile : Text) × (step.profile ≡ some profile)
            × (has_profile profile tool.profiles ≡ true))
      → IsGrounded registry step

checked_profile-cases :
    (tool : ToolDefinition) (profile : Option Text)
    → (checked_profile tool profile ≡ none)
      ⊎ ((found : Text) × (checked_profile tool profile ≡ some found)
          × (has_profile found tool.profiles ≡ true))
checked_profile-cases tool none = inl refl
checked_profile-cases tool (some profile) = elim (Bool-cases (has_profile profile tool.profiles)) [
  | inl e ↦ inr (profile, rw e refl, e)
  | inr e ↦ inl (rw e refl)
]

check_named-IsGrounded :
    (registry : Registry) (name : Text) (step : PlannedStep) (found : Option ToolDefinition)
    → get name (ai_allowed_tools registry) ≡ found
    → IsGrounded registry (check_named name step found)
unfolding ai_allowed_tools
check_named-IsGrounded registry name step none h = untooled refl refl
check_named-IsGrounded registry name step (some tool) h =
    elim (visible_from-IsOffered registry [] name tool h) [
      | inl offered ↦ tooled name tool refl offered (checked_profile-cases tool step.profile)
      | inr empty ↦ absurd (ground arith)
    ]

check_tool-IsGrounded :
    (registry : Registry) (step checked : PlannedStep) (tool profile : Option Text)
    → step.tool ≡ tool
    → step.profile ≡ profile
    → check_tool registry step tool profile ≡ ok checked
    → IsGrounded registry checked
unfolding check_tool
check_tool-IsGrounded registry step checked none none t p h =
    let same : step ≡ checked = ground arith in subst (IsGrounded registry) same (untooled t p)
check_tool-IsGrounded registry step checked none (some profile) t p h = absurd (ground arith)
check_tool-IsGrounded registry step checked (some name) profile t p h =
    let found = get name (ai_allowed_tools registry) in
    let same : check_named name step found ≡ checked = ground arith in
    subst (IsGrounded registry) same (check_named-IsGrounded registry name step found refl)

check_step-IsGrounded :
    (registry : Registry) (step checked : PlannedStep)
    → check_step registry step ≡ ok checked
    → IsGrounded registry checked
unfolding check_step
check_step-IsGrounded registry step checked h =
    check_tool-IsGrounded registry step checked step.tool step.profile refl refl h

prepend-IsGrounded :
    (registry : Registry) (step : PlannedStep) (later : Result PlanError (List PlannedStep))
    (planned : List PlannedStep)
    → IsGrounded registry step
    → ((rest : List PlannedStep) → later ≡ ok rest → All (IsGrounded registry) rest)
    → prepend step later ≡ ok planned
    → All (IsGrounded registry) planned
prepend-IsGrounded registry step (err e) planned g later h = absurd (ground arith)
prepend-IsGrounded registry step (ok rest) planned g later h =
    let same : step ∷ rest ≡ planned = ground arith in
    subst (All (IsGrounded registry)) same (g, later rest refl)

pub check_steps-IsGrounded :
    (registry : Registry) (raw_steps : List (Option PlannedStep)) (planned : List PlannedStep)
    → check_steps registry raw_steps ≡ ok planned
    → All (IsGrounded registry) planned
unfolding check_steps
check_steps-IsGrounded registry [] planned h =
    let same : [] ≡ planned = ground arith in subst (All (IsGrounded registry)) same tt
check_steps-IsGrounded registry (none ∷ rest) planned h =
    check_steps-IsGrounded registry rest planned h
check_steps-IsGrounded registry (some step ∷ rest) planned h =
    let later = check_steps registry rest in
    let (checked, c, p) =
      >>=-eq-ok (check_step registry step) (λ checked. prepend checked later) h in
    prepend-IsGrounded registry checked later planned
      (check_step-IsGrounded registry step checked c) (check_steps-IsGrounded registry rest) p

-- A step that names a profile and no tool.
abbrev pub is_unprovided : Option PlannedStep → Bool
is_unprovided none = false
is_unprovided (some step) = not (is_some step.tool) && is_some step.profile

check_tool-missing :
    (registry : Registry) (step : PlannedStep) (tool profile : Option Text)
    → (not (is_some tool) && is_some profile) ≡ true
    → check_tool registry step tool profile ≡ err missing_tool
unfolding check_tool
check_tool-missing registry step none none h = absurd (ground arith)
check_tool-missing registry step none (some profile) h = refl
check_tool-missing registry step (some name) profile h = absurd (ground arith)

check_tool-provided :
    (registry : Registry) (step : PlannedStep) (tool profile : Option Text)
    → (not (is_some tool) && is_some profile) ≡ false
    → (checked : PlannedStep) × (check_tool registry step tool profile ≡ ok checked)
unfolding check_tool
check_tool-provided registry step none none h = (step, refl)
check_tool-provided registry step none (some profile) h = absurd (ground arith)
check_tool-provided registry step (some name) profile h = (_, refl)

pub check_steps-missing :
    (registry : Registry) (raw_steps : List (Option PlannedStep))
    → any is_unprovided raw_steps ≡ true
    → check_steps registry raw_steps ≡ err missing_tool
unfolding check_steps check_step
check_steps-missing registry [] h = absurd (ground arith)
check_steps-missing registry (none ∷ rest) h = check_steps-missing registry rest h
check_steps-missing registry (some step ∷ rest) h = elim (Bool-cases (is_unprovided (some step))) [
  | inl e ↦ rw (check_tool-missing registry step step.tool step.profile e) refl
  | inr e ↦
      let (checked, c) = check_tool-provided registry step step.tool step.profile e in
      rw (c, check_steps-missing registry rest (ground arith)) refl
]

pub check_steps-provided :
    (registry : Registry) (raw_steps : List (Option PlannedStep))
    → any is_unprovided raw_steps ≡ false
    → (planned : List PlannedStep) × (check_steps registry raw_steps ≡ ok planned)
unfolding check_steps check_step
check_steps-provided registry [] h = ([], refl)
check_steps-provided registry (none ∷ rest) h = check_steps-provided registry rest h
check_steps-provided registry (some step ∷ rest) h =
    let (checked, c) = check_tool-provided registry step step.tool step.profile (ground arith) in
    let (planned, p) = check_steps-provided registry rest (ground arith) in
    (checked ∷ planned, rw (c, p) refl)

-- ===== src/Jobs/Service.antt =====
-- backend/app/jobs/service.py: how each creator of jobs resolves a tool, a profile, options and a
-- target into arguments and a timeout.
use cyberlab_kali.Base.{
  ℕ, ◌≤◌, ◌≡◌, Option, none, some, Text, List, [], codes, Dict, lookup, insert, merge, min, or_else,
  lookup-insert_self, Result, ok, ◌>>=◌, ◌>>◌, >>=-eq-ok, arith, subst,
}
use cyberlab_kali.Tools.Schema.{Value, text, ToolDefinition}
use cyberlab_kali.Tools.Registry.{
  ToolError, Parsers, Registry, get_tool, get_profile, effective_timeout, build_command,
  base_timeout,
}

pub record PreparedJob : Type 0 where
  pub full_params : Dict Value
  pub effective_timeout : ℕ

profile_args : ToolDefinition → Option Text → Result ToolError (Dict Value)
profile_args tool none = ok []
profile_args tool (some profile) = do profile_def ← get_profile tool profile; ok profile_def.args

-- `{**profile_args, **options, "target": target_address}`
abbrev full_params_of : (preset options : Dict Value) → Text → Dict Value
full_params_of preset options target_address =
    insert (codes "target") (text target_address) (merge preset options)

unfoldable pub prepare_job :
    Parsers
    → Registry
    → (tool_name : Text) → (profile : Option Text) → (options : Dict Value)
    → (target_address : Text) → (requested_timeout : Option ℕ) → Result ToolError PreparedJob
unfolding profile_args
prepare_job parsers registry tool_name profile options target_address requested_timeout = do
  tool ← get_tool registry tool_name
  preset ← profile_args tool profile
  build_command parsers registry tool_name (full_params_of preset options target_address) none
  timeout ← effective_timeout tool profile requested_timeout
  ok (record {
    full_params = full_params_of preset options target_address;
    effective_timeout = timeout;
  })

effective_timeout-le :
    (tool : ToolDefinition) (profile : Option Text) (requested : Option ℕ) (n : ℕ)
    → effective_timeout tool profile requested ≡ ok n
    → n ≤ tool.max_timeout
unfolding effective_timeout
effective_timeout-le tool profile requested n h =
    let capped : ℕ → Result ToolError ℕ =
      λ base. ok (min (or_else requested base) tool.max_timeout) in
    let (base, e, f) = >>=-eq-ok (base_timeout tool profile) capped h in
    let same : min (or_else requested base) tool.max_timeout ≡ n = ground arith in omega arith

-- What a successful preparation promises to the callers that create a job from it.
pub record IsPrepared (parsers : Parsers) (registry : Registry) (tool_name target_address : Text)
    (prepared : PreparedJob) : Type 0 where
  pub tool : ToolDefinition
  pub registered : get_tool registry tool_name ≡ ok tool
  pub targeted : lookup (codes "target") prepared.full_params ≡ some (text target_address)
  pub items : List (Option Text)
  pub valid : build_command parsers registry tool_name prepared.full_params none ≡ ok items
  pub in_time : prepared.effective_timeout ≤ tool.max_timeout

-- What prepare_job returns names a registered tool, has the given address as its target argument
-- whatever the profile and the options hold, is accepted by build_command again, and has a timeout
-- within the maximum of the tool.
pub prepare_job-IsPrepared :
    (parsers : Parsers) (registry : Registry) (tool_name : Text) (profile : Option Text)
    (options : Dict Value) (target_address : Text) (requested_timeout : Option ℕ)
    (prepared : PreparedJob)
    → prepare_job parsers registry tool_name profile options target_address requested_timeout
      ≡ ok prepared
    → IsPrepared parsers registry tool_name target_address prepared
unfolding prepare_job
prepare_job-IsPrepared parsers registry tool_name profile options target_address requested prepared
      h =
    let build : Dict Value → Result ToolError (List (Option Text)) =
      λ params. build_command parsers registry tool_name params none in
    let done : Dict Value → ℕ → Result ToolError PreparedJob =
      λ params t. ok (record { full_params = params; effective_timeout = t }) in
    let (tool, found, h₁) =
      >>=-eq-ok (get_tool registry tool_name)
        (λ tool. profile_args tool profile >>= λ preset.
          build (full_params_of preset options target_address) >>= λ _.
          effective_timeout tool profile requested
          >>= done (full_params_of preset options target_address))
        h in
    let (preset, e, h₂) =
      >>=-eq-ok (profile_args tool profile)
        (λ preset. build (full_params_of preset options target_address) >>= λ _.
          effective_timeout tool profile requested
          >>= done (full_params_of preset options target_address))
        h₁ in
    let params = full_params_of preset options target_address in
    let (items, built, h₃) =
      >>=-eq-ok (build params) (λ _. effective_timeout tool profile requested >>= done params) h₂ in
    let (t, timed, h₄) = >>=-eq-ok (effective_timeout tool profile requested) (done params) h₃ in
    let same : (record { full_params = params; effective_timeout = t }) ≡ prepared = ground arith in
    subst (IsPrepared parsers registry tool_name target_address) same (record {
      tool = tool;
      registered = found;
      targeted = lookup-insert_self (codes "target") (text target_address) (merge preset options);
      items = items;
      valid = built;
      in_time = effective_timeout-le tool profile requested t timed;
    })

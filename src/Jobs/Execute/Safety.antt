-- ===== src/Jobs/Execute/Safety.antt =====
-- When the worker runs a tool, and with what.
use cyberlab_kali.Base.{
  ℕ, min, ◌≡◌, ◌≤◌, subst, true, false, Option, none, some, List, Text, Dict, or_else, Result, ok,
  err, ◌>>=◌, >>=-eq-ok, All, arith, Bool-cases, Option-cases, inl, inr,
}
use cyberlab_kali.Targets.{Asset, is_executable}
use cyberlab_kali.Tools.Schema.{Value, ToolDefinition}
use cyberlab_kali.Tools.Registry.{ToolError, get_tool, build_command}
use cyberlab_kali.Tools.Registry.Safety.{IsPermitted, build_command-IsPermitted}
use cyberlab_kali.Models.{World}
use cyberlab_kali.Models.Job.{running, agent_failed, unexpected, JobError, JobRow}
use cyberlab_kali.Jobs.Execute.{
  RunResult, answered, agent_error, crashed, Worker, Run, save_job, check_authorization, lift,
  plan_run, is_cancelled, record_failure, record_answer, settle_run, run_announced, run_started,
  execute_job,
}
use cyberlab_kali.Jobs.Execute.Outcome.{Result-cases}

-- A run of a tool for a job that asks for it: the registered asset of the job, if it has one, is
-- executable as the tool is about to start; the tool is registered, every item of its command line
-- is permitted, and its timeout is within its maximum.
pub record IsLicensed (worker : Worker) (tool_name : Text) (w : World) (job : JobRow) (run : Run)
    : Type 0 where
  pub authorized :
      (id : ℕ)
      → job.target_id ≡ some id
      → (asset : Asset) × (w.db.assets id ≡ some asset) × (is_executable asset ≡ true)
  pub registered : get_tool worker.env.registry tool_name ≡ ok run.tool
  pub permitted : All (IsPermitted run.tool) run.args
  pub in_time : run.timeout ≤ run.tool.max_timeout

check_authorization_sound :
    (w : World) (job : JobRow) (u : Unit {0}) (id : ℕ)
    → check_authorization w job ≡ ok u
    → job.target_id ≡ some id
    → (asset : Asset) × (w.db.assets id ≡ some asset) × (is_executable asset ≡ true)
unfolding check_authorization
check_authorization_sound w job u id h e = elim (Option-cases (w.db.assets id)) [
  | inl f ↦ absurd (ground (arith, e, f))
  | inr (asset, f) ↦ (asset, f, ground (arith, e, f))
]

lift_ok {ℓ} : {A : Type ℓ} (r : Result ToolError A) (a : A) → lift r ≡ ok a → r ≡ ok a
lift_ok (ok x) a h = ground arith
lift_ok (err e) a h = absurd (ground arith)

module _ (worker : Worker) (tool_name : Text) (params : Dict Value) (timeout : Option ℕ) where
  plan_run-IsLicensed :
      (w : World) (job : JobRow) (run : Run)
      → plan_run worker tool_name params timeout w job ≡ ok run
      → IsLicensed worker tool_name w job run
  unfolding plan_run
  plan_run-IsLicensed w job run h =
      let limit : ToolDefinition → ℕ = λ t. min (or_else timeout t.default_timeout) t.max_timeout in
      let finish : ToolDefinition → List (Option Text) → Result JobError Run =
        λ t a. ok (record { tool = t; args = a; timeout = limit t }) in
      let build = build_command worker.env.parsers worker.env.registry tool_name params none in
      let find_tool = get_tool worker.env.registry tool_name in
      let (u, checked, h₁) =
        >>=-eq-ok (check_authorization w job) (λ _. lift find_tool >>= λ t. lift build >>= finish t)
          h in
      let (tool, found, h₂) = >>=-eq-ok (lift find_tool) (λ t. lift build >>= finish t) h₁ in
      let (args, built, h₃) = >>=-eq-ok (lift build) (finish tool) h₂ in
      let registered = lift_ok find_tool tool found in
      let (tool', found', permitted) =
        build_command-IsPermitted worker.env.parsers worker.env.registry tool_name params none args
          (lift_ok build args built) in
      let one : tool' ≡ tool = ground arith in
      let same : (record { tool = tool; args = args; timeout = limit tool }) ≡ run = ground arith in
      subst (IsLicensed worker tool_name w job) same (record {
        authorized = λ id e. check_authorization_sound w job u id checked e;
        registered = registered;
        permitted = subst (λ t. All (IsPermitted t) args) one permitted;
        in_time = omega arith;
      })

  record_failure-ran :
      (ran : Option Run) (error : JobError) (id : ℕ) (w : World)
      → (record_failure worker ran error id w).ran ≡ ran
  unfolding record_failure
  record_failure-ran ran error id w = ground arith

  settle_run-ran :
      (run : Run) (result : RunResult) (id : ℕ) (w : World)
      → (settle_run worker run result id w).ran ≡ some run
  unfolding settle_run record_answer
  settle_run-ran run (answered stdout exit_code) id w = ground arith
  settle_run-ran run (agent_error e) id w =
      record_failure-ran (some run) (agent_failed e) id (worker.meanwhile w)
  settle_run-ran run (crashed e) id w =
      record_failure-ran (some run) (unexpected e) id (worker.meanwhile w)

  -- The worker runs a tool only for a stored job that is not cancelled, with a registered tool, an
  -- executable asset if the job has one, permitted arguments and a timeout within the maximum of
  -- the tool, all checked as the job starts.
  pub execute_job-IsLicensed :
      (id : ℕ) (w : World) (run : Run)
      → (execute_job worker id tool_name params timeout w).ran ≡ some run
      → (job : JobRow) × (w.db.jobs id ≡ some job)
        × (is_cancelled job.status ≡ false)
        × IsLicensed worker tool_name w job run
  unfolding execute_job run_started run_announced
  execute_job-IsLicensed id w run h = elim (Option-cases (w.db.jobs id)) [
    | inl e ↦ absurd (ground (arith, e))
    | inr (job, e) ↦ elim (Bool-cases (is_cancelled job.status)) [
      | inl c ↦ absurd (ground (arith, e, c))
      | inr c ↦ elim (Bool-cases worker.publishes_start) [
        | inr quiet ↦ absurd (ground (arith, e, c, quiet))
        | inl announced ↦
            let started = record job { status = running; started_at = some worker.env.now } in
            let w₁ = save_job w started in
            elim (Result-cases (plan_run worker tool_name params timeout w₁ started)) [
              | inl (x, f) ↦ absurd (
                  ground
                    (arith, e, c, announced, f, record_failure-ran none x id (worker.meanwhile w₁)))
              | inr (r, f) ↦
                  let same : r ≡ run = ground (
                    arith,
                    e,
                    c,
                    announced,
                    f,
                    settle_run-ran r (worker.run_tool tool_name r.args r.timeout) id w₁,
                  ) in
                  let licence = plan_run-IsLicensed w₁ started run (rw same at f) in
                  (
                    job,
                    e,
                    c,
                    record {
                      authorized = licence.authorized;
                      registered = licence.registered;
                      permitted = licence.permitted;
                      in_time = licence.in_time;
                    },
                  )
            ]
      ]
    ]
  ]

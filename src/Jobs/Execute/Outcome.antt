-- ===== src/Jobs/Execute/Outcome.antt =====
-- Where an execution leaves its job, and when the tool is run.
use cyberlab_kali.Base.{
  ℕ, ◌≡◌, ◌⊎◌, refl, subst, Bool, true, false, Option, none, some, Text, Dict, put_self, Result, ok,
  err, arith, Bool-cases, inl, inr,
}
use cyberlab_kali.Tools.Schema.{ℤ, Value}
use cyberlab_kali.Models.{World}
use cyberlab_kali.Models.Job.{running, JobError, agent_failed, unexpected, JobRow, is_terminal}
use cyberlab_kali.Jobs.Execute.{
  Analysis, completed, raised, session_broken, RunResult, answered, agent_error, crashed, Worker,
  Run, save_job, plan_run, is_cancelled, record_failure, finished_row, record_answer, settle_run,
  published, run_announced, run_started, execute_job,
}

-- Each row of the table of jobs stands under its own id.
abbrev pub IsKeyed : World → Type 0
IsKeyed w = (id : ℕ) (job : JobRow) → w.db.jobs id ≡ some job → job.id ≡ id

-- The job is stored, in a terminal status.
abbrev pub IsOver : World → ℕ → Type 0
IsOver w id = (job : JobRow) × (w.db.jobs id ≡ some job) × (is_terminal job.status ≡ true)

save_job-IsOver :
    (w : World) (id : ℕ) (job : JobRow)
    → job.id ≡ id
    → is_terminal job.status ≡ true
    → IsOver (save_job w job) id
save_job-IsOver w id job key t =
    subst (λ k. IsOver (save_job w job) k) key (job, put_self w.db.jobs job.id job, t)

cancelled_terminal : (job : JobRow) → is_cancelled job.status ≡ true → is_terminal job.status ≡ true
cancelled_terminal job h = ground arith

-- The session is usable after the analysis.
abbrev pub is_usable : Analysis → Bool
is_usable session_broken = false
is_usable _ = true

-- No analysis of the worker breaks its session.
abbrev pub KeepsSession : Worker → Type 0
KeepsSession worker = (job : JobRow) (w : World) → is_usable (worker.analyse job w) ≡ true

kept_session :
    (a : Analysis)
    → is_usable a ≡ true
    → ((w : World) × (a ≡ completed w)) ⊎ ((w : World) × (a ≡ raised w))
kept_session (completed w) h = inl (w, refl)
kept_session (raised w) h = inr (w, refl)
kept_session session_broken h = absurd (ground arith)

published-IsOver :
    (worker : Worker) (run : Run) (id : ℕ) (done : JobRow) (w : World)
    → done.id ≡ id
    → is_terminal done.status ≡ true
    → IsOver (published worker run done w).world id
published-IsOver worker run id done w key over = elim (Bool-cases worker.publishes_end) [
  | inl p ↦ rw p (save_job-IsOver w id done key over)
  | inr p ↦ rw p (save_job-IsOver (save_job w done) id _ key refl)
]

module _ (worker : Worker) (usable : KeepsSession worker) (id : ℕ) (w : World) (keyed : IsKeyed w)
    (job : JobRow) (stored : w.db.jobs id ≡ some job) where
  record_failure-IsOver :
      (ran : Option Run) (error : JobError) → IsOver (record_failure worker ran error id w).world id
  unfolding record_failure
  record_failure-IsOver ran error = elim (Bool-cases (is_cancelled job.status)) [
    | inl c ↦ rw (stored, record_failure) (rw c (job, stored, cancelled_terminal job c))
    | inr c ↦ rw (stored, record_failure) (rw c (save_job-IsOver w id _ (keyed id job stored) refl))
  ]

  record_answer-IsOver :
      (run : Run) (stdout : Option Text) (exit_code : Option ℤ)
      → IsOver (record_answer worker run stdout exit_code id w).world id
  unfolding record_answer
  record_answer-IsOver run stdout exit_code =
      let done = finished_row worker run stdout exit_code job in
      let over : is_terminal done.status ≡ true = ground arith in
      elim (Bool-cases (is_cancelled job.status)) [
        | inl c ↦ rw (stored, record_answer) (rw c (job, stored, cancelled_terminal job c))
        | inr c ↦
            elim (kept_session (worker.analyse done (save_job w done))
              (usable done (save_job w done))) [
                | inl (w', a) ↦
                    rw (stored, record_answer)
                      (rw c (
                        rw (a, record_answer)
                          (published-IsOver worker run id done w' (keyed id job stored) over)))
                | inr (w', a) ↦
                    rw (stored, record_answer)
                      (rw c (
                        rw (a, record_answer) (save_job-IsOver w' id _ (keyed id job stored) refl)))
              ]
      ]

-- What is asked of the others who work on the database while the tool runs: rows keep their ids,
-- and the row of the job is not deleted.
pub record IsPolite (worker : Worker) (id : ℕ) : Type 0 where
  pub keeps_ids : (w : World) → IsKeyed w → IsKeyed (worker.meanwhile w)
  pub keeps_row :
      (w : World) (job : JobRow)
      → w.db.jobs id ≡ some job
      → (job' : JobRow) × ((worker.meanwhile w).db.jobs id ≡ some job')

settle_run-IsOver :
    (worker : Worker) (run : Run) (result : RunResult) (id : ℕ) (w : World) (job : JobRow)
    → KeepsSession worker
    → IsKeyed (worker.meanwhile w)
    → (worker.meanwhile w).db.jobs id ≡ some job
    → IsOver (settle_run worker run result id w).world id
unfolding settle_run
settle_run-IsOver worker run (answered stdout exit_code) id w job usable keyed stored =
    record_answer-IsOver worker usable id (worker.meanwhile w) keyed job stored run stdout exit_code
settle_run-IsOver worker run (agent_error e) id w job usable keyed stored =
    record_failure-IsOver worker usable id (worker.meanwhile w) keyed job stored (some run)
      (agent_failed e)
settle_run-IsOver worker run (crashed e) id w job usable keyed stored =
    record_failure-IsOver worker usable id (worker.meanwhile w) keyed job stored (some run)
      (unexpected e)

pub Result-cases {ℓ κ} :
    {E : Type κ} {A : Type ℓ} (r : Result E A) → ((e : E) × (r ≡ err e)) ⊎ ((a : A) × (r ≡ ok a))
Result-cases (ok a) = inr (a, refl)
Result-cases (err e) = inl (e, refl)

module _ (worker : Worker) (id : ℕ) (tool_name : Text) (params : Dict Value)
    (timeout : Option ℕ) where
  run_announced-IsOver :
      (started : JobRow) (w : World) (job : JobRow)
      → KeepsSession worker
      → IsKeyed (worker.meanwhile w)
      → (worker.meanwhile w).db.jobs id ≡ some job
      → IsOver (run_announced worker id tool_name params timeout started w).world id
  unfolding run_announced
  run_announced-IsOver started w job usable keyed stored =
      elim (Result-cases (plan_run worker tool_name params timeout w started)) [
        | inl (e, f) ↦
            rw (f, run_announced)
              (record_failure-IsOver worker usable id (worker.meanwhile w) keyed job stored none e)
        | inr (run, f) ↦
            rw (f, run_announced)
              (settle_run-IsOver worker run (worker.run_tool tool_name run.args run.timeout) id w
                job usable keyed stored)
      ]

  run_started-IsOver :
      (started : JobRow) (w : World) (job : JobRow)
      → worker.publishes_start ≡ true
      → KeepsSession worker
      → IsKeyed (worker.meanwhile w)
      → (worker.meanwhile w).db.jobs id ≡ some job
      → IsOver (run_started worker id tool_name params timeout started w).world id
  unfolding run_started
  run_started-IsOver started w job announced usable keyed stored =
      rw announced (run_announced-IsOver started w job usable keyed stored)

  -- An execution leaves its job in a terminal status, whether it returns or raises, and whatever
  -- the agent answers: if the database takes the commits, the first publication, behind the commit of
  -- RUNNING, does not raise, the rows have their ids, nobody deletes the row of the job meanwhile, and
  -- the analysis, though it may raise, does not break the session.
  pub execute_job-IsOver :
      (w : World) (job : JobRow)
      → worker.publishes_start ≡ true
      → KeepsSession worker
      → IsPolite worker id
      → IsKeyed w
      → w.db.jobs id ≡ some job
      → IsOver (execute_job worker id tool_name params timeout w).world id
  unfolding execute_job
  execute_job-IsOver w job announced usable polite keyed stored =
      elim (Bool-cases (is_cancelled job.status)) [
        | inl c ↦ rw (stored, execute_job) (rw c (job, stored, cancelled_terminal job c))
        | inr c ↦
            let started = record job { status = running; started_at = some worker.env.now } in
            let w₁ = save_job w started in
            let key : IsKeyed w₁ = λ k j e. ground (arith, keyed k j) in
            let at_id : w₁.db.jobs id ≡ some started =
              subst (λ k. w₁.db.jobs k ≡ some started) (keyed id job stored)
                (put_self w.db.jobs job.id started) in
            let (job', kept) = polite.keeps_row w₁ started at_id in
            rw (stored, execute_job)
              (rw c (
                run_started-IsOver started w₁ job' announced usable (polite.keeps_ids w₁ key) kept))
      ]

  record_failure-cancelled :
      (ran : Option Run) (error : JobError) (w : World) (job : JobRow)
      → w.db.jobs id ≡ some job
      → is_cancelled job.status ≡ true
      → (record_failure worker ran error id w).world ≡ w
  unfolding record_failure
  record_failure-cancelled ran error w job stored c = rw (stored, record_failure) (rw c)

  settle_run-cancelled :
      (run : Run) (result : RunResult) (w : World) (job : JobRow)
      → (worker.meanwhile w).db.jobs id ≡ some job
      → is_cancelled job.status ≡ true
      → (settle_run worker run result id w).world ≡ worker.meanwhile w
  unfolding settle_run record_answer
  settle_run-cancelled run (answered stdout exit_code) w job stored c =
      rw (stored, record_answer) (rw c)
  settle_run-cancelled run (agent_error e) w job stored c =
      record_failure-cancelled (some run) (agent_failed e) (worker.meanwhile w) job stored c
  settle_run-cancelled run (crashed e) w job stored c =
      record_failure-cancelled (some run) (unexpected e) (worker.meanwhile w) job stored c

  -- Where others cancel a started job while its tool runs, the worker writes nothing after that.
  pub execute_job-cancelled :
      (w : World) (job job' : JobRow)
      → w.db.jobs id ≡ some job
      → is_cancelled job.status ≡ false
      → let started = record job { status = running; started_at = some worker.env.now } in
        let w₁ = save_job w started in
        (worker.meanwhile w₁).db.jobs id ≡ some job'
        → is_cancelled job'.status ≡ true
        → (execute_job worker id tool_name params timeout w).world ≡ worker.meanwhile w₁
  unfolding execute_job run_started run_announced
  execute_job-cancelled w job job' stored live found c =
      let started = record job { status = running; started_at = some worker.env.now } in
      let w₁ = save_job w started in
      elim (Bool-cases worker.publishes_start) [
        | inr quiet ↦ rw (stored, execute_job) (rw live (rw quiet refl))
        | inl announced ↦
            elim (Result-cases (plan_run worker tool_name params timeout w₁ started)) [
              | inl (e, f) ↦
                  rw (stored, execute_job)
                    (rw live (
                      rw announced (
                        rw (f, run_announced)
                          (record_failure-cancelled none e (worker.meanwhile w₁) job' found c))))
              | inr (run, f) ↦
                  rw (stored, execute_job)
                    (rw live (
                      rw announced
                        (rw (f, run_announced) (settle_run-cancelled run _ w₁ job' found c))))
            ]
      ]

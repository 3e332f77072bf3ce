-- ===== src/Reconciliation/Jobs.antt =====
-- Which jobs the sweep resolves, and that a second one has nothing left to do.
use cyberlab_kali.Base.{
  ℕ, ◌<◌, ◌≡◌, ◌⊎◌, inl, inr, refl, sym, ap, subst, ◌==◌, ==_refl, true, ◌&&◌, any, any-keep,
  Bool-cases, some, Option-cases, List, [], ◌∷◌, All, put_self, keep-All_both, All-map, scan,
  scan-All, scan-any, arith,
}
use cyberlab_kali.Models.{World}
use cyberlab_kali.Models.Job.{JobRow}
use cyberlab_kali.Reconciliation.{
  Fetched, missing, present, unreachable, Swept, add_id, is_stuck, resolved, resolve, reconcile_job,
  reconcile_jobs, stuck_jobs, reconcile_stuck_jobs,
}

-- Each job stands under its own id, which was given out.
pub record IsIndexed (w : World) : Type 0 where
  pub keyed : (id : ℕ) (job : JobRow) → w.db.jobs id ≡ some job → job.id ≡ id
  pub bounded : (id : ℕ) (job : JobRow) → w.db.jobs id ≡ some job → id < w.db.next_job

module _ (now stuck_after : ℕ) (fetch : ℕ → Fetched) where
  -- What a sweep does to one row: nothing, or it ends a stuck job that RQ knows nothing of.
  abbrev pub Sweeps : World → World → ℕ → Type 0
  Sweeps before after id =
      (after.db.jobs id ≡ before.db.jobs id)
      ⊎ ((job : JobRow) × (before.db.jobs id ≡ some job)
          × (is_stuck now stuck_after job ≡ true)
          × (fetch id ≡ missing)
          × (after.db.jobs id ≡ some (resolved now stuck_after job)))

  -- All rows, with the rest of the world as it was.
  pub record IsReconciled (before after : World) : Type 0 where
    pub rows : (id : ℕ) → Sweeps before after id
    pub rest : after ≡ record before { db = record before.db { jobs = after.db.jobs } }

  abbrev IsCandidate : World → JobRow → Type 0
  IsCandidate before job =
      (before.db.jobs job.id ≡ some job) × (is_stuck now stuck_after job ≡ true)

  resolve-IsReconciled :
      (before w : World) (job : JobRow)
      → IsCandidate before job
      → fetch job.id ≡ missing
      → IsReconciled before w
      → IsReconciled before (resolve now stuck_after job w)
  resolve-IsReconciled before w job c f h = record {
    rows = λ id. elim (Bool-cases (job.id == id)) [
      | inr e ↦ rw e (h.rows id)
      | inl e ↦
          let same : job.id ≡ id = ground arith in
          subst (Sweeps before (resolve now stuck_after job w)) same
            (inr (job, c.0, c.1, f, put_self w.db.jobs job.id (resolved now stuck_after job)))
    ];
    rest = ap (λ v. resolve now stuck_after job v) h.rest;
  }

  reconcile_job-IsReconciled :
      (before w : World) (job : JobRow) (found : Fetched) (next : World → Swept)
      → IsCandidate before job
      → fetch job.id ≡ found
      → ((v : World) → IsReconciled before v → IsReconciled before (next v).world)
      → IsReconciled before w
      → IsReconciled before (reconcile_job now stuck_after job found next w).world
  unfolding reconcile_job
  reconcile_job-IsReconciled before w job missing next c f step h =
      step (resolve now stuck_after job w) (resolve-IsReconciled before w job c f h)
  reconcile_job-IsReconciled before w job present next c f step h = step w h
  reconcile_job-IsReconciled before w job unreachable next c f step h = h

  reconcile_jobs-IsReconciled :
      (before : World) (jobs : List JobRow) (w : World)
      → All (IsCandidate before) jobs
      → IsReconciled before w
      → IsReconciled before (reconcile_jobs now stuck_after fetch jobs w).world
  unfolding reconcile_jobs
  reconcile_jobs-IsReconciled before [] w all h = h
  reconcile_jobs-IsReconciled before (job ∷ rest) w all h =
      reconcile_job-IsReconciled before w job (fetch job.id)
        (reconcile_jobs now stuck_after fetch rest) all.0 refl
        (λ v k. reconcile_jobs-IsReconciled before rest v all.1 k) h

  stuck_jobs-IsCandidate :
      (w : World) → IsIndexed w → All (IsCandidate w) (stuck_jobs now stuck_after w)
  stuck_jobs-IsCandidate w h =
      keep-All_both (λ job. w.db.jobs job.id ≡ some job) (is_stuck now stuck_after)
        (scan w.db.jobs w.db.next_job)
        (scan-All (λ job. w.db.jobs job.id ≡ some job) w.db.jobs w.db.next_job
          (λ id job e. subst (λ k. w.db.jobs k ≡ some job) (sym (h.keyed id job e)) e))

  -- The sweep for lost jobs, whether it returns or raises on the way, leaves each row of the jobs as
  -- it was, or ends it as failed, and then the job was queued or running, created longer ago than the
  -- limit, and unknown to RQ. Nothing else in the database or the queue changes.
  pub reconcile_stuck_jobs-IsReconciled :
      (w : World)
      → IsIndexed w
      → IsReconciled w (reconcile_stuck_jobs now stuck_after fetch w).world
  unfolding reconcile_stuck_jobs
  reconcile_stuck_jobs-IsReconciled w h =
      reconcile_jobs-IsReconciled w (stuck_jobs now stuck_after w) w (stuck_jobs-IsCandidate w h)
        (record { rows = λ id. inl refl; rest = refl })

  -- A stuck job is one that RQ has an entry for, or is still among those to come.
  abbrev IsAwaited : List JobRow → World → Type 0
  IsAwaited jobs w =
      (id : ℕ)
      → (job : JobRow) → w.db.jobs id ≡ some job
      → is_stuck now stuck_after job ≡ true
      → (fetch job.id ≡ present) ⊎ (any (λ c. c.id == job.id) jobs ≡ true)

  record IsUnderway (jobs : List JobRow) (w : World) : Type 0 where
    indexed : IsIndexed w
    awaited : IsAwaited jobs w

  resolve-IsIndexed :
      (w : World) (job : JobRow)
      → job.id < w.db.next_job
      → IsIndexed w
      → IsIndexed (resolve now stuck_after job w)
  resolve-IsIndexed w job e h = record {
    keyed = λ id row r. ground (arith, h.keyed id row);
    bounded = λ id row r. ground (arith, h.bounded id row);
  }

  acted_before :
      (id : ℕ) (swept : Swept) (ids : List ℕ)
      → (add_id id swept).acted ≡ some ids
      → (rest : List ℕ) × (swept.acted ≡ some rest)
  acted_before id swept ids h = elim (Option-cases swept.acted) [
    | inr found ↦ found
    | inl e ↦ absurd (ground (arith, e))
  ]

  resolve-IsUnderway :
      (w : World) (job : JobRow) (rest : List JobRow)
      → job.id < w.db.next_job
      → IsUnderway (job ∷ rest) w
      → IsUnderway rest (resolve now stuck_after job w)
  resolve-IsUnderway w job rest b h = record {
    indexed = resolve-IsIndexed w job b h.indexed;
    awaited = λ id row r t. elim (Bool-cases (job.id == id)) [
      | inl e ↦
          let same : resolved now stuck_after job ≡ row = ground arith in
          absurd (ground (arith, ap (λ x. x.status) same))
      | inr e ↦
          let old : w.db.jobs id ≡ some row = ground arith in
          let key = h.indexed.keyed id row old in
          elim (h.awaited id row old t) [ inl p ↦ inl p | inr a ↦ inr (ground arith) ]
    ];
  }

  pass-IsUnderway :
      (w : World) (job : JobRow) (rest : List JobRow)
      → fetch job.id ≡ present
      → IsUnderway (job ∷ rest) w
      → IsUnderway rest w
  pass-IsUnderway w job rest f h = record {
    indexed = h.indexed;
    awaited = λ id row r t. elim (h.awaited id row r t) [
      | inl p ↦ inl p
      | inr a ↦ elim (Bool-cases (job.id == row.id)) [
        | inr e ↦ inr (ground arith)
        | inl e ↦
            let same : job.id ≡ row.id = ground arith in inl (subst (λ k. fetch k ≡ present) same f)
      ]
    ];
  }

  -- The candidates and the world that are left to the loop.
  record IsReady (jobs : List JobRow) (w : World) : Type 0 where
    bounded : All (λ job. job.id < w.db.next_job) jobs
    underway : IsUnderway jobs w

  abbrev Finishes : List JobRow → (World → Swept) → Type 0
  Finishes jobs next =
      (w : World)
      → (ids : List ℕ) → IsReady jobs w
      → (next w).acted ≡ some ids
      → IsUnderway [] (next w).world

  reconcile_job-Finishes :
      (job : JobRow) (rest : List JobRow) (found : Fetched) (next : World → Swept)
      → fetch job.id ≡ found
      → Finishes rest next
      → Finishes (job ∷ rest) (reconcile_job now stuck_after job found next)
  unfolding reconcile_job
  reconcile_job-Finishes job rest missing next f step w ids h returned =
      let w' = resolve now stuck_after job w in
      let (later, e) = acted_before job.id (next w') ids returned in
      step w' later
        (record {
          bounded = h.bounded.1;
          underway = resolve-IsUnderway w job rest h.bounded.0 h.underway;
        })
        e
  reconcile_job-Finishes job rest present next f step w ids h returned =
      step w ids
        (record { bounded = h.bounded.1; underway = pass-IsUnderway w job rest f h.underway })
        returned
  reconcile_job-Finishes job rest unreachable next f step w ids h returned = absurd (ground arith)

  reconcile_jobs-Finishes :
      (jobs : List JobRow) → Finishes jobs (reconcile_jobs now stuck_after fetch jobs)
  unfolding reconcile_jobs
  reconcile_jobs-Finishes [] w ids h returned = h.underway
  reconcile_jobs-Finishes (job ∷ rest) w ids h returned =
      reconcile_job-Finishes job rest (fetch job.id) (reconcile_jobs now stuck_after fetch rest)
        refl (reconcile_jobs-Finishes rest) w ids h returned

  -- Where RQ has an entry for each candidate, nothing is done.
  pub reconcile_jobs-idle :
      (jobs : List JobRow) (w : World)
      → All (λ job. fetch job.id ≡ present) jobs
      → reconcile_jobs now stuck_after fetch jobs w ≡ record { acted = some []; world = w }
  unfolding reconcile_jobs reconcile_job
  reconcile_jobs-idle [] w all = refl
  reconcile_jobs-idle (job ∷ rest) w all = rw (all.0) (reconcile_jobs-idle rest w all.1)

  stuck_jobs-IsReady : (w : World) → IsIndexed w → IsReady (stuck_jobs now stuck_after w) w
  stuck_jobs-IsReady w h = record {
    bounded =
        All-map (λ job. (job.id < w.db.next_job) × (is_stuck now stuck_after job ≡ true))
          (λ job. job.id < w.db.next_job) (stuck_jobs now stuck_after w) (λ job both. both.0)
          (keep-All_both (λ job. job.id < w.db.next_job) (is_stuck now stuck_after)
            (scan w.db.jobs w.db.next_job)
            (scan-All (λ job. job.id < w.db.next_job) w.db.jobs w.db.next_job
              (λ id job e. ground (arith, h.keyed id job e, h.bounded id job e))));
    underway = record {
      indexed = h;
      awaited = λ id job e t. inr (
          any-keep (λ c. c.id == job.id) (is_stuck now stuck_after) (scan w.db.jobs w.db.next_job)
            (scan-any (λ c. is_stuck now stuck_after c && (c.id == job.id)) w.db.jobs w.db.next_job
              id job e (h.bounded id job e) (ground (arith, t, ==_refl job.id))));
    };
  }

  -- Where a sweep for lost jobs returns, another one that finds Redis as it was, at the same moment
  -- and with the same limit, resolves nothing and changes nothing.
  pub reconcile_stuck_jobs-twice :
      (w : World) (ids : List ℕ)
      → IsIndexed w
      → (reconcile_stuck_jobs now stuck_after fetch w).acted ≡ some ids
      → let after = (reconcile_stuck_jobs now stuck_after fetch w).world in
        reconcile_stuck_jobs now stuck_after fetch after ≡ record { acted = some []; world = after }
  unfolding reconcile_stuck_jobs
  reconcile_stuck_jobs-twice w ids h returned =
      let after = (reconcile_stuck_jobs now stuck_after fetch w).world in
      let done =
        reconcile_jobs-Finishes (stuck_jobs now stuck_after w) w ids (stuck_jobs-IsReady w h)
          returned in
      reconcile_jobs-idle (stuck_jobs now stuck_after after) after (
        All-map
          (λ job.
            (is_stuck now stuck_after job ≡ true → fetch job.id ≡ present)
            × (is_stuck now stuck_after job ≡ true))
          (λ job. fetch job.id ≡ present) (stuck_jobs now stuck_after after)
          (λ job both. both.0 both.1)
          (keep-All_both (λ job. is_stuck now stuck_after job ≡ true → fetch job.id ≡ present)
            (is_stuck now stuck_after) (scan after.db.jobs after.db.next_job)
            (scan-All (λ job. is_stuck now stuck_after job ≡ true → fetch job.id ≡ present)
              after.db.jobs after.db.next_job
              (λ id job e t. elim (done.awaited id job e t) [
                | inl p ↦ p
                | inr a ↦ absurd (ground arith)
              ]))))

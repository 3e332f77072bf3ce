-- ===== src/Jobs/Routes/Authorized.antt =====
-- What a job that was created by hand is made of.
use cyberlab_kali.Base.{
  ℕ, ◌≡◌, ◌⊎◌, inl, inr, refl, subst, true, none, some, Text, Result, ok, err, arith, Bool-cases,
  Option-cases,
}
use cyberlab_kali.Targets.{
  Asset, address, infer_default_authorization, is_status_executable, is_executable,
}
use cyberlab_kali.Models.{Db, World}
use cyberlab_kali.Models.Job.{JobRow}
use cyberlab_kali.Jobs.Service.{PreparedJob, prepare_job, IsPrepared, prepare_job-IsPrepared}
use cyberlab_kali.Jobs.Creation.{Env, add_job, entry_for, enqueue}
use cyberlab_kali.Jobs.Execute.Outcome.{Result-cases}
use cyberlab_kali.Jobs.Routes.{
  RequestTarget, registered, free_text, JobCreateRequest, HttpError, Resolved, resolve_asset,
  resolve_text, resolve_target, job_of, add_and_enqueue, create_resolved, create_job,
}

-- The target may be scanned: it is the address of a registered asset that is executable, or a free
-- text whose inferred status is.
pub data MayScan (db : Db) : RequestTarget → Resolved → Type 0 where
  of_asset :
      (id : ℕ) (asset : Asset)
      → db.assets id ≡ some asset
      → is_executable asset ≡ true
      → MayScan db (registered id) (record {
        target_address = address asset;
        project_id = some asset.project_id;
        target_id = some asset.id;
      })
  of_text :
      (s : Text)
      → is_status_executable (infer_default_authorization (some s) none none) ≡ true
      → MayScan db
          (free_text s)
          (record { target_address = s; project_id = none; target_id = none })

-- A created job, and the world with it.
pub record IsCreated (env : Env) (request : JobCreateRequest) (w after : World) (job : JobRow)
    : Type 0 where
  pub target : Resolved
  pub may_scan : MayScan w.db request.target target
  pub prepared : PreparedJob
  pub prepares :
      prepare_job env.parsers env.registry request.tool request.profile request.options
        target.target_address request.timeout
      ≡ ok prepared
  pub checked : IsPrepared env.parsers env.registry request.tool target.target_address prepared
  pub made : job ≡ job_of env request target prepared w.db.next_job
  pub stored :
      after
      ≡ enqueue (record w { db = add_job w.db job }) (entry_for w.db.next_job request.tool prepared)

resolve_target-MayScan :
    (db : Db) (request : RequestTarget) (target : Resolved)
    → resolve_target db request ≡ ok target
    → MayScan db request target
unfolding resolve_target resolve_asset resolve_text
resolve_target-MayScan db (registered id) target = elim (Option-cases (db.assets id)) [
  | inl e ↦ rw (e, resolve_target) (λ h. absurd (ground arith))
  | inr (asset, e) ↦ elim (Bool-cases (is_executable asset)) [
    | inr x ↦ rw (e, resolve_target) (rw x (λ h. absurd (ground arith)))
    | inl x ↦
        rw (e, resolve_target)
          (rw x (λ h.
            let found : Resolved = record {
              target_address = address asset;
              project_id = some asset.project_id;
              target_id = some asset.id;
            } in
            let same : found ≡ target = ground arith in
            subst (MayScan db (registered id)) same (of_asset id asset e x)))
  ]
]
resolve_target-MayScan db (free_text s) target =
    elim (Bool-cases (is_status_executable (infer_default_authorization (some s) none none))) [
      | inr x ↦ rw x (λ h. absurd (ground arith))
      | inl x ↦ rw x (λ h.
          let found : Resolved = record {
            target_address = s;
            project_id = none;
            target_id = none;
          } in
          let same : found ≡ target = ground arith in
          subst (MayScan db (free_text s)) same (of_text s x))
    ]

-- The two ways in which a call can end.
abbrev pub Creates : Env → JobCreateRequest → World → Result HttpError JobRow × World → Type 0
Creates env request w o =
    ((e : HttpError) × (o ≡ (err e, w)))
    ⊎ ((job : JobRow) × (o.0 ≡ ok job) × IsCreated env request w o.1 job)

module _ (env : Env) (request : JobCreateRequest) (w : World) where
  create_resolved-Creates :
      (target : Resolved)
      → MayScan w.db request.target target
      → Creates env request w (create_resolved env request target w)
  unfolding create_resolved add_and_enqueue
  create_resolved-Creates target may =
      let prepare =
        prepare_job env.parsers env.registry request.tool request.profile request.options
          target.target_address request.timeout in
      elim (Result-cases prepare) [
        | inl (e, f) ↦ rw (f, create_resolved) (inl (_, refl))
        | inr (prepared, f) ↦ elim (Bool-cases env.redis_up) [
          | inr down ↦ rw (f, create_resolved) (rw down (inl (_, refl)))
          | inl up ↦
              rw (f, create_resolved)
                (rw up (
                  inr (
                    job_of env request target prepared w.db.next_job,
                    refl,
                    record {
                      target = target;
                      may_scan = may;
                      prepared = prepared;
                      prepares = f;
                      checked =
                          prepare_job-IsPrepared env.parsers env.registry request.tool
                            request.profile request.options target.target_address request.timeout
                            prepared f;
                      made = refl;
                      stored = refl;
                    },
                  )))
        ]
      ]

  -- A call of create_job raises and changes nothing, or it creates one job: for an executable asset
  -- or a free text whose inferred status is executable, with what prepare_job makes of the
  -- request's tool, profile, options and timeout and of that address, stored and queued with RQ's
  -- limit above the tool's.
  pub create_job-Creates : Creates env request w (create_job env request w)
  unfolding create_job
  create_job-Creates = elim (Result-cases (resolve_target w.db request.target)) [
    | inl (e, f) ↦ rw (f, create_job) (inl (e, refl))
    | inr (target, f) ↦
        rw (f, create_job)
          (create_resolved-Creates target (resolve_target-MayScan w.db request.target target f))
  ]

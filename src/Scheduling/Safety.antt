-- ===== src/Scheduling/Safety.antt =====
-- What a schedule may put in the queue.
use cyberlab_kali.Base.{
  ℕ, ◌≡◌, ◌⊎◌, inl, inr, refl, true, Option, none, some, [], ◌∷◌, ◌++◌, Result, ok, err, Bool-cases,
  Option-cases,
}
use cyberlab_kali.Targets.{Asset, address, is_executable}
use cyberlab_kali.Tools.Registry.{ToolError, uncaught_value_error}
use cyberlab_kali.Models.{QueueEntry, World}
use cyberlab_kali.Models.Schedule.{ScheduledJob}
use cyberlab_kali.Jobs.Service.{PreparedJob, prepare_job, IsPrepared, prepare_job-IsPrepared}
use cyberlab_kali.Jobs.Creation.{Env, entry_for}
use cyberlab_kali.Scheduling.{
  fail, fire, on_prepared, process_asset, process_named, process_schedule,
}

-- An entry for a schedule: against its asset, which is executable at this moment, as `prepare_job`
-- makes it from the schedule's own tool, profile and arguments.
pub record IsAllowed (env : Env) (w : World) (s : ScheduledJob) (entry : QueueEntry) : Type 0 where
  pub asset_id : ℕ
  pub named : s.asset_id ≡ some asset_id
  pub asset : Asset
  pub present : w.db.assets asset_id ≡ some asset
  pub executable : is_executable asset ≡ true
  pub prepared : PreparedJob
  pub prepares :
      prepare_job env.parsers env.registry s.tool s.profile s.params (address asset) none
      ≡ ok prepared
  pub checked : IsPrepared env.parsers env.registry s.tool (address asset) prepared
  pub given : entry ≡ entry_for w.db.next_job s.tool prepared

abbrev pub Dispatches : Env → World → ScheduledJob → World → Type 0
Dispatches env w s after =
    (after.queue ≡ w.queue)
    ⊎ ((entry : QueueEntry) × (after.queue ≡ w.queue ++ entry ∷ []) × IsAllowed env w s entry)

module _ (env : Env) (w : World) (s : ScheduledJob) (id : ℕ) (named : s.asset_id ≡ some id)
    (asset : Asset) (present : w.db.assets id ≡ some asset)
    (executable : is_executable asset ≡ true) where
  fire-Dispatches :
      (prepared : PreparedJob)
      → prepare_job env.parsers env.registry s.tool s.profile s.params (address asset) none
        ≡ ok prepared
      → Dispatches env w s (fire env s asset prepared w)
  unfolding fire
  fire-Dispatches prepared prepares = elim (Bool-cases env.redis_up) [
    | inr down ↦ rw down (inl refl)
    | inl up ↦ rw up (
        inr (
          entry_for w.db.next_job s.tool prepared,
          refl,
          record {
            asset_id = id;
            named = named;
            asset = asset;
            present = present;
            executable = executable;
            prepared = prepared;
            prepares = prepares;
            checked =
                prepare_job-IsPrepared env.parsers env.registry s.tool s.profile s.params
                  (address asset) none prepared prepares;
            given = refl;
          },
        ))
  ]

  on_prepared-Dispatches :
      (r : Result ToolError PreparedJob)
      → prepare_job env.parsers env.registry s.tool s.profile s.params (address asset) none ≡ r
      → Dispatches env w s (on_prepared env s asset w r)
  unfolding on_prepared fail
  on_prepared-Dispatches (ok p) prepares = fire-Dispatches p prepares
  on_prepared-Dispatches (err uncaught_value_error) prepares = inl refl
  on_prepared-Dispatches (err e) prepares = inl refl

process_asset-Dispatches :
    (env : Env) (w : World) (s : ScheduledJob) (id : ℕ) (asset : Asset)
    → s.asset_id ≡ some id
    → w.db.assets id ≡ some asset
    → Dispatches env w s (process_asset env s asset w)
unfolding process_asset fail
process_asset-Dispatches env w s id asset e f = elim (Bool-cases (is_executable asset)) [
  | inr x ↦ rw x (inl refl)
  | inl x ↦ rw x (on_prepared-Dispatches env w s id e asset f x _ refl)
]

process_named-Dispatches :
    (env : Env) (w : World) (s : ScheduledJob) (asset_id : Option ℕ)
    → s.asset_id ≡ asset_id
    → Dispatches env w s (process_named env s asset_id w)
unfolding process_named fail
process_named-Dispatches env w s none e = inl refl
process_named-Dispatches env w s (some id) e = elim (Option-cases (w.db.assets id)) [
  | inl f ↦ rw (f, process_named) (inl refl)
  | inr (asset, f) ↦ rw (f, process_named) (process_asset-Dispatches env w s id asset e f)
]

-- Processing a schedule leaves the queue alone, or adds one entry: against the schedule's asset, which
-- exists and is executable at that moment, with what `prepare_job` makes of the schedule's own tool,
-- profile and arguments and of the asset's address.
pub process_schedule-Dispatches :
    (env : Env) (w : World) (s : ScheduledJob) → Dispatches env w s (process_schedule env s w)
unfolding process_schedule
process_schedule-Dispatches env w s = process_named-Dispatches env w s s.asset_id refl

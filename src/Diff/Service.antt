-- ===== src/Diff/Service.antt =====
-- backend/app/diff/service.py: the baseline of a job, and the rows that are added for its changes.
use cyberlab_kali.Base.{
  ℕ, ◌≡◌, ◌≤◌, refl, inl, inr, ◌==◌, ltb, if◌then◌else◌, Bool, true, false, not, ◌&&◌, Bool-cases,
  Option, none, some, List, [], ◌∷◌, map, Dict, find, keep, take, All, scan, sort_desc,
  sort_desc-IsDescending, sort_desc-back, find-greatest, keep-back, find_sound, find-All, keep-All,
  sort_desc-All, take-All, arith,
}
use cyberlab_kali.Tools.Schema.{Value}
use cyberlab_kali.Models.{Db}
use cyberlab_kali.Models.Result.{ParsedResult}
use cyberlab_kali.Models.Job.{JobRow, JobStatus}
use cyberlab_kali.Models.Change.{Change, AssetChangeEvent, nothing}
use cyberlab_kali.Diff.Ports.{same_text}
use cyberlab_kali.Diff.Engine.{is_supported, diff_results}

abbrev pub same_id : Option ℕ → Option ℕ → Bool
same_id (some a) (some b) = a == b
same_id _ _ = false

abbrev pub succeeded : JobStatus → Bool
succeeded JobStatus.success = true
succeeded _ = false

-- The `where` of the query; a column that is null equals nothing.
abbrev pub is_candidate : JobRow → JobRow → Bool
is_candidate job row =
    same_id row.target_id job.target_id
    && (same_text (some row.tool) (some job.tool)
        && (succeeded row.status && (not (row.id == job.id) && ltb row.created_at job.created_at)))

-- What `AssetChangeEvent(**change)` keeps: `metadata` is no column, so the column has its default.
abbrev pub event_of : JobRow → JobRow → ℕ → Change → AssetChangeEvent
event_of job previous asset_id c = record {
  asset_id = asset_id;
  job_id = job.id;
  previous_job_id = some previous.id;
  change_type = c.change_type;
  severity = c.severity;
  field = c.field;
  old_value = c.old_value;
  new_value = c.new_value;
  change_metadata = nothing;
}

-- `d == e` of Python on the parameters of two jobs is an argument, since the lists and objects among
-- their values are not told apart here.
module _ (same_params : Dict Value → Dict Value → Bool) where
  abbrev pub is_comparable : JobRow → JobRow → Bool
  is_comparable job row = same_text row.profile job.profile && same_params row.params job.params

  -- The rows of the query, the latest first, within the limit.
  abbrev earlier_jobs : Db → JobRow → List JobRow
  earlier_jobs db job =
      sort_desc (λ row. row.created_at) (keep (is_candidate job) (scan db.jobs db.next_job))

  unfoldable pub previous_on : Db → JobRow → Option ℕ → Option JobRow
  previous_on db job none = none
  previous_on db job (some target_id) = find (is_comparable job) (take 20 (earlier_jobs db job))

  unfoldable pub find_previous_comparable_job : Db → JobRow → Option JobRow
  unfolding previous_on
  find_previous_comparable_job db job = previous_on db job job.target_id

  abbrev compared : JobRow → JobRow → ℕ → ParsedResult → Option ParsedResult → List AssetChangeEvent
  compared job previous asset_id result none = []
  compared job previous asset_id result (some baseline) =
      map (event_of job previous asset_id) (diff_results job.tool baseline result)

  abbrev changes_since : JobRow → ℕ → ParsedResult → Option JobRow → List AssetChangeEvent
  changes_since job asset_id result none = []
  changes_since job asset_id result (some previous) =
      compared job previous asset_id result previous.result

  abbrev events_of : Db → JobRow → Option ℕ → Option ParsedResult → List AssetChangeEvent
  events_of db job none result = []
  events_of db job (some asset_id) none = []
  events_of db job (some asset_id) (some result) =
      changes_since job asset_id result (find_previous_comparable_job db job)

  unfoldable pub generate_change_events : Db → JobRow → List AssetChangeEvent
  generate_change_events db job =
      if is_supported job.tool then events_of db job job.target_id job.result else []

  -- The baseline: comparable, and no comparable candidate among the stored jobs is later.
  pub record IsBaseline (db : Db) (job c : JobRow) : Type 0 where
    pub candidate : is_candidate job c ≡ true
    pub comparable : is_comparable job c ≡ true
    pub latest :
        All
          (λ row.
            is_candidate job row ≡ true
            → is_comparable job row ≡ true
            → row.created_at ≤ c.created_at)
          (scan db.jobs db.next_job)

  found_on :
      (db : Db) (job c : JobRow) (target : Option ℕ)
      → previous_on db job target ≡ some c
      → IsBaseline db job c
  unfolding previous_on
  found_on db job c none h = absurd (ground arith)
  found_on db job c (some target_id) h =
      let rows = earlier_jobs db job in
      let known =
        sort_desc-All (λ row. is_candidate job row ≡ true) (λ row. row.created_at)
          (keep (is_candidate job) (scan db.jobs db.next_job))
          (keep-All (is_candidate job) (scan db.jobs db.next_job)) in
      record {
        candidate =
            find-All (λ row. is_candidate job row ≡ true) (is_comparable job) (take 20 rows) h
              (take-All (λ row. is_candidate job row ≡ true) 20 rows known);
        comparable = find_sound (is_comparable job) (take 20 rows) c h;
        latest =
            keep-back (λ row. is_comparable job row ≡ true → row.created_at ≤ c.created_at)
              (is_candidate job) (scan db.jobs db.next_job)
              (sort_desc-back (λ row. row.created_at)
                (λ row. is_comparable job row ≡ true → row.created_at ≤ c.created_at)
                (keep (is_candidate job) (scan db.jobs db.next_job))
                (find-greatest (λ row. row.created_at) (is_comparable job) 20 rows c
                  (sort_desc-IsDescending (λ row. row.created_at)
                    (keep (is_candidate job) (scan db.jobs db.next_job)))
                  h));
      }

  pub find_previous_comparable_job-IsBaseline :
      (db : Db) (job c : JobRow)
      → find_previous_comparable_job db job ≡ some c
      → IsBaseline db job c
  unfolding find_previous_comparable_job
  find_previous_comparable_job-IsBaseline db job c h = found_on db job c job.target_id h

  -- Each row that is added is about the job and its asset, and names a baseline of the job.
  pub record IsAbout (db : Db) (job : JobRow) (event : AssetChangeEvent) : Type 0 where
    pub asset : job.target_id ≡ some event.asset_id
    pub job_named : event.job_id ≡ job.id
    pub baseline : (c : JobRow) × (event.previous_job_id ≡ some c.id) × IsBaseline db job c

  events-IsAbout :
      (db : Db) (job c : JobRow) (asset_id : ℕ) (changes : List Change)
      → job.target_id ≡ some asset_id
      → IsBaseline db job c
      → All (IsAbout db job) (map (event_of job c asset_id) changes)
  events-IsAbout db job c asset_id [] t b = tt
  events-IsAbout db job c asset_id (x ∷ xs) t b = (
    record { asset = t; job_named = refl; baseline = (c, refl, b) },
    events-IsAbout db job c asset_id xs t b,
  )

  compared-IsAbout :
      (db : Db) (job c : JobRow) (asset_id : ℕ) (result : ParsedResult) (old : Option ParsedResult)
      → job.target_id ≡ some asset_id
      → IsBaseline db job c
      → All (IsAbout db job) (compared job c asset_id result old)
  compared-IsAbout db job c asset_id result none t b = tt
  compared-IsAbout db job c asset_id result (some baseline) t b =
      events-IsAbout db job c asset_id (diff_results job.tool baseline result) t b

  changes_since-IsAbout :
      (db : Db) (job : JobRow) (asset_id : ℕ) (result : ParsedResult) (found : Option JobRow)
      → job.target_id ≡ some asset_id
      → find_previous_comparable_job db job ≡ found
      → All (IsAbout db job) (changes_since job asset_id result found)
  changes_since-IsAbout db job asset_id result none t f = tt
  changes_since-IsAbout db job asset_id result (some c) t f =
      compared-IsAbout db job c asset_id result c.result t
        (find_previous_comparable_job-IsBaseline db job c f)

  events_of-IsAbout :
      (db : Db) (job : JobRow) (target : Option ℕ) (result : Option ParsedResult)
      → job.target_id ≡ target
      → All (IsAbout db job) (events_of db job target result)
  events_of-IsAbout db job none result t = tt
  events_of-IsAbout db job (some asset_id) none t = tt
  events_of-IsAbout db job (some asset_id) (some result) t =
      changes_since-IsAbout db job asset_id result (find_previous_comparable_job db job) t refl

  -- Every row that generate_change_events adds is about the asset of the job and names the job and
  -- its baseline: the latest stored job that succeeded with the same tool, profile and parameters
  -- on that asset before this one was created.
  pub generate_change_events-IsAbout :
      (db : Db) (job : JobRow) → All (IsAbout db job) (generate_change_events db job)
  unfolding generate_change_events
  generate_change_events-IsAbout db job = elim (Bool-cases (is_supported job.tool)) [
    | inr e ↦ rw e tt
    | inl e ↦ rw e (events_of-IsAbout db job job.target_id job.result refl)
  ]

-- ===== src/Scheduling/Tick.antt =====
-- backend/app/scheduling/ticker.py: one tick, from the selection of the rows to their processing; and
-- scheduling/service.py. Nothing else holds a lock on the rows while a tick selects them.
use cyberlab_kali.Base.{
  ℕ, ◌==◌, ◌≤◌, ◌≡◌, Bool, true, false, not, ◌&&◌, none, some, List, [], ◌∷◌, map, length,
  length-take, length-map, take, take-All, keep, keep-All_both, All, All-map, map-All, scan,
  scan-All, sort_asc, sort_asc-All, arith,
}
use cyberlab_kali.Models.{World}
use cyberlab_kali.Models.Mission.{asset_deleted}
use cyberlab_kali.Models.Schedule.{ScheduledJobStatus, disabled, ScheduledJob}
use cyberlab_kali.Jobs.Creation.{Env}
use cyberlab_kali.Scheduling.{save_schedule, is_due, claim, process_schedule}
use cyberlab_kali.Scheduling.Bounds.{
  IsWithin, AllWithin, save_schedule-AllWithin, process_schedule-AllWithin,
}

-- `_BATCH_SIZE`
abbrev pub batch_size : ℕ
batch_size = 50

-- The rows that the query gives, those due for the longest time first.
abbrev pub due_schedules : Env → World → List ScheduledJob
due_schedules env w =
    take batch_size
      (sort_asc (λ s. s.next_run_at) (keep (is_due env) (scan w.db.schedules w.db.next_schedule)))

unfoldable pub save_all : List ScheduledJob → World → World
save_all [] w = w
save_all (s ∷ rest) w = save_all rest (save_schedule w s)

-- `claim_due_schedules`: the claimed rows, and what its commit leaves.
unfoldable pub claim_due_schedules : Env → World → List ScheduledJob × World
unfolding save_all
claim_due_schedules env w = let due = map (claim env) (due_schedules env w) in (due, save_all due w)

unfoldable pub process_all : Env → List ScheduledJob → World → World
process_all env [] w = w
process_all env (s ∷ rest) w = process_all env rest (process_schedule env s w)

-- `run_due_schedules`: how many schedules were handled, and the world after the tick.
unfoldable pub run_due_schedules : Env → World → ℕ × World
unfolding claim_due_schedules process_all
run_due_schedules env w =
    let (due, claimed) = claim_due_schedules env w in (length due, process_all env due claimed)

abbrev pub is_disabled : ScheduledJobStatus → Bool
is_disabled disabled = true
is_disabled _ = false

abbrev pub is_of_asset : ℕ → ScheduledJob → Bool
is_of_asset asset_id s =
    (elim s.asset_id [ none ↦ false | some id ↦ id == asset_id ]) && not (is_disabled s.status)

abbrev pub disable : ScheduledJob → ScheduledJob
disable s = record s { status = disabled; last_error = some asset_deleted }

-- `disable_schedules_for_asset`, which the deletion of an asset calls in its transaction.
unfoldable pub disable_schedules_for_asset : (asset_id : ℕ) → World → World
unfolding save_all
disable_schedules_for_asset asset_id w =
    save_all (map disable (keep (is_of_asset asset_id) (scan w.db.schedules w.db.next_schedule))) w

claim-IsWithin : (env : Env) (s : ScheduledJob) → IsWithin s → IsWithin (claim env s)
unfolding claim
claim-IsWithin env s h = h

due_schedules-IsWithin : (env : Env) (w : World) → AllWithin w → All IsWithin (due_schedules env w)
due_schedules-IsWithin env w all =
    let rows = scan w.db.schedules w.db.next_schedule in
    take-All IsWithin batch_size (sort_asc (λ s. s.next_run_at) (keep (is_due env) rows)) (
      sort_asc-All (λ s. s.next_run_at) IsWithin (keep (is_due env) rows)
        (All-map (λ s. IsWithin s × (is_due env s ≡ true)) IsWithin (keep (is_due env) rows)
          (λ s both. both.0)
          (keep-All_both IsWithin (is_due env) rows
            (scan-All IsWithin w.db.schedules w.db.next_schedule all))))

save_all-AllWithin :
    (due : List ScheduledJob) (w : World)
    → All IsWithin due
    → AllWithin w
    → AllWithin (save_all due w)
unfolding save_all
save_all-AllWithin [] w within all = all
save_all-AllWithin (s ∷ rest) w within all =
    save_all-AllWithin rest (save_schedule w s) within.1 (save_schedule-AllWithin w s within.0 all)

process_all-AllWithin :
    (env : Env) (due : List ScheduledJob) (w : World)
    → AllWithin w
    → AllWithin (process_all env due w)
unfolding process_all
process_all-AllWithin env [] w all = all
process_all-AllWithin env (s ∷ rest) w all =
    process_all-AllWithin env rest (process_schedule env s w)
      (process_schedule-AllWithin env w all s)

-- A tick handles at most 50 schedules. Where every stored schedule that is active has failed fewer than
-- five times in a row, this is so after the tick, whatever became of the schedules that it handled.
pub run_due_schedules-AllWithin :
    (env : Env) (w : World)
    → AllWithin w
    → ((run_due_schedules env w).0 ≤ 50) × AllWithin (run_due_schedules env w).1
unfolding run_due_schedules claim_due_schedules
run_due_schedules-AllWithin env w all =
    let due = due_schedules env w in
    let claimed = map (claim env) due in
    (
      omega (
        arith,
        length-map (claim env) due,
        length-take 50 (
            sort_asc (λ s. s.next_run_at)
              (keep (is_due env) (scan w.db.schedules w.db.next_schedule))),
      ),
      process_all-AllWithin env claimed (save_all claimed w) (
          save_all-AllWithin claimed w
            (map-All IsWithin (claim env) due (
              All-map IsWithin (λ s. IsWithin (claim env s)) due (claim-IsWithin env)
                (due_schedules-IsWithin env w all)))
            all),
    )

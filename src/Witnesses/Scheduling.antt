-- ===== src/Witnesses/Scheduling.antt =====
-- backend/app/scheduling/ticker.py on one schedule.
use cyberlab_kali.Base.{
  ◌≤◌, scan, add_row, sort_asc, insert_asc, ◌≡◌, ◌⊎◌, refl, false, none, some, List, [], ◌∷◌, codes,
  arith, length,
}
use cyberlab_kali.Targets.{is_executable, address}
use cyberlab_kali.Models.{World}
use cyberlab_kali.Models.Mission.{SkipReason, asset_missing}
use cyberlab_kali.Models.Schedule.{active, ScheduledJob}
use cyberlab_kali.Scheduling.{save_schedule, is_active, failed_once, fail, process_schedule}
use cyberlab_kali.Scheduling.Bounds.{AllWithin, fail_all, fail_all-paused}
use cyberlab_kali.Scheduling.Safety.{Dispatches, process_schedule-Dispatches}
use cyberlab_kali.Scheduling.Tick.{
  claim_due_schedules, run_due_schedules, run_due_schedules-AllWithin,
}
use cyberlab_kali.Witnesses.Tools.{program}
use cyberlab_kali.Samples.{env, world, port_80}

ticker : Unit {0}
unfolding program process_schedule failed_once fail is_executable address
ticker = tt

abbrev hourly : ScheduledJob
hourly = record {
  id = 2;
  asset_id = some 1;
  tool = codes "nc";
  profile = none;
  params = port_80;
  interval_seconds = 3600;
  status = active;
  next_run_at = 1000;
  last_run_at = none;
  last_job_id = none;
  consecutive_failures = 0;
  last_error = none;
}

abbrev planned : World
planned = save_schedule world hourly

fires : length (process_schedule env hourly planned).queue ≡ 1
unfolding ticker
fires = refl

planned-AllWithin : AllWithin planned
planned-AllWithin = λ id s e h. ground arith

one_handled : (run_due_schedules env planned).0 ≡ 1
unfolding run_due_schedules claim_due_schedules scan add_row sort_asc insert_asc
one_handled = refl

run_due_schedules-AllWithin_example :
    ((run_due_schedules env planned).0 ≤ 50) × AllWithin (run_due_schedules env planned).1
run_due_schedules-AllWithin_example = run_due_schedules-AllWithin env planned planned-AllWithin

process_schedule-Dispatches_example :
    Dispatches env planned hourly (process_schedule env hourly planned)
process_schedule-Dispatches_example = process_schedule-Dispatches env planned hourly

abbrev five : List SkipReason
five = asset_missing ∷ asset_missing ∷ asset_missing ∷ asset_missing ∷ asset_missing ∷ []

fail_all-paused_example : (five ≡ []) ⊎ (is_active (fail_all five hourly).status ≡ false)
fail_all-paused_example = fail_all-paused five hourly (omega arith)

-- ===== src/Witnesses/Hooks.antt =====
-- backend/app/jobs/tasks.py: the hooks after the job of a mission's only step has succeeded.
use cyberlab_kali.Base.{
  true, ◌≡◌, ◌⊎◌, refl, Bool-cases, inl, inr, ◌==◌, some, none, put, arith, ok,
}
use cyberlab_kali.Models.{World, Db}
use cyberlab_kali.Models.Job.{JobStatus}
use cyberlab_kali.Models.Mission.{MissionStatus, MissionRow, is_terminal}
use cyberlab_kali.Missions.{advance_mission}
use cyberlab_kali.Reconciliation.Soundness.{IsSound}
use cyberlab_kali.Hooks.{one, owners, owners_in, owner_mission, run_hooks}
use cyberlab_kali.Hooks.Settled.{IsEnded, AwaitsAnother, run_hooks-AwaitsAnother}
use cyberlab_kali.Witnesses.Reconciliation.{old_job, swept_db, before}
use cyberlab_kali.Samples.{env, mission}

abbrev finished_db : Db
finished_db = record swept_db {
  jobs = put (λ k. none) 2 (record (old_job 2) { status = JobStatus.success });
}

abbrev finished : World
finished = record before { db = finished_db }

abbrev done : MissionRow
done = record mission { status = MissionStatus.completed; finished_at = some 1000 }

owned : owner_mission 2 finished ≡ one 7
unfolding owners owners_in
owned = refl

completed : (advance_mission env 7 finished).0 ≡ ok done
unfolding advance_mission
completed = refl

finished-IsSound : IsSound finished
finished-IsSound = record {
  missions = record {
    keyed = λ id m e. ground arith;
    one_queued = λ id. elim (Bool-cases (7 == id)) [
      | inl e ↦ rw e (omega arith)
      | inr e ↦ rw e (omega arith)
    ];
    linked = λ id. elim (Bool-cases (7 == id)) [ inl e ↦ rw e (refl, tt) | inr e ↦ rw e tt ];
  };
  runs = record {
    keyed = λ id run e. ground arith;
    one_queued = λ id. omega arith;
    linked = λ id. tt;
  };
}

finished-IsEnded : IsEnded finished 2
finished-IsEnded = record {
  job = record (old_job 2) { status = JobStatus.success };
  row = refl;
  ended = refl;
  given_out = omega arith;
}

run_hooks-AwaitsAnother_example :
    IsSound (run_hooks env 2 finished)
    × ((run_hooks env 2 finished).db.missions 7 ≡ some done)
    × ((is_terminal done.status ≡ true) ⊎ AwaitsAnother (run_hooks env 2 finished) 7 2)
run_hooks-AwaitsAnother_example =
    run_hooks-AwaitsAnother env 2 7 done finished finished-IsSound finished-IsEnded owned completed

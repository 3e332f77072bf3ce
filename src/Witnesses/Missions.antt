-- ===== src/Witnesses/Missions.antt =====
-- backend/app/ai/orchestrator.py on one mission with one step.
use cyberlab_kali.Base.{
  ◌≡◌, ◌⊎◌, refl, true, false, some, [], ◌∷◌, ok, err, arith, length, ◌==◌, Bool-cases, inl, inr,
}
use cyberlab_kali.Targets.{is_executable, address}
use cyberlab_kali.Models.Mission
use cyberlab_kali.Models.Mission.{MissionRow, draft, running, is_terminal}
use cyberlab_kali.Missions.{
  advance_mission, start_mission, approve_mission, cancel_mission, invalid_mission_state,
}
use cyberlab_kali.Missions.Soundness.{IsSound}
use cyberlab_kali.Missions.Settled.{advance_mission-twice}
use cyberlab_kali.Missions.Safety.{reconciled, Dispatches, advance_mission-Dispatches}
use cyberlab_kali.Missions.Lifecycle.{
  start, advance, cancel, run_calls, run_calls-IsSound, cancel_mission-final,
}
use cyberlab_kali.Witnesses.Tools.{program}
use cyberlab_kali.Samples.{env, world, mission}

missions : Unit {0}
unfolding program start_mission advance_mission approve_mission cancel_mission is_executable address
missions = tt

world-IsSound : IsSound world
world-IsSound = record {
  keyed = λ id m e. ground arith;
  one_queued = λ id. ground arith;
  linked = λ id. elim (Bool-cases (7 == id)) [ inl e ↦ rw e (refl, tt) | inr e ↦ rw e tt ];
}

approved_queues :
    (approve_mission env (λ w. w) 7 world).0
    ≡ ok (record mission { status = running; approved_at = some 1000 })
unfolding missions
approved_queues = refl

queued_one : length (approve_mission env (λ w. w) 7 world).1.queue ≡ 1
unfolding missions
queued_one = refl

run_calls-IsSound_example :
    IsSound (run_calls ((env, start 7) ∷ (env, advance 7) ∷ (env, cancel 7) ∷ []) world)
run_calls-IsSound_example =
    run_calls-IsSound ((env, start 7) ∷ (env, advance 7) ∷ (env, cancel 7) ∷ []) world world-IsSound

advanced : (advance_mission env 7 world).0 ≡ ok (record mission { status = running })
unfolding missions
advanced = refl

advance_mission-twice_example :
    advance_mission env 7 (advance_mission env 7 world).1
    ≡ (ok (record mission { status = running }), (advance_mission env 7 world).1)
advance_mission-twice_example =
    advance_mission-twice env env 7 world (record mission { status = running }) world-IsSound
      advanced

advance_mission-Dispatches_example :
    ((advance_mission env 7 world).1.queue ≡ world.queue)
    ⊎ ((m : MissionRow) × (world.db.missions 7 ≡ some m)
        × (is_terminal m.status ≡ false)
        × Dispatches env world m
            (reconciled world (world.db.mission_steps m.id))
            (advance_mission env 7 world))
advance_mission-Dispatches_example = advance_mission-Dispatches env 7 world

abbrev cancelled : MissionRow
cancelled = record mission { status = Mission.cancelled; finished_at = some 1000 }

cancel_draft : (cancel_mission env 7 world).0 ≡ ok cancelled
unfolding missions
cancel_draft = refl

cancel_mission-final_example :
    (is_terminal cancelled.status ≡ true)
    × (advance_mission env 7 (cancel_mission env 7 world).1
        ≡ (ok cancelled, (cancel_mission env 7 world).1))
    × (approve_mission env (λ w. w) 7 (cancel_mission env 7 world).1
        ≡ (err (invalid_mission_state cancelled.status), (cancel_mission env 7 world).1))
cancel_mission-final_example =
    cancel_mission-final env env (λ w. w) 7 world cancelled world-IsSound cancel_draft

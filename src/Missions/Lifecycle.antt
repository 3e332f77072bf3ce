-- ===== src/Missions/Lifecycle.antt =====
-- The calls of a human or a worker, one after the other: what they keep, and that a cancelled mission
-- stays so. Calls that overlap are not covered: advance_mission lets go of its lock in the middle.
use cyberlab_kali.Base.{
  ℕ, ◌≡◌, inl, inr, refl, subst, true, false, some, List, [], ◌∷◌, ok, err, arith, Bool-cases,
  Option-cases, put, put_self, ◌∙◌,
}
use cyberlab_kali.Models.{World}
use cyberlab_kali.Models.Mission.{MissionStatus, approved, MissionRow, is_terminal}
use cyberlab_kali.Jobs.Creation.{Env}
use cyberlab_kali.Missions.{
  invalid_mission_state, Outcome, advance_mission, start_mission, approve_mission, cancel_mission,
  is_draft,
}
use cyberlab_kali.Missions.Soundness.{IsSound, save_mission-IsSound}
use cyberlab_kali.Missions.Settled.{advance_mission-IsSound, settled_advance}

-- A call on a mission. An approval is a `start` and then an `advance`, and others may come between.
pub data Call : Type 0 where
  start advance cancel : ℕ → Call

unfoldable pub perform : Env → Call → World → Outcome
perform env (start id) w = start_mission env id w
perform env (advance id) w = advance_mission env id w
perform env (cancel id) w = cancel_mission env id w

start_mission-IsSound :
    (env : Env) (id : ℕ) (w : World) → IsSound w → IsSound (start_mission env id w).1
unfolding start_mission
start_mission-IsSound env id w h = elim (Option-cases (w.db.missions id)) [
  | inl e ↦ rw (e, start_mission) h
  | inr (m, e) ↦ elim (Bool-cases (is_draft m.status)) [
    | inr d ↦ rw (e, start_mission) (rw d h)
    | inl d ↦
        let started = record m { status = approved; approved_at = some env.now } in
        rw (e, start_mission) (rw d (save_mission-IsSound w started h))
  ]
]

cancel_mission-IsSound :
    (env : Env) (id : ℕ) (w : World) → IsSound w → IsSound (cancel_mission env id w).1
unfolding cancel_mission
cancel_mission-IsSound env id w h = elim (Option-cases (w.db.missions id)) [
  | inl e ↦ rw (e, cancel_mission) h
  | inr (m, e) ↦ elim (Bool-cases (is_terminal m.status)) [
    | inl t ↦ rw (e, cancel_mission) (rw t h)
    | inr t ↦
        rw (e, cancel_mission)
          (rw t (
            save_mission-IsSound w
              (record m { status = MissionStatus.cancelled; finished_at = some env.now }) h))
  ]
]

-- Calls of which none begins before the one before it has ended; the surroundings may differ from call
-- to call.
pub run_calls : List (Env × Call) → World → World
run_calls [] w = w
run_calls ((env, call) ∷ rest) w = run_calls rest (perform env call w).1

perform-IsSound : (env : Env) (call : Call) (w : World) → IsSound w → IsSound (perform env call w).1
unfolding perform
perform-IsSound env (start id) w h = start_mission-IsSound env id w h
perform-IsSound env (advance id) w h = advance_mission-IsSound env id w h
perform-IsSound env (cancel id) w h = cancel_mission-IsSound env id w h

-- From a sound database, after any sequence of calls that do not overlap, in any surroundings, where a
-- call is advance_mission, cancel_mission or the first transaction of approve_mission: each mission row
-- keeps its key, no mission has two queued steps, and each step that is queued, succeeded or failed has
-- the id of a job.
pub run_calls-IsSound :
    (calls : List (Env × Call)) (w : World) → IsSound w → IsSound (run_calls calls w)
unfolding run_calls
run_calls-IsSound [] w h = h
run_calls-IsSound ((env, call) ∷ rest) w h =
    run_calls-IsSound rest (perform env call w).1 (perform-IsSound env call w h)

-- What `cancel_mission` returns is stored, and terminal.
cancel_stored :
    (env : Env) (id : ℕ) (w : World) (m : MissionRow)
    → IsSound w
    → (cancel_mission env id w).0 ≡ ok m
    → ((cancel_mission env id w).1.db.missions id ≡ some m) × (is_terminal m.status ≡ true)
unfolding cancel_mission
cancel_stored env id w m h = elim (Option-cases (w.db.missions id)) [
  | inl e ↦ rw (e, cancel_mission) (λ r. absurd (ground arith))
  | inr (n, e) ↦ elim (Bool-cases (is_terminal n.status)) [
    | inl t ↦ rw (e, cancel_mission) (rw t (λ r. (e ∙ ground arith, ground arith)))
    | inr t ↦
        let stopped = record n { status = MissionStatus.cancelled; finished_at = some env.now } in
        rw (e, cancel_mission)
          (rw t (λ r.
            let same : stopped ≡ m = ground arith in
            subst
              (λ x. (put w.db.missions n.id stopped id ≡ some x) × (is_terminal x.status ≡ true))
              same
              (
                subst (λ k. put w.db.missions n.id stopped k ≡ some stopped) (h.keyed id n e)
                    (put_self w.db.missions n.id stopped),
                refl,
              )))
  ]
]

terminal_approve :
    (env : Env) (others : World → World) (id : ℕ) (w : World) (m : MissionRow)
    → w.db.missions id ≡ some m
    → is_terminal m.status ≡ true
    → approve_mission env others id w ≡ (err (invalid_mission_state m.status), w)
unfolding approve_mission start_mission
terminal_approve env others id w m e t =
    let fixed : is_draft m.status ≡ false = ground arith in rw (e, start_mission) (rw fixed refl)

-- After cancel_mission returned a mission of a sound database, the mission is terminal,
-- advance_mission returns it and changes nothing, and approve_mission raises and changes nothing.
pub cancel_mission-final :
    (env env' : Env) (others : World → World) (id : ℕ) (w : World) (m : MissionRow)
    → IsSound w
    → (cancel_mission env id w).0 ≡ ok m
    → (is_terminal m.status ≡ true)
      × (advance_mission env' id (cancel_mission env id w).1 ≡ (ok m, (cancel_mission env id w).1))
      × (approve_mission env' others id (cancel_mission env id w).1
          ≡ (err (invalid_mission_state m.status), (cancel_mission env id w).1))
cancel_mission-final env env' others id w m h r =
    let (stored, t) = cancel_stored env id w m h r in
    let sound = cancel_mission-IsSound env id w h in
    (
      t,
      settled_advance env' id _ m (sound.keyed id m stored)
          (record { stored = stored; still = inl t }),
      terminal_approve env' others id _ m stored t,
    )

-- ===== src/Chains/Lifecycle.antt =====
-- The calls on chain runs, one after the other: what they keep. Calls that overlap are not covered:
-- advance_chain_run lets go of its lock in the middle.
use cyberlab_kali.Base.{
  ℕ, ◌+◌, List-cases, ◌≡◌, inl, inr, refl, Option, none, some, List, [], ◌∷◌, map, All, count,
  arith, Bool-cases, Option-cases,
}
use cyberlab_kali.Targets.{Asset}
use cyberlab_kali.Models.{World}
use cyberlab_kali.Models.Chain.{MissionTemplateStep, ChainRunStatus, is_terminal}
use cyberlab_kali.Jobs.Creation.{Env}
use cyberlab_kali.Chains.{save_steps, is_queued, advance_chain_run, cancel_chain_run}
use cyberlab_kali.Chains.Creation.{snapshot, new_run, add_run, start_chain_run}
use cyberlab_kali.Chains.Soundness.{IsLinked, IsSound, save_run-IsSound, save_steps-IsSound}
use cyberlab_kali.Chains.Settled.{advance_chain_run-IsSound}

-- A call on a chain run; `start` names a template and a target. A creation is a `start` and then an
-- `advance`, and others may come between.
pub data Call : Type 0 where
  start : (template_id target_id : ℕ) → Call
  advance cancel : ℕ → Call

-- The world that a call of `start_chain_run` leaves behind.
abbrev world_of : World → Option World → World
world_of w none = w
world_of w (some after) = after

unfoldable pub perform : Env → Call → World → World
perform env (start template_id target_id) w =
    world_of w (start_chain_run env template_id target_id w)
perform env (advance id) w = (advance_chain_run env id w).1
perform env (cancel id) w = (cancel_chain_run env id w).1

snapshots-count : (steps : List MissionTemplateStep) → count is_queued (map snapshot steps) ≡ 0
snapshots-count [] = refl
snapshots-count (s ∷ steps) = ground (arith, snapshots-count steps)

snapshots-IsLinked : (steps : List MissionTemplateStep) → All IsLinked (map snapshot steps)
snapshots-IsLinked [] = tt
snapshots-IsLinked (s ∷ steps) = (refl, snapshots-IsLinked steps)

add_run-IsSound :
    (env : Env) (template_id target_id : ℕ) (asset : Asset) (steps : List MissionTemplateStep)
    (w : World)
    → IsSound w
    → IsSound (add_run env template_id target_id asset steps w)
add_run-IsSound env template_id target_id asset steps w h =
    let id = w.db.next_chain_run in
    let added = record w { db = record w.db { next_chain_run = id + 1 } } in
    let base : IsSound added = record {
      keyed = h.keyed;
      one_queued = h.one_queued;
      linked = h.linked;
    } in
    save_run-IsSound (save_steps added id (map snapshot steps))
      (new_run env id template_id target_id asset)
      (save_steps-IsSound added id (map snapshot steps) base (omega (arith, snapshots-count steps))
        (snapshots-IsLinked steps))

start_chain_run-IsSound :
    (env : Env) (template_id target_id : ℕ) (w : World)
    → IsSound w
    → IsSound (world_of w (start_chain_run env template_id target_id w))
unfolding start_chain_run
start_chain_run-IsSound env template_id target_id w h =
    elim (Option-cases (w.db.template_steps template_id)) [
      | inl e ↦ rw (e, start_chain_run) h
      | inr (steps, e) ↦ elim (Option-cases (w.db.assets target_id)) [
        | inl f ↦ rw (e, start_chain_run) (rw (f, start_chain_run) h)
        | inr (asset, f) ↦ elim (List-cases steps) [
          | inl g ↦ rw (e, start_chain_run) (rw (f, start_chain_run) (rw g h))
          | inr (s, rest, g) ↦
              rw (e, start_chain_run)
                (rw (f, start_chain_run)
                  (rw g (add_run-IsSound env template_id target_id asset (s ∷ rest) w h)))
        ]
      ]
    ]

cancel_chain_run-IsSound :
    (env : Env) (id : ℕ) (w : World) → IsSound w → IsSound (cancel_chain_run env id w).1
unfolding cancel_chain_run
cancel_chain_run-IsSound env id w h = elim (Option-cases (w.db.chain_runs id)) [
  | inl e ↦ rw (e, cancel_chain_run) h
  | inr (run, e) ↦ elim (Bool-cases (is_terminal run.status)) [
    | inl t ↦ rw (e, cancel_chain_run) (rw t h)
    | inr t ↦
        rw (e, cancel_chain_run)
          (rw t (
            save_run-IsSound w
              (record run { status = ChainRunStatus.cancelled; finished_at = some env.now }) h))
  ]
]

-- Calls of which none begins before the one before it has ended.
pub run_calls : List (Env × Call) → World → World
run_calls [] w = w
run_calls ((env, call) ∷ rest) w = run_calls rest (perform env call w)

perform-IsSound : (env : Env) (call : Call) (w : World) → IsSound w → IsSound (perform env call w)
unfolding perform
perform-IsSound env (start t a) w h = start_chain_run-IsSound env t a w h
perform-IsSound env (advance id) w h = advance_chain_run-IsSound env id w h
perform-IsSound env (cancel id) w h = cancel_chain_run-IsSound env id w h

-- From a sound database, any sequence of calls that do not overlap, in any surroundings, where a call is
-- the first transaction of create_chain_run, advance_chain_run or cancel_chain_run, leaves each row
-- under its key, at most one queued step in each run, and the id of a job in each step that is queued,
-- succeeded or failed.
pub chain_calls-IsSound :
    (calls : List (Env × Call)) (w : World) → IsSound w → IsSound (run_calls calls w)
unfolding run_calls
chain_calls-IsSound [] w h = h
chain_calls-IsSound ((env, call) ∷ rest) w h =
    chain_calls-IsSound rest (perform env call w) (perform-IsSound env call w h)

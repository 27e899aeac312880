-- ===== src/Engine/Recovered.antt =====
-- What a pause and the recovery of a credential leave
-- (apps/backend/app/domain/pipelines/engine.py).
use yaaos.Prelude.{
  ℕ, String, true, ◌≡◌, refl, ap, ◌∙◌, Option, none, some, List, [], ◌∷◌, ok, arith, Bool-cases,
  inl, inr, str_eq, eq_iff, ◌==◌, keep, not, ◌&&◌, is_some,
}
use yaaos.Boundary.{BoundaryDecision}
use yaaos.Engine.Rows.{RunPause, RunState, Kickoff, StageExecution, Effect, Notification}
use yaaos.Engine.World.{World, Services, get_count, set_count, leave}
use yaaos.Engine.Terminal.{notify}
use yaaos.Engine.Pause.{new_pause, enter_pause, extend_expiry, paused_run_workspace_grace_seconds}
use yaaos.Engine.Requests.{open_pause, scalar_one_or_none}

pub get_count-set_count :
    (k : String) (v : ℕ) (m : List (String × ℕ)) → get_count k (set_count k v m) ≡ v
get_count-set_count k v [] = let y : str_eq k k ≡ true = (eq_iff k k).1 refl in rw y refl
get_count-set_count k v ((j, n) ∷ m) = elim (Bool-cases (str_eq j k)) [
  | inl y ↦ let z : str_eq k k ≡ true = (eq_iff k k).1 refl in rw (y, z) refl
  | inr n ↦ rw (n, n) (get_count-set_count k v m)
]

-- Steps that leave the tasks, the commands, the pauses and the run as they are.
outbox-notify : (n : Notification) (us : List ℕ) (w : World) → (notify n us w).outbox ≡ w.outbox
unfolding notify
outbox-notify n [] w = refl
outbox-notify n (u ∷ us) w = outbox-notify n us (leave (Effect.notified u n) w)

commands-notify :
    (n : Notification) (us : List ℕ) (w : World) → (notify n us w).commands ≡ w.commands
unfolding notify
commands-notify n [] w = refl
commands-notify n (u ∷ us) w = commands-notify n us (leave (Effect.notified u n) w)

pauses-notify : (n : Notification) (us : List ℕ) (w : World) → (notify n us w).pauses ≡ w.pauses
unfolding notify
pauses-notify n [] w = refl
pauses-notify n (u ∷ us) w = pauses-notify n us (leave (Effect.notified u n) w)

run-notify : (n : Notification) (us : List ℕ) (w : World) → (notify n us w).run ≡ w.run
unfolding notify
run-notify n [] w = refl
run-notify n (u ∷ us) w = run-notify n us (leave (Effect.notified u n) w)

abbrev Kept : World → World → Type 0
Kept w v =
    (v.outbox ≡ w.outbox) × (v.commands ≡ w.commands) × (v.pauses ≡ w.pauses) × (v.run ≡ w.run)

extend_at-Kept :
    (w : World) (o : Option ℕ)
    → Kept w (elim o [
      | none ↦ w
      | some id ↦ leave (Effect.expiry_extended id paused_run_workspace_grace_seconds) w
    ])
unfolding leave
extend_at-Kept w none = (refl, refl, refl, refl)
extend_at-Kept w (some id) = (refl, refl, refl, refl)

extend_expiry-Kept : (w : World) → Kept w (extend_expiry w)
unfolding extend_expiry
extend_expiry-Kept w = extend_at-Kept w w.run.workspace_id

outbox-extend_expiry : (w : World) → (extend_expiry w).outbox ≡ w.outbox
outbox-extend_expiry w = (extend_expiry-Kept w).0

commands-extend_expiry : (w : World) → (extend_expiry w).commands ≡ w.commands
commands-extend_expiry w = (extend_expiry-Kept w).1

pauses-extend_expiry : (w : World) → (extend_expiry w).pauses ≡ w.pauses
pauses-extend_expiry w = (extend_expiry-Kept w).2

run-extend_expiry : (w : World) → (extend_expiry w).run ≡ w.run
run-extend_expiry w = (extend_expiry-Kept w).3

pauses-enter_pause :
    (services : Services) (x : StageExecution) (decision : BoundaryDecision) (k : Kickoff)
    (w : World)
    → (enter_pause services x decision k w).pauses ≡ new_pause services x decision k w ∷ w.pauses
unfolding enter_pause
pauses-enter_pause services x decision k w = simp (pauses-notify, pauses-extend_expiry)

pub run-enter_pause :
    (services : Services) (x : StageExecution) (decision : BoundaryDecision) (k : Kickoff)
    (w : World)
    → (enter_pause services x decision k w).run ≡ record w.run { state = RunState.paused }
unfolding enter_pause
run-enter_pause services x decision k w = simp (run-notify, run-extend_expiry)

-- A run that pauses is paused, with no further task and no further command.
pub enter_pause_idle :
    (services : Services) (x : StageExecution) (decision : BoundaryDecision) (k : Kickoff)
    (w : World)
    → ((enter_pause services x decision k w).run.state ≡ RunState.paused)
      × ((enter_pause services x decision k w).outbox ≡ w.outbox)
      × ((enter_pause services x decision k w).commands ≡ w.commands)
unfolding enter_pause
enter_pause_idle services x decision k w = (
  simp (run-notify, run-extend_expiry),
  simp (outbox-notify, outbox-extend_expiry),
  simp (commands-notify, commands-extend_expiry),
)

none-open : (ps : List RunPause) → scalar_one_or_none ps ≡ ok none → ps ≡ []
none-open [] h = refl
none-open (p ∷ []) h = cc
none-open (p ∷ q ∷ ps) h = cc

-- A run that pauses and had no open pause is paused, with no further task and no further command, and
-- has just one open pause: it is on this stage execution, for these reasons, and has no resolution.
pub enter_pause_waits :
    (services : Services) (x : StageExecution) (decision : BoundaryDecision) (k : Kickoff)
    (w : World)
    → open_pause w.run.id w.pauses ≡ ok none
    → let v = enter_pause services x decision k w in
      (v.run.state ≡ RunState.paused)
      × (v.outbox ≡ w.outbox)
      × (v.commands ≡ w.commands)
      × (p : RunPause) × (open_pause w.run.id v.pauses ≡ ok (some p))
      × (p.run_id ≡ w.run.id)
      × (p.stage_execution_id ≡ x.id)
      × (p.tripped ≡ decision.tripped)
      × (p.resolution ≡ none)
unfolding open_pause new_pause
enter_pause_waits services x decision k w h =
    let (paused, outbox, commands) = enter_pause_idle services x decision k w in
    let same : (w.run.id == w.run.id) ≡ true = ground arith in
    let empty : keep (λ (p : RunPause). (p.run_id == w.run.id) && not (is_some p.resolved_at))
          w.pauses
        ≡ [] =
      none-open _ h in
    (
      paused,
      outbox,
      commands,
      new_pause services x decision k w,
      ap (open_pause w.run.id) (pauses-enter_pause services x decision k w)
          ∙ (rw (open_pause, same, empty) refl),
      refl,
      refl,
      refl,
      refl,
    )

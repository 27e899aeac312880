-- ===== src/Engine/Outcome.antt =====
-- The outcomes that the rows of a run bear out, and the pauses that `_run_was_killed` looks for
-- (apps/backend/app/domain/pipelines/engine.py).
use yaaos.Prelude.{
  ◌∷◌, [], All, any, ◌==◌, ◌&&◌, arith, ◌≢◌, ◌⊎◌, List, ℕ, String, Bool, true, false, ◌≡◌, refl,
  Option, none, some, arith, ◌==◌, Bool-cases, inl, inr,
}
use mathlib.Core.List.{Memᴰ}
use mathlib.Core.Path.{subst}
use yaaos.Engine.Rows.{RunPause, PauseAction, RunState, completed, failed, cancelled, killed}
use yaaos.Engine.World.{World}
use yaaos.Engine.Terminal.{is_kill, run_was_killed}

-- A pause of the run was answered by a kill, and none was.
abbrev pub IsKilled : World → Type 0
IsKilled w =
    (p : RunPause) × Memᴰ p w.pauses
    × (p.run_id ≡ w.run.id)
    × (p.resolution ≡ some PauseAction.kill)

abbrev pub IsSpared : World → Type 0
IsSpared w =
    All (λ (p : RunPause). (p.run_id ≢ w.run.id) ⊎ (p.resolution ≢ some PauseAction.kill)) w.pauses

-- An outcome that the rows of the run bear out: a failure has a reason, and else a cancellation was asked
-- for, or a pause of the run was answered by a kill, or neither.
pub data Recorded (w : World) : RunState → Option String → Type 0 where
  by_failure : (reason : String) → Recorded w failed (some reason)
  by_request : w.run.cancel_requested ≡ true → Recorded w cancelled none
  by_kill : w.run.cancel_requested ≡ false → IsKilled w → Recorded w killed none
  by_end : w.run.cancel_requested ≡ false → IsSpared w → Recorded w completed none

any-Memᴰ :
    (f : RunPause → Bool) (ps : List RunPause) (p : RunPause)
    → Memᴰ p ps
    → f p ≡ true
    → any f ps ≡ true
any-Memᴰ f [] p m e = elim m [ ]
any-Memᴰ f (q ∷ ps) p (Memᴰ.head d) e =
    let e' : f q ≡ true = subst (λ x. f x ≡ true) d e in rw e' refl
any-Memᴰ f (q ∷ ps) p (Memᴰ.tail m) e = elim (Bool-cases (f q)) [
  | inl y ↦ rw y refl
  | inr n ↦ rw n (any-Memᴰ f ps p m e)
]

is_kill-ne : (o : Option PauseAction) → o ≢ some PauseAction.kill → is_kill o ≡ false
is_kill-ne none n = refl
is_kill-ne (some PauseAction.approve) n = refl
is_kill-ne (some PauseAction.instruct) n = refl
is_kill-ne (some PauseAction.send_back) n = refl
is_kill-ne (some PauseAction.kill) n = absurd (n refl)

pub run_was_killed-IsKilled : (w : World) → IsKilled w → run_was_killed w ≡ true
unfolding run_was_killed
run_was_killed-IsKilled w (p, m, i, k) =
    let same : (p.run_id == w.run.id) ≡ true = ground (arith, i) in
    any-Memᴰ _ w.pauses p m (rw (same, k) refl)

spared_pauses :
    (id : ℕ) (ps : List RunPause)
    → All (λ (p : RunPause). (p.run_id ≢ id) ⊎ (p.resolution ≢ some PauseAction.kill)) ps
    → any (λ (p : RunPause). (p.run_id == id) && is_kill p.resolution) ps ≡ false
spared_pauses id [] a = refl
spared_pauses id (p ∷ ps) (h, a) = elim h [
  | inl n ↦
      let other : (p.run_id == id) ≡ false = ground (arith, n) in rw other (spared_pauses id ps a)
  | inr n ↦ elim (Bool-cases (p.run_id == id)) [
    | inl y ↦ rw (y, is_kill-ne p.resolution n) (spared_pauses id ps a)
    | inr m ↦ rw m (spared_pauses id ps a)
  ]
]

pub run_was_killed-IsSpared : (w : World) → IsSpared w → run_was_killed w ≡ false
unfolding run_was_killed
run_was_killed-IsSpared w a = spared_pauses w.run.id w.pauses a

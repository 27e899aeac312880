-- ===== src/Engine/Promoted.antt =====
-- What `promote_oldest_queued` and `_enter_terminal` leave of the queue of a ticket
-- (apps/backend/app/domain/pipelines/engine.py).
use yaaos.Prelude.{
  ℕ, ◌≤◌, String, true, false, ◌≡◌, refl, ap, sym, ◌∙◌, Option, some, List, [], ◌∷◌, ok, err, arith,
  mem, IsNodup, ◌==◌, Bool-cases, Option-cases, ok-injective, inl, inr, ◌⊎◌,
}
use mathlib.Core.Path.{subst}
use yaaos.Tickets.{TicketStatus}
use yaaos.Engine.Rows.{Run, RunState, Notification, Effect, Task}
use yaaos.Engine.World.{
  World, Done, key_error, Services, leave, enqueue, focus, in_flight, is_queued,
}
use yaaos.Engine.Promotion.{
  attempt_promotion, oldest_queued, promote_candidate, promote_oldest_queued,
}
use yaaos.Engine.Terminal.{
  close_run, enter_terminal, notify, enqueue_hooks, ticket_status_of, is_failed,
}
use yaaos.Engine.Queue.{
  weight, count, runs_of, run_ids, OneInFlight, count-focus, run_ids-attempt_promotion,
  attempt_promotion-OneInFlight, attempt_promotion-in_flight, mem-focus, take_run-cons,
}
use yaaos.Engine.Oldest.{none-queued, queued-run}

-- The candidate is found, and it is queued.
focus-candidate :
    (w : World) {id : ℕ}
    → oldest_queued (runs_of w) ≡ some id
    → IsNodup (run_ids (runs_of w))
    → (v : World) × (focus id w ≡ some v)
      × (is_queued v.run.state ≡ true)
      × (mem w.run.id (run_ids (runs_of v)) ≡ true)
unfolding focus
focus-candidate w {id} h d =
    let (q, qs, e, s) = queued-run (runs_of w) h d in
    elim (take_run-cons id w.run w.siblings e) [
      | inl (i, f, g) ↦
          let b : (w.run.id == id) ≡ true = ground arith in (w, rw b refl, rw f s, ground arith)
      | inr (ss, f, g, n) ↦
          let b : (w.run.id == id) ≡ false = ground arith in
          (record w { run = q; siblings = w.run ∷ ss }, rw (b, f) refl, s, ground arith)
    ]

-- The queue of the ticket does not stall: at most one run is in flight, and one is or none waits.
abbrev pub Moving : World → Type 0
Moving w = OneInFlight w × ((count is_queued (runs_of w) ≡ 0) ⊎ (count in_flight (runs_of w) ≡ 1))

promote_oldest_queued-Moving :
    (w : World) → IsNodup (run_ids (runs_of w)) → OneInFlight w → Moving (promote_oldest_queued w)
unfolding promote_oldest_queued promote_candidate
promote_oldest_queued-Moving w d h = elim (Option-cases (oldest_queued (runs_of w))) [
  | inl e ↦
      let c : count is_queued (runs_of w) ≡ 0 = none-queued (runs_of w) e in
      let eq : promote_oldest_queued w ≡ w = rw (e, promote_oldest_queued) refl in
      subst Moving (sym eq) (h, inl c)
  | inr (id, e) ↦
      let (v, f, s, m) = focus-candidate w e d in
      let m' : mem w.run.id (run_ids (runs_of (attempt_promotion v))) ≡ true =
        ap (λ is. mem w.run.id is) (run_ids-attempt_promotion v) ∙ m in
      let (back, g) = mem-focus w.run.id (attempt_promotion v) m' in
      let one : OneInFlight v = subst (λ n. n ≤ 1) (sym (count-focus in_flight id w f)) h in
      let at_most : OneInFlight (attempt_promotion v) = attempt_promotion-OneInFlight v one in
      let at_least = attempt_promotion-in_flight v s in
      let same = count-focus in_flight w.run.id (attempt_promotion v) g in
      let eq : promote_oldest_queued w ≡ back =
        rw (e, f, g, promote_oldest_queued, promote_candidate) refl in
      subst Moving (sym eq)
        (subst (λ n. n ≤ 1) (sym same) at_most, inr (same ∙ (omega (arith, at_most, at_least))))
]

run-notify : (n : Notification) (us : List ℕ) (w : World) → (notify n us w).run ≡ w.run
unfolding notify
run-notify n [] w = refl
run-notify n (u ∷ us) w = run-notify n us (leave (Effect.notified u n) w)

siblings-notify :
    (n : Notification) (us : List ℕ) (w : World) → (notify n us w).siblings ≡ w.siblings
unfolding notify
siblings-notify n [] w = refl
siblings-notify n (u ∷ us) w = siblings-notify n us (leave (Effect.notified u n) w)

run-enqueue_hooks : (hs : List ℕ) (w : World) → (enqueue_hooks hs w).run ≡ w.run
unfolding enqueue_hooks
run-enqueue_hooks [] w = refl
run-enqueue_hooks (h ∷ hs) w = run-enqueue_hooks hs (enqueue (Task.terminal_hook h) w)

siblings-enqueue_hooks : (hs : List ℕ) (w : World) → (enqueue_hooks hs w).siblings ≡ w.siblings
unfolding enqueue_hooks
siblings-enqueue_hooks [] w = refl
siblings-enqueue_hooks (h ∷ hs) w = siblings-enqueue_hooks hs (enqueue (Task.terminal_hook h) w)

-- The run in hand, once it is closed.
abbrev pub closed : RunState → Option String → World → Run
closed state reason w = record w.run {
  state = state;
  failure_reason = reason;
  completed_at = some w.now;
}

pub run-close_run :
    (services : Services) (state : RunState) (to_status : TicketStatus) (reason : Option String)
    (w : World)
    → (close_run services state to_status reason w).run ≡ closed state reason w
unfolding close_run
run-close_run services state to_status reason w = elim (Bool-cases (is_failed state)) [
  | inl y ↦ rw y (simp (run-enqueue_hooks, run-notify))
  | inr n ↦ rw n (simp run-enqueue_hooks)
]

siblings-close_run :
    (services : Services) (state : RunState) (to_status : TicketStatus) (reason : Option String)
    (w : World)
    → (close_run services state to_status reason w).siblings ≡ w.siblings
unfolding close_run
siblings-close_run services state to_status reason w = elim (Bool-cases (is_failed state)) [
  | inl y ↦ rw y (simp (siblings-enqueue_hooks, siblings-notify))
  | inr n ↦ rw n (simp siblings-enqueue_hooks)
]

terminal-not-in_flight :
    (state : RunState) {s : TicketStatus}
    → ticket_status_of state ≡ some s
    → in_flight state ≡ false
unfolding ticket_status_of
terminal-not-in_flight RunState.queued h = refl
terminal-not-in_flight RunState.running h = cc
terminal-not-in_flight RunState.paused h = cc
terminal-not-in_flight RunState.completed h = refl
terminal-not-in_flight RunState.failed h = refl
terminal-not-in_flight RunState.cancelled h = refl
terminal-not-in_flight RunState.killed h = refl

-- When a run ends, the queue of its ticket moves on: at most one run is in flight, and one is while
-- others wait, where ids of runs are distinct and at most one run was in flight before.
pub enter_terminal-Moving :
    (services : Services) (state : RunState) (reason : Option String) (w : World) {v : World}
    → IsNodup (run_ids (runs_of w))
    → OneInFlight w
    → enter_terminal services state reason w ≡ ok v
    → Moving v
unfolding enter_terminal
enter_terminal-Moving services state reason w {v} d h e =
    elim (Option-cases (ticket_status_of state)) [
      | inl n ↦
          let k : ◌≡◌ {A = Done} (err key_error) (ok v) = sym (rw (n, enter_terminal) refl) ∙ e in
          cc
      | inr (s, y) ↦
          let c = close_run services state s reason w in
          let k : ◌≡◌ {A = Done} (ok (promote_oldest_queued c)) (ok v) =
            sym (rw (y, enter_terminal) refl) ∙ e in
          let r = run-close_run services state s reason w in
          let q = siblings-close_run services state s reason w in
          let out : weight in_flight c.run ≡ 0 =
            ap (weight in_flight) r ∙ (rw (terminal-not-in_flight state y) refl) in
          let same : count in_flight c.siblings ≡ count in_flight w.siblings =
            ap (count in_flight) q in
          let ids : run_ids (runs_of c) ≡ run_ids (runs_of w) =
            ap (λ (z : Run). z.id ∷ run_ids c.siblings) r ∙ ap (λ rs. w.run.id ∷ run_ids rs) q in
          subst Moving (ok-injective k) (
            promote_oldest_queued-Moving c (subst IsNodup (sym ids) d)
              (omega (arith, out, same, h)))
    ]

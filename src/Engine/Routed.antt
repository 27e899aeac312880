-- ===== src/Engine/Routed.antt =====
-- What ROUTE_RUN does with a run (apps/backend/app/domain/pipelines/engine.py).
use yaaos.Prelude.{
  ℕ, suc, ◌+◌, String, true, not, ◌≡◌, refl, ap, sym, ◌∙◌, Option, none, some, List, [], ◌∷◌, ◌++◌,
  ok, err, false, arith, Bool-cases, Option-cases, inl, inr, ◌⊎◌, if◌then◌else◌, or_else, leb,
  length, any, ◌==◌,
}
use mathlib.Core.Path.{subst}
use yaaos.Tickets.{TicketStatus}
use yaaos.Engine.Rows.{
  Run, RunState, completed, failed, cancelled, Task, RouteOutcome, Notification, Effect,
}
use yaaos.Engine.World.{
  World, Done, dispatch_error, workspace_not_found, Services, take_run, focus, is_running,
  is_queued, in_flight, enqueue, leave,
}
use yaaos.Engine.Promotion.{
  attempt_promotion, promote, promote_candidate, promote_oldest_queued, oldest_queued,
}
use yaaos.Engine.Terminal.{
  close_run, enter_terminal, notify, enqueue_hooks, is_failed, finish_or_cleanup,
  dispatch_cleanup_stage, park_cleanup, is_cleanup, ticket_status_of,
}
use yaaos.Engine.Route.{dispatch_stage, is_failure, route_next, route_run_impl}

-- Whether the task starts a stage.
abbrev pub is_start : Task → ℕ
is_start (Task.start_stage r i) = 1
is_start _ = 0

-- The number of the stages that the outbox starts.
abbrev pub starts : List Task → ℕ
starts [] = 0
starts (t ∷ ts) = is_start t + starts ts

starts-append : (ts us : List Task) → starts (ts ++ us) ≡ starts ts + starts us
starts-append [] us = omega arith
starts-append (t ∷ ts) us = omega (arith, starts-append ts us)

outbox-notify : (n : Notification) (us : List ℕ) (w : World) → (notify n us w).outbox ≡ w.outbox
unfolding notify
outbox-notify n [] w = refl
outbox-notify n (u ∷ us) w = outbox-notify n us (leave (Effect.notified u n) w)

starts-enqueue_hooks :
    (hs : List ℕ) (w : World) → starts (enqueue_hooks hs w).outbox ≡ starts w.outbox
unfolding enqueue_hooks
starts-enqueue_hooks [] w = refl
starts-enqueue_hooks (h ∷ hs) w =
    starts-enqueue_hooks hs (enqueue (Task.terminal_hook h) w)
    ∙ starts-append w.outbox (Task.terminal_hook h ∷ [])
    ∙ (omega arith)

starts-close_run :
    (services : Services) (state : RunState) (to_status : TicketStatus) (reason : Option String)
    (w : World)
    → starts (close_run services state to_status reason w).outbox ≡ starts w.outbox
unfolding close_run
starts-close_run services state to_status reason w = elim (Bool-cases (is_failed state)) [
  | inl y ↦ rw y (simp (starts-enqueue_hooks, outbox-notify))
  | inr n ↦ rw n (simp starts-enqueue_hooks)
]

outbox-focus : (id : ℕ) (w : World) {v : World} → focus id w ≡ some v → v.outbox ≡ w.outbox
unfolding focus
outbox-focus id w {v} h = elim (Bool-cases (w.run.id == id)) [
  | inl y ↦
      let e : ◌≡◌ {A = Option World} (some w) (some v) = sym (rw (y, focus) refl) ∙ h in
      let e' : w ≡ v = cc in ap (λ (z : World). z.outbox) (sym e')
  | inr n ↦ elim (Option-cases (take_run id w.siblings)) [
    | inl e ↦ let k : ◌≡◌ {A = Option World} none (some v) = sym (rw (n, e, focus) refl) ∙ h in cc
    | inr ((q, qs), e) ↦
        let k : ◌≡◌ {A = Option World} (some (record w { run = q; siblings = w.run ∷ qs }))
            (some v) =
          sym (rw (n, e, focus) refl) ∙ h in
        let k' : record w { run = q; siblings = w.run ∷ qs } ≡ v = cc in
        ap (λ (z : World). z.outbox) (sym k')
  ]
]

starts-attempt_promotion : (w : World) → starts (attempt_promotion w).outbox ≡ starts w.outbox
unfolding attempt_promotion promote
starts-attempt_promotion w = elim (Bool-cases (is_queued w.run.state)) [
  | inr n ↦ rw n refl
  | inl y ↦ elim (Bool-cases (any (λ (r : Run). in_flight r.state) w.siblings)) [
    | inl f ↦ rw (y, f) refl
    | inr f ↦
        rw (y, f)
          (starts-append w.outbox (Task.route_run w.run.id none none none ∷ []) ∙ (omega arith))
  ]
]

starts-promote_candidate :
    (id : ℕ) (w : World) → starts (promote_candidate id w).outbox ≡ starts w.outbox
unfolding promote_candidate
starts-promote_candidate id w = elim (Option-cases (focus id w)) [
  | inl n ↦ rw (n, promote_candidate) refl
  | inr (v, e) ↦ elim (Option-cases (focus w.run.id (attempt_promotion v))) [
    | inl n ↦ rw (e, n, promote_candidate) refl
    | inr (back, f) ↦
        rw (e, f, promote_candidate)
          (ap starts (outbox-focus w.run.id (attempt_promotion v) f)
            ∙ starts-attempt_promotion v
            ∙ ap starts (outbox-focus id w e))
  ]
]

starts-promote_oldest_queued :
    (w : World) → starts (promote_oldest_queued w).outbox ≡ starts w.outbox
unfolding promote_oldest_queued
starts-promote_oldest_queued w = elim (Option-cases (oldest_queued (w.run ∷ w.siblings))) [
  | inl n ↦ rw (n, promote_oldest_queued) refl
  | inr (id, e) ↦ rw (e, promote_oldest_queued) (starts-promote_candidate id w)
]

-- The run has a workspace without a row, and is not in its cleanup.
abbrev pub Dangles : Services → World → Type 0
Dangles services w =
    (id : ℕ) × (w.run.workspace_id ≡ some id)
    × (services.workspace_status id ≡ none)
    × (is_cleanup w.run.phase ≡ false)

-- A step ends in a world and starts no stage, or it raises that the workspace is not found, where the
-- workspace of the run has no row.
abbrev pub Halts : Services → World → Done → Type 0
Halts services w d =
    ((v : World) × (d ≡ ok v) × (starts v.outbox ≡ starts w.outbox))
    ⊎ ((d ≡ err (dispatch_error workspace_not_found)) × Dangles services w)

enter_terminal-ok :
    (services : Services) (state : RunState) {s : TicketStatus} (reason : Option String) (w : World)
    → ticket_status_of state ≡ some s
    → (v : World) × (enter_terminal services state reason w ≡ ok v)
      × (starts v.outbox ≡ starts w.outbox)
unfolding enter_terminal
enter_terminal-ok services state {s} reason w h =
    let c = close_run services state s reason w in
    (
      promote_oldest_queued c,
      rw (h, enter_terminal) refl,
      starts-promote_oldest_queued c ∙ starts-close_run services state s reason w,
    )

finish_or_cleanup-Halts :
    (services : Services) (state : RunState) {s : TicketStatus} (reason : Option String) (w : World)
    → ticket_status_of state ≡ some s
    → Halts services w (finish_or_cleanup services state reason w)
unfolding finish_or_cleanup dispatch_cleanup_stage park_cleanup
finish_or_cleanup-Halts services state {s} reason w h =
    let w₁ : World = record w { run = record w.run { failure_reason = reason } } in
    let (v, e, k) = enter_terminal-ok services state reason w₁ h in
    let by_workspace : Option ℕ → Done = λ o. elim o [
      | none ↦ enter_terminal services state reason w₁
      | some id ↦
          if not (is_cleanup w.run.phase)
          then dispatch_cleanup_stage services id w₁
          else enter_terminal services state reason w₁
    ] in
    elim (Option-cases w.run.workspace_id) [
      | inl n ↦ inl (v, ap by_workspace n ∙ e, k)
      | inr (id, y) ↦ elim (Bool-cases (is_cleanup w.run.phase)) [
        | inl c ↦ inl (v, ap by_workspace y ∙ (rw c e), k)
        | inr c ↦ elim (Option-cases (services.workspace_status id)) [
          | inl m ↦
              inr (ap by_workspace y ∙ (rw (c, dispatch_cleanup_stage, m) refl), (id, y, m, c))
          | inr (at, m) ↦ inl (
            park_cleanup id w₁,
            ap by_workspace y ∙ (rw (c, dispatch_cleanup_stage, m) refl),
            refl,
          )
        ]
      ]
    ]

-- An answer that is the same one.
Halts-eq :
    (services : Services) (w : World) (c d : Done) → c ≡ d → Halts services w d → Halts services w c
Halts-eq services w c d e h = subst (Halts services w) (sym e) h

starts-dispatch_stage :
    (i : ℕ) (w : World) → starts (dispatch_stage i w).outbox ≡ suc (starts w.outbox)
unfolding dispatch_stage
starts-dispatch_stage i w =
    starts-append w.outbox (Task.start_stage w.run.id (some i) ∷ []) ∙ (omega arith)

-- ROUTE_RUN after a finished stage of a run whose cancellation was requested starts no further stage,
-- whatever the outcome of the stage was. It raises only that the workspace is not found, and only
-- where the run has a workspace without a row and is not in its cleanup.
pub route_run_impl_cancelled :
    (services : Services) (w : World) (done : ℕ) (outcome : Option RouteOutcome)
    (reason : Option String)
    → w.run.cancel_requested ≡ true
    → Halts services w (route_run_impl services (some done) outcome reason w)
unfolding route_run_impl ticket_status_of
route_run_impl_cancelled services w done outcome reason c =
    elim (Bool-cases (is_running w.run.state)) [
      | inr n ↦ inl (w, rw (n, route_run_impl) refl, refl)
      | inl y ↦ elim (Bool-cases (is_failure outcome)) [
        | inl f ↦
            Halts-eq services w _ (finish_or_cleanup services failed reason w)
              (rw (y, f, route_run_impl) refl)
              (finish_or_cleanup-Halts services failed {s = TicketStatus.failed} reason w refl)
        | inr f ↦
            Halts-eq services w _ (finish_or_cleanup services cancelled none w)
              (rw (y, f, c, route_run_impl) refl)
              (finish_or_cleanup-Halts services cancelled {s = TicketStatus.cancelled} none w refl)
      ]
    ]

-- ROUTE_RUN halts, or it ends in a world in which the outbox starts one stage more.
abbrev pub Routes : Services → World → Done → Type 0
Routes services w d =
    Halts services w d
    ⊎ ((v : World) × (d ≡ ok v)
        × (starts v.outbox ≡ suc (starts w.outbox))
        × (is_running w.run.state ≡ true))

-- ROUTE_RUN starts at most one stage, which it does only for a running run. It raises only that the
-- workspace is not found, and only where the run has a workspace without a row and is not in its
-- cleanup.
pub route_run_impl-Routes :
    (services : Services) (w : World) (finished : Option ℕ) (outcome : Option RouteOutcome)
    (reason : Option String)
    → Routes services w (route_run_impl services finished outcome reason w)
unfolding route_run_impl route_next dispatch_stage ticket_status_of
route_run_impl-Routes services w finished outcome reason =
    elim (Bool-cases (is_running w.run.state)) [
      | inr n ↦ inl (inl (w, rw (n, route_run_impl) refl, refl))
      | inl y ↦
          elim finished as (λ k. Routes services w (route_run_impl services k outcome reason w)) [
            | none ↦ inr (
              dispatch_stage (or_else w.run.current_stage_index 0) w,
              rw (y, route_run_impl) refl,
              starts-dispatch_stage (or_else w.run.current_stage_index 0) w,
              y,
            )
            | some done ↦ elim (Bool-cases w.run.cancel_requested) [
              | inl c ↦ inl (route_run_impl_cancelled services w done outcome reason c)
              | inr c ↦ elim (Bool-cases (is_failure outcome)) [
                | inl f ↦ inl (
                    Halts-eq services w _ (finish_or_cleanup services failed reason w)
                      (rw (y, f, route_run_impl) refl)
                      (finish_or_cleanup-Halts services failed {s = TicketStatus.failed} reason w
                        refl))
                | inr f ↦
                    elim (Bool-cases (leb (length w.run.definition_snapshot.stages) (done + 1))) [
                      | inl l ↦ inl (
                          Halts-eq services w _ (finish_or_cleanup services completed none w)
                            (rw (y, f, c, route_run_impl, l, route_next) refl)
                            (finish_or_cleanup-Halts services completed {s = TicketStatus.done} none
                              w refl))
                      | inr l ↦ inr (
                        dispatch_stage (done + 1) w,
                        rw (y, f, c, route_run_impl, l, route_next) refl,
                        starts-dispatch_stage (done + 1) w,
                        y,
                      )
                    ]
              ]
            ]
          ]
    ]

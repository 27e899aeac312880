-- ===== src/Engine/Answered.antt =====
-- The answers to a pause (apps/backend/app/domain/pipelines/service.py, `resolve_pause`).
use yaaos.Prelude.{
  ℕ, true, false, ◌≡◌, refl, ap, sym, ◌∙◌, Option, none, some, List, [], ◌∷◌, ok, err, arith,
  Bool-cases, Option-cases, inl, inr, is_some, ◌==◌, ok-injective,
}
use yaaos.Actor.{Actor}
use yaaos.Engine.Rows.{RunPause, StageExecution, approve}
use yaaos.Engine.World.{
  World, Done, Services, assertion_error, take_run, focus, replace_pause, get_exec,
}
use yaaos.Engine.Requests.{
  PauseResolution, Answer, pause_not_found, run_not_found, not_escalation_target,
  pause_already_resolved, find_pause, resume, resume_from_pause, lift_raised, stamp, act,
  is_pause_responder, resolve_pause,
}

find_pause-replace_pause :
    (id : ℕ) (p q : RunPause) (ps : List RunPause)
    → find_pause id ps ≡ some p
    → q.id ≡ id
    → find_pause id (replace_pause q ps) ≡ some q
find_pause-replace_pause id p q [] h e = cc
find_pause-replace_pause id p q (x ∷ xs) h e = elim (Bool-cases (x.id == id)) [
  | inl y ↦
      let k : (x.id == q.id) ≡ true = ground arith in
      let l : (q.id == id) ≡ true = ground arith in rw (k, l) refl
  | inr n ↦
      let k : (x.id == q.id) ≡ false = ground arith in
      let h' : find_pause id xs ≡ some p = sym (rw n refl) ∙ h in
      rw (k, n) (find_pause-replace_pause id p q xs h' e)
]

find_pause-id : (id : ℕ) (ps : List RunPause) {p : RunPause} → find_pause id ps ≡ some p → p.id ≡ id
find_pause-id id [] h = cc
find_pause-id id (x ∷ xs) {p} h = elim (Bool-cases (x.id == id)) [
  | inl y ↦
      let e : ◌≡◌ {A = Option RunPause} (some x) (some p) = sym (rw y refl) ∙ h in
      let e' : x ≡ p = cc in ap (λ (z : RunPause). z.id) (sym e') ∙ (ground arith)
  | inr n ↦ let h' : find_pause id xs ≡ some p = sym (rw n refl) ∙ h in find_pause-id id xs h'
]

pauses-focus : (id : ℕ) (w : World) {v : World} → focus id w ≡ some v → v.pauses ≡ w.pauses
unfolding focus
pauses-focus id w {v} h = elim (Bool-cases (w.run.id == id)) [
  | inl y ↦
      let e : ◌≡◌ {A = Option World} (some w) (some v) = sym (rw (y, focus) refl) ∙ h in
      let e' : w ≡ v = cc in ap (λ (z : World). z.pauses) (sym e')
  | inr n ↦ elim (Option-cases (take_run id w.siblings)) [
    | inl e ↦ let k : ◌≡◌ {A = Option World} none (some v) = sym (rw (n, e, focus) refl) ∙ h in cc
    | inr ((q, qs), e) ↦
        let k : ◌≡◌ {A = Option World} (some (record w { run = q; siblings = w.run ∷ qs }))
            (some v) =
          sym (rw (n, e, focus) refl) ∙ h in
        let k' : record w { run = q; siblings = w.run ∷ qs } ≡ v = cc in
        ap (λ (z : World). z.pauses) (sym k')
  ]
]

-- The pause after it is answered.
abbrev pub answered : RunPause → PauseResolution → ℕ → World → RunPause
answered p r user w = record p {
  resolution = some r.action;
  instruction = r.instruction;
  send_back_to_stage = r.send_back_to_stage;
  resolved_by = some user;
  resolved_at = some w.now;
}

lifted :
    (o : Option StageExecution) (f : StageExecution → World) {v : World}
    → lift_raised (elim o as (λ k. Done) [ none ↦ err assertion_error | some x ↦ ok (f x) ]) ≡ ok v
    → (x : StageExecution) × (f x ≡ v)
unfolding lift_raised
lifted none f h = cc
lifted (some x) f h = (x, ok-injective h)

module _ (services : Services) where
  pauses-act :
      (p : RunPause) (r : PauseResolution) (user : ℕ) (w : World) {v : World}
      → act services approve p r user w ≡ ok v
      → v.pauses ≡ replace_pause (answered p r user w) w.pauses
  unfolding act stamp resume_from_pause resume
  pauses-act p r user w {v} h =
      let (x, q) = lifted (get_exec p.stage_execution_id w.execs) _ h in
      ap (λ (z : World). z.pauses) (sym q)

  -- What an accepted answer went by.
  record Accepted (id : ℕ) (r : PauseResolution) (actor : Actor) (w v : World) : Type 0 where
    row : RunPause
    user : ℕ
    held : World
    at : find_pause id w.pauses ≡ some row
    by_user : actor.user_id ≡ some user
    responds : is_pause_responder services user row.escalation_user_ids ≡ true
    focused : focus row.run_id w ≡ some held
    acted : act services r.action row r user held ≡ ok v

  resolve_pause-Accepted :
      (id : ℕ) (r : PauseResolution) (actor : Actor) (w : World) {v : World}
      → resolve_pause services id r actor w ≡ ok v
      → Accepted id r actor w v
  unfolding resolve_pause
  resolve_pause-Accepted id r actor w {v} h = elim (Option-cases (find_pause id w.pauses)) [
    | inl n ↦
        let k : ◌≡◌ {A = Answer} (err pause_not_found) (ok v) =
          sym (rw (n, resolve_pause) refl) ∙ h in
        cc
    | inr (p, a) ↦ elim (Option-cases actor.user_id) [
      | inl n ↦
          let k : ◌≡◌ {A = Answer} (err not_escalation_target) (ok v) =
            sym (rw (a, resolve_pause, n) refl) ∙ h in
          cc
      | inr (user, b) ↦ elim (Bool-cases (is_pause_responder services user p.escalation_user_ids)) [
        | inr n ↦
            let k : ◌≡◌ {A = Answer} (err not_escalation_target) (ok v) =
              sym (rw (a, resolve_pause, b, n) refl) ∙ h in
            cc
        | inl c ↦ elim (Bool-cases (is_some p.resolved_at)) [
          | inl n ↦
              let k : ◌≡◌ {A = Answer} (err pause_already_resolved) (ok v) =
                sym (rw (a, resolve_pause, b, c, n) refl) ∙ h in
              cc
          | inr d ↦ elim (Option-cases (focus p.run_id w)) [
            | inl n ↦
                let k : ◌≡◌ {A = Answer} (err run_not_found) (ok v) =
                  sym (rw (a, resolve_pause, b, c, d, n) refl) ∙ h in
                cc
            | inr (u, f) ↦ record {
              row = p;
              user = user;
              held = u;
              at = a;
              by_user = b;
              responds = c;
              focused = f;
              acted = sym (rw (a, resolve_pause, b, c, d, f) refl) ∙ h;
            }
          ]
        ]
      ]
    ]
  ]

  resolved-refused :
      (id : ℕ) (r : PauseResolution) (actor : Actor) (v : World) (p : RunPause) (user : ℕ)
      → find_pause id v.pauses ≡ some p
      → actor.user_id ≡ some user
      → is_pause_responder services user p.escalation_user_ids ≡ true
      → is_some p.resolved_at ≡ true
      → resolve_pause services id r actor v ≡ err pause_already_resolved
  unfolding resolve_pause
  resolved-refused id r actor v p user a b c d = rw (a, resolve_pause, b, c, d) refl

-- A pause is answered once: after an approval that was accepted, any further answer of the same user
-- is refused because the pause is resolved, whatever it asks for.
pub resolve_pause_once :
    (services : Services) (id : ℕ) (r again : PauseResolution) (actor : Actor) (w : World)
    {v : World}
    → r.action ≡ approve
    → resolve_pause services id r actor w ≡ ok v
    → resolve_pause services id again actor v ≡ err pause_already_resolved
resolve_pause_once services id r again actor w {v} e h =
    let a = resolve_pause-Accepted services id r actor w h in
    let acted : act services approve a.row r a.user a.held ≡ ok v =
      ap (λ z. act services z a.row r a.user a.held) (sym e) ∙ a.acted in
    let ps : v.pauses ≡ replace_pause (answered a.row r a.user a.held) w.pauses =
      pauses-act services a.row r a.user a.held acted
      ∙ ap (replace_pause (answered a.row r a.user a.held))
          (pauses-focus a.row.run_id w a.focused) in
    let found : find_pause id v.pauses ≡ some (answered a.row r a.user a.held) =
      ap (find_pause id) ps
      ∙ find_pause-replace_pause id a.row (answered a.row r a.user a.held) w.pauses a.at
          (find_pause-id id w.pauses a.at) in
    resolved-refused services id again actor v (answered a.row r a.user a.held) a.user found
      a.by_user a.responds refl

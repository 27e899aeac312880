-- ===== src/Engine/Resumed.antt =====
-- What is handed to a run whose command ran out of attempts: the lease of
-- apps/backend/app/core/agent_gateway/service.py with the sweep of
-- apps/backend/app/domain/pipelines/scheduler_jobs.py.
use yaaos.Prelude.{
  ℕ, ◌≤◌, Bool, true, false, ◌&&◌, ◌≡◌, refl, sym, ◌∙◌, ap, Option, some, List, [], ◌∷◌, arith, leb,
  update_where, first_where, Bool-cases, Option-cases, inl, inr,
}
use mathlib.Core.List.{Memᴰ}
use mathlib.Core.Path.{subst}
use yaaos.Gateway.Rows.{CommandRow, CommandStatus, done, Fleet}
use yaaos.Gateway.Queue.{has_id, get_command, get_command_status}
use yaaos.Gateway.Lease.{is_stale, requeue_row, requeue_stale_claimed}
use yaaos.Engine.Rows.{Run}
use yaaos.Engine.World.{is_running}
use yaaos.Engine.Sweeps.{resumption, lost_command, reconcile_lost_resume}

first_where-requeued :
    (i now : ℕ) (cs : List CommandRow) {c : CommandRow}
    → first_where (has_id i) cs ≡ some c
    → is_stale now c ≡ true
    → 4 ≤ c.attempt
    → (d : CommandRow) × (first_where (has_id i) (update_where (is_stale now) requeue_row cs)
        ≡ some d)
      × (d.status ≡ done)
unfolding requeue_row
first_where-requeued i now [] e y l = cc
first_where-requeued i now (b ∷ cs) {c} e y l = elim (Bool-cases (has_id i b)) [
  | inl z ↦
      let k : ◌≡◌ {A = Option CommandRow} (some b) (some c) = sym (rw z refl) ∙ e in
      let k' : b ≡ c = cc in
      let y' : is_stale now b ≡ true = subst (λ x. is_stale now x ≡ true) (sym k') y in
      let l' : leb 4 b.attempt ≡ true =
        subst (λ (x : CommandRow). leb 4 x.attempt ≡ true) (sym k') (ground (arith, l)) in
      (record b { status = done; attempt = 5 }, simp (y', requeue_row, l', z) refl, refl)
  | inr n ↦
      let (d, f, s) = first_where-requeued i now cs (sym (rw n refl) ∙ e) y l in
      elim (Bool-cases (is_stale now b)) [
        | inl w ↦
            let n' : has_id i (requeue_row b) ≡ false = elim (Bool-cases (leb 4 b.attempt)) [
              | inl m ↦ rw (requeue_row, m) n
              | inr m ↦ rw (requeue_row, m) n
            ] in
            (d, rw (w, n') f, s)
        | inr w ↦ (d, rw (w, n) f, s)
      ]
]

resumption-Memᴰ :
    (stale : ℕ → Bool) (status : ℕ → Option CommandStatus) (rs : List Run) (r : Run) {c : ℕ}
    → Memᴰ r rs
    → is_running r.state ≡ true
    → stale r.id ≡ true
    → lost_command status r.pending_agent_command_id ≡ some c
    → Memᴰ (resumption r.id c) (reconcile_lost_resume stale status rs)
unfolding reconcile_lost_resume
resumption-Memᴰ stale status [] r m a b l = elim m [ ]
resumption-Memᴰ stale status (q ∷ rs) r {c} (Memᴰ.head e) a b l =
    let a' : is_running q.state ≡ true = subst (λ (x : Run). is_running x.state ≡ true) e a in
    let b' : stale q.id ≡ true = subst (λ (x : Run). stale x.id ≡ true) e b in
    let l' : lost_command status q.pending_agent_command_id ≡ some c =
      subst (λ (x : Run). lost_command status x.pending_agent_command_id ≡ some c) e l in
    let y : (is_running q.state && stale q.id) ≡ true = ground (arith, a', b') in
    rw (reconcile_lost_resume, y, l') (Memᴰ.head (ap (λ (x : Run). resumption x.id c) e))
resumption-Memᴰ stale status (q ∷ rs) r {c} (Memᴰ.tail m) a b l =
    let rest = resumption-Memᴰ stale status rs r m a b l in
    elim (Bool-cases (is_running q.state && stale q.id)) [
      | inr n ↦ rw (reconcile_lost_resume, n) rest
      | inl y ↦ elim (Option-cases (lost_command status q.pending_agent_command_id)) [
        | inl f ↦ rw (reconcile_lost_resume, y, f) rest
        | inr (d, f) ↦ rw (reconcile_lost_resume, y, f) (Memᴰ.tail rest)
      ]
    ]

-- A stalled running run that waits for a claimed command, of which the last lease has run out, at
-- attempt 4 or a later one, is handed the failure: once the reaper has swept the leases, the next sweep
-- over the runs leaves a task with a failure of this command for the run.
pub reconcile_lost_resume-requeue_stale_claimed :
    (stale : ℕ → Bool) (rs : List Run) (r : Run) (i : ℕ) (s : Fleet) {c : CommandRow}
    → Memᴰ r rs
    → is_running r.state ≡ true
    → stale r.id ≡ true
    → r.pending_agent_command_id ≡ some i
    → get_command i s ≡ some c
    → is_stale s.now c ≡ true
    → 4 ≤ c.attempt
    → Memᴰ
        (resumption r.id i)
        (reconcile_lost_resume stale (λ j. get_command_status j (requeue_stale_claimed s)) rs)
unfolding requeue_stale_claimed
reconcile_lost_resume-requeue_stale_claimed stale rs r i s m a b p g y l =
    let (d, f, e) = first_where-requeued i s.now s.commands g y l in
    let status : ℕ → Option CommandStatus = λ j. get_command_status j (requeue_stale_claimed s) in
    let known : status i ≡ some done =
      rw (get_command_status, get_command, f) (ap (λ (x : CommandStatus). some x) e) in
    let lost : lost_command status r.pending_agent_command_id ≡ some i =
      rw p (rw (lost_command, known) refl) in
    resumption-Memᴰ stale status rs r m a b lost

-- ===== src/Gateway/Delivery.antt =====
-- What the operations on the queue of commands do to its rows
-- (apps/backend/app/core/agent_gateway/service.py).
use yaaos.Prelude.{
  ℕ, ◌≤◌, ◌<◌, Bool, true, ◌&&◌, ◌≡◌, refl, sym, Option, none, some, [], ◌∷◌, ◌++◌, arith,
  update_where, Bool-cases, inl, inr, any, IsNodup, ok, leb, >>=-eq-ok, guard-eq-ok, ok-injective,
}
use mathlib.Core.Path.{subst}
use yaaos.Gateway.Rows.{
  CommandRow, CommandStatus, delivered, done, Fleet, Platform, Payload, is_claimed, new_id,
  CommandKind,
}
use yaaos.Gateway.Queue.{
  AgentCommand, has_id, pending_row, enqueue_command_payload, enqueue_command, pin_command_to_agent,
  enqueue_for_agent, update_command,
}
use yaaos.Gateway.Lease.{
  acknowledge_command_received, retire_command, is_stale, requeue_row, requeue_stale_claimed,
}
use yaaos.Gateway.Evolution.{
  Evolves, Evolution, Evolution-refl, Evolution-trans, Evolution-update_where, Evolution-append,
  stage, retired,
}
use yaaos.Gateway.Unique.{ids, Unique, ids-update_where, IsNodup-append}

-- The rows evolve, and stay under distinct keys.
abbrev pub Sound : Fleet → Fleet → Type 0
Sound s t = Evolution s.commands t.commands × Unique t

pub Sound-refl : (s : Fleet) → Unique s → Sound s s
Sound-refl s u = (Evolution-refl s.commands, u)

pub Sound-trans : (s t v : Fleet) → Sound s t → Sound t v → Sound s v
Sound-trans s t v h k = (Evolution-trans h.0 k.0, k.1)

-- An operation that leaves the table alone.
pub Sound-same : (s t : Fleet) → Unique s → s.commands ≡ t.commands → Sound s t
Sound-same s t u e =
    (subst (Evolution s.commands) e (Evolution-refl s.commands), subst (λ cs. IsNodup (ids cs)) e u)

update_where-Sound :
    (p : CommandRow → Bool) (f : CommandRow → CommandRow) (s : Fleet)
    → ((c : CommandRow) → p c ≡ true → Evolves c (f c))
    → ((c : CommandRow) → (f c).id ≡ c.id)
    → Unique s
    → Sound s (record s { commands = update_where p f s.commands })
update_where-Sound p f s h k u = (
  Evolution-update_where p f s.commands h,
  subst IsNodup (sym (ids-update_where p f s.commands k)) u,
)

pub pin_command_to_agent-Sound :
    (i a : ℕ) (s : Fleet) → Unique s → Sound s (pin_command_to_agent i a s)
unfolding pin_command_to_agent
pin_command_to_agent-Sound i a s u =
    update_where-Sound (has_id i) (λ c. record c { agent_id = some a }) s
      (λ c y. record {
        same_id = refl;
        same_run = refl;
        same_kind = refl;
        stays_done = omega arith;
        advances = omega arith;
        attempts = omega arith;
      })
      (λ c. refl) u

retired-stage : (a b : CommandStatus) → stage a ≤ stage b → retired a ≤ retired b
retired-stage a b h = ground arith

stage-claimed : (a : CommandStatus) → is_claimed a ≡ true → stage a ≤ 2
stage-claimed a h = ground arith

stage-bounded : (a : CommandStatus) → stage a ≤ 3
stage-bounded a = ground arith

retired-claimed : (a : CommandStatus) → is_claimed a ≡ true → retired a ≤ 0
retired-claimed a h = ground arith

-- A row in another state.
Evolves-status :
    (c : CommandRow) (to : CommandStatus)
    → stage c.status ≤ stage to
    → Evolves c (record c { status = to })
Evolves-status c to h = record {
  same_id = refl;
  same_run = refl;
  same_kind = refl;
  stays_done = retired-stage c.status to h;
  advances = omega (arith, h);
  attempts = omega arith;
}

pub acknowledge_command_received-Sound :
    (i : ℕ) (s : Fleet) → Unique s → Sound s (acknowledge_command_received i s)
unfolding acknowledge_command_received
acknowledge_command_received-Sound i s u =
    update_where-Sound (λ c. has_id i c && is_claimed c.status)
      (λ c. record c { status = delivered }) s
      (λ c y. Evolves-status c delivered (stage-claimed c.status (ground arith))) (λ c. refl) u

pub retire_command-Sound : (i : ℕ) (s : Fleet) → Unique s → Sound s (retire_command i s)
unfolding retire_command
retire_command-Sound i s u =
    update_where-Sound (has_id i) (λ c. record c { status = done }) s
      (λ c y. Evolves-status c done (stage-bounded c.status)) (λ c. refl) u

requeue_row-Evolves : (c : CommandRow) → is_claimed c.status ≡ true → Evolves c (requeue_row c)
unfolding requeue_row
requeue_row-Evolves c y = elim (Bool-cases (leb 4 c.attempt)) [
  | inl l ↦ rw l (record {
    same_id = refl;
    same_run = refl;
    same_kind = refl;
    stays_done = retired-stage c.status done (stage-bounded c.status);
    advances = omega (arith, stage-bounded c.status);
    attempts = omega arith;
  })
  | inr l ↦
      let few : c.attempt < 4 = ground (arith, l) in
      rw l (record {
        same_id = refl;
        same_run = refl;
        same_kind = refl;
        stays_done = retired-claimed c.status y;
        advances = omega (arith, few, stage-claimed c.status y);
        attempts = omega (arith, few);
      })
]

id-requeue_row : (c : CommandRow) → (requeue_row c).id ≡ c.id
unfolding requeue_row
id-requeue_row c = elim (Bool-cases (leb 4 c.attempt)) [ inl l ↦ rw l refl | inr l ↦ rw l refl ]

pub requeue_stale_claimed-Sound : (s : Fleet) → Unique s → Sound s (requeue_stale_claimed s)
unfolding requeue_stale_claimed
requeue_stale_claimed-Sound s u =
    update_where-Sound (is_stale s.now) requeue_row s (λ c y. requeue_row-Evolves c (ground arith))
      id-requeue_row u

-- The new row has a key of its own, or the insert is refused.
pub enqueue_command_payload-Sound :
    (p : Platform) (org : ℕ) (c : AgentCommand) (run : Option ℕ) (s : Fleet) {t : Fleet}
    → Unique s
    → enqueue_command_payload p org c run s ≡ ok t
    → Sound s t
unfolding enqueue_command_payload pending_row
enqueue_command_payload-Sound p org c run s {t} u h =
    let (free, e) = guard-eq-ok (any (has_id c.command_id) s.commands) _ _ h in
    let row = pending_row p org c run in
    let k : Sound s (record s { commands = s.commands ++ row ∷ [] }) =
      (Evolution-append s.commands row (omega arith), IsNodup-append s.commands row u free) in
    subst (Sound s) (ok-injective e) k

pub enqueue_command-Sound :
    (p : Platform) (org : ℕ) (c : AgentCommand) (run : Option ℕ) (s : Fleet) {t : Fleet}
    → Unique s
    → enqueue_command p org c run s ≡ ok t
    → Sound s t
unfolding enqueue_command
enqueue_command-Sound p org c run s u h = enqueue_command_payload-Sound p org _ run s u h

pub enqueue_for_agent-Sound :
    (p : Platform) (org a : ℕ) (kind : CommandKind) (fields : Payload) (s : Fleet) {t : Fleet}
    → Unique s
    → enqueue_for_agent p org a kind fields s ≡ ok t
    → Sound s t
unfolding enqueue_for_agent new_id
enqueue_for_agent-Sound p org a kind fields s {t} u h =
    let (v, e, k) = >>=-eq-ok (enqueue_command p org _ none (new_id s)) _ h in
    let first : Sound s v = enqueue_command-Sound p org _ none (new_id s) u e in
    let f : CommandRow → CommandRow = λ r. record r {
      agent_id = some a;
      completion_token_hash = some (p.sha256 (p.token_urlsafe v.next_token));
    } in
    let next : Sound v (update_command s.next_id f v) =
      update_where-Sound (has_id s.next_id) f v
        (λ c y. record {
          same_id = refl;
          same_run = refl;
          same_kind = refl;
          stays_done = omega arith;
          advances = omega arith;
          attempts = omega arith;
        })
        (λ c. refl) first.1 in
    subst (Sound s) (ok-injective k) (Sound-trans s v (update_command s.next_id f v) first next)

-- ===== src/Engine/Promotion.antt =====
-- How runs start: escalation targets (apps/backend/app/domain/pipelines/escalation.py) and the
-- promotion of queued runs (engine.py).
use yaaos.Prelude.{
  ℕ, Bool, true, false, not, Option, none, some, List, [], ◌∷◌, any, mem, ltb, if◌then◌else◌,
}
use yaaos.Actor.{Actor, ActorKind, user, github_user}
use yaaos.Tickets
use yaaos.Tickets.{TicketStatus}
use yaaos.Engine.Rows.{running, Kickoff, Run, Task, Effect, AuditKind}
use yaaos.Engine.World.{
  World, Services, Role, builder, is_queued, in_flight, focus, enqueue, leave, publish_run_state,
}

abbrev is_user : ActorKind → Bool
is_user user = true
is_user _ = false

abbrev is_github_user : ActorKind → Bool
is_github_user github_user = true
is_github_user _ = false

abbrev is_admin_role : Role → Bool
is_admin_role builder = false
is_admin_role _ = true

-- A set of user ids, each once.
abbrev pub add_id : ℕ → List ℕ → List ℕ
add_id a s = if mem a s then s else a ∷ s

abbrev pub union_ids : List ℕ → List ℕ → List ℕ
union_ids [] s = s
union_ids (a ∷ as') s = add_id a (union_ids as' s)

unfoldable pub org_admin_ids : List (ℕ × Role) → List ℕ
org_admin_ids [] = []
org_admin_ids ((u, r) ∷ ms) =
    let rest = org_admin_ids ms in if is_admin_role r then add_id u rest else rest

module _ (services : Services) where
  open services use {find_oauth_identity, memberships, terminal_hooks}

  -- The last two steps of the resolution order.
  unfoldable pub linked_or_admins : Actor → List ℕ
  unfolding org_admin_ids
  linked_or_admins actor =
      if is_github_user actor.kind
      then elim actor.login [
        | none ↦ org_admin_ids memberships
        | some login ↦ elim (find_oauth_identity login) [
          | none ↦ org_admin_ids memberships
          | some u ↦ u ∷ []
        ]
      ]
      else org_admin_ids memberships

  abbrev notified_or_linked : List ℕ → Actor → List ℕ
  notified_or_linked [] actor = linked_or_admins actor
  notified_or_linked (u ∷ us) actor = union_ids (u ∷ us) []

  unfoldable pub resolve_escalation_targets : Kickoff → List ℕ
  unfolding linked_or_admins
  resolve_escalation_targets k =
      let others = notified_or_linked k.notify_user_ids k.actor in
      if is_user k.actor.kind
      then elim k.actor.user_id [ none ↦ others | some u ↦ u ∷ [] ]
      else others

-- `attempt_promotion`, at the run in hand. The index refuses the update while a sibling is in flight.
unfoldable pub promote : World → World
unfolding enqueue leave publish_run_state
promote w =
    let r = record w.run { state = running } in
    let w₁ = record w { run = r; ticket = Tickets.set_current_run r.id w.ticket } in
    let w₂ = record w₁ { ticket = Tickets.transition_ticket_on_run_start r.id w₁.ticket } in
    enqueue (Task.route_run r.id none none none)
      (publish_run_state (leave (Effect.audited r.id AuditKind.run_started) w₂))

unfoldable pub attempt_promotion : World → World
attempt_promotion w =
    if not (is_queued w.run.state)
    then w
    else if any (λ (r : Run). in_flight r.state) w.siblings
    then w
    else promote w

abbrev smaller_id : ℕ → Option ℕ → Option ℕ
smaller_id a none = some a
smaller_id a (some b) = if ltb a b then some a else some b

-- `select(…).where(state == "queued").order_by(id).limit(1)`
unfoldable pub oldest_queued : List Run → Option ℕ
oldest_queued [] = none
oldest_queued (r ∷ rs) =
    let rest = oldest_queued rs in if is_queued r.state then smaller_id r.id rest else rest

-- `promote_oldest_queued`: the candidate is loaded, and the run in hand again after it.
unfoldable pub promote_candidate : ℕ → World → World
promote_candidate id w = elim (focus id w) [
  | none ↦ w
  | some w' ↦ elim (focus w.run.id (attempt_promotion w')) [ none ↦ w | some back ↦ back ]
]

unfoldable pub promote_oldest_queued : World → World
promote_oldest_queued w = elim (oldest_queued (w.run ∷ w.siblings)) [
  | none ↦ w
  | some id ↦ promote_candidate id w
]

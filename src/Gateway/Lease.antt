-- ===== src/Gateway/Lease.antt =====
-- The lease of a claimed command: `acknowledge_command_received`, `retire_command` and
-- `requeue_stale_claimed` of apps/backend/app/core/agent_gateway/service.py.
use yaaos.Prelude.{
  ℕ, suc, ◌+◌, Bool, false, ◌&&◌, Option, none, some, if◌then◌else◌, ltb, leb, update_where, ◌-◌,
}
use yaaos.Gateway.Rows.{CommandRow, pending, delivered, done, Fleet, is_claimed}
use yaaos.Gateway.Queue.{has_id, update_command}

-- `LEASE_SECONDS` and `MAX_ATTEMPT`
abbrev pub lease_seconds : ℕ
lease_seconds = 30

abbrev pub max_attempt : ℕ
max_attempt = 5

unfoldable pub acknowledge_command_received : ℕ → Fleet → Fleet
acknowledge_command_received i s = record s {
  commands =
      update_where (λ (c : CommandRow). has_id i c && is_claimed c.status)
        (λ (c : CommandRow). record c { status = delivered }) s.commands;
}

unfoldable pub retire_command : ℕ → Fleet → Fleet
retire_command i s = update_command i (λ (c : CommandRow). record c { status = done }) s

-- Claimed before the cutoff; NULL is not before it.
abbrev pub claimed_before : ℕ → Option ℕ → Bool
claimed_before now none = false
claimed_before now (some t) = ltb (t + lease_seconds) now

abbrev pub is_stale : ℕ → CommandRow → Bool
is_stale now c = is_claimed c.status && claimed_before now c.claimed_at

unfoldable pub requeue_row : CommandRow → CommandRow
requeue_row c =
    if leb (max_attempt - 1) c.attempt
    then record c { status = done; attempt = max_attempt }
    else record c { status = pending; agent_id = none; claimed_at = none; attempt = suc c.attempt }

unfoldable pub requeue_stale_claimed : Fleet → Fleet
requeue_stale_claimed s = record s {
  commands = update_where (is_stale s.now) requeue_row s.commands;
}

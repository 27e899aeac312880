-- ===== src/Gateway/Claimed.antt =====
-- What a claim does to the queue: `claim_next` of apps/backend/app/core/agent_gateway/service.py.
use yaaos.Prelude.{
  ℕ, zero, suc, ◌≤◌, ◌<◌, true, ◌≡◌, refl, sym, some, arith, first_where, Bool-cases, Option-cases,
  inl, inr, String, IsNodup, Result-cases,
}
use mathlib.Core.Path.{subst}
use yaaos.Gateway.Rows.{
  CommandRow, CommandStatus, Fleet, Platform, is_pending_command, is_run_bearing,
}
use yaaos.Gateway.Queue.{has_id, update_command, enqueue_agent_event}
use yaaos.Gateway.Claim.{
  ClaimRequest, select_eligible_row_nowait, stamp_claim, revert, claim_row, hydrate,
  retire_unhydrated, hydrate_next, claim_next, hydration_retire_cap,
}
use yaaos.Gateway.Lease.{retire_command}
use yaaos.Gateway.Evolution.{Evolves, Evolution, stage, retired}
use yaaos.Gateway.Unique.{
  Unique, ids, ids-update_where, Evolution-update_one, first_where-Memᴰ, update_where-twice,
}
use yaaos.Gateway.Delivery.{Sound, Sound-refl, Sound-trans, retire_command-Sound}
use yaaos.Gateway.Selection.{rank, Selects, select_eligible_row_nowait-Selects}

rank-pending :
    (q : ClaimRequest) (c : CommandRow) → rank q c < 3 → is_pending_command c.status ≡ true
rank-pending q c h = elim (Bool-cases (is_pending_command c.status)) [
  | inl y ↦ y
  | inr n ↦ ground (arith, h, n)
]

-- The row that a selection has found: pending, and under its key.
abbrev pub Found : Fleet → CommandRow → Type 0
Found s c = (first_where (has_id c.id) s.commands ≡ some c) × (is_pending_command c.status ≡ true)

pub select-Found :
    (q : ClaimRequest) (s : Fleet) {c : CommandRow}
    → Unique s
    → select_eligible_row_nowait q s.commands ≡ some c
    → Found s c
select-Found q s {c} u e =
    let k : Selects q s.commands (some c) =
      subst (Selects q s.commands) e (select_eligible_row_nowait-Selects q s.commands) in
    (first_where-Memᴰ s.commands u k.0, rank-pending q c k.1)

update_one-Sound :
    (f : CommandRow → CommandRow) (s : Fleet) (c : CommandRow)
    → Unique s
    → Found s c
    → Evolves c (f c)
    → ((d : CommandRow) → (f d).id ≡ d.id)
    → Sound s (update_command c.id f s)
update_one-Sound f s c u found v k = (
  Evolution-update_one c.id f s.commands u found.0 v,
  subst (λ is. IsNodup is) (sym (ids-update_where (has_id c.id) f s.commands k)) u,
)

retired-pending : (a : CommandStatus) → is_pending_command a ≡ true → retired a ≤ 0
retired-pending a h = ground arith

stage-pending : (a : CommandStatus) → is_pending_command a ≡ true → stage a ≤ 0
stage-pending a h = ground arith

claim_row-Sound :
    (p : Platform) (q : ClaimRequest) (c : CommandRow) (s : Fleet)
    → Unique s
    → Found s c
    → Sound s (claim_row p q c s)
unfolding claim_row stamp_claim
claim_row-Sound p q c s u found =
    update_one-Sound (stamp_claim p q s) s c u found
      (record {
        same_id = refl;
        same_run = refl;
        same_kind = refl;
        stays_done = omega (arith, retired-pending c.status found.1);
        advances = omega (arith, stage-pending c.status found.1);
        attempts = omega arith;
      })
      (λ d. refl)

-- A claim that is reverted leaves the row pending, as it was.
revert-Sound :
    (p : Platform) (q : ClaimRequest) (c : CommandRow) (s : Fleet)
    → Unique s
    → Found s c
    → Sound s (update_command c.id revert (claim_row p q c s))
unfolding claim_row stamp_claim
revert-Sound p q c s u found =
    let f : CommandRow → CommandRow = λ d. revert (stamp_claim p q s d) in
    let k : Sound s (update_command c.id f s) =
      update_one-Sound f s c u found
        (record {
          same_id = refl;
          same_run = refl;
          same_kind = refl;
          stays_done = omega (arith, retired-pending c.status found.1);
          advances = omega (arith, stage-pending c.status found.1);
          attempts = omega arith;
        })
        (λ d. refl) in
    let e = update_where-twice c.id revert (stamp_claim p q s) s.commands (λ d. refl) in
    (subst (Evolution s.commands) (sym e) k.0, subst (λ cs. IsNodup (ids cs)) (sym e) k.1)

commands-retire_unhydrated :
    (p : Platform) (c : CommandRow) (m : String) (s : Fleet)
    → (retire_unhydrated p c m s).commands ≡ (retire_command c.id s).commands
unfolding retire_unhydrated retire_command enqueue_agent_event
commands-retire_unhydrated p c m s = elim (Option-cases c.run_id) [
  | inl e ↦ rw (retire_unhydrated, e) refl
  | inr (run, e) ↦ rw (retire_unhydrated, e) refl
]

retire_unhydrated-Sound :
    (p : Platform) (c : CommandRow) (m : String) (s : Fleet)
    → Unique s
    → Sound s (retire_unhydrated p c m s)
retire_unhydrated-Sound p c m s u =
    let k : Sound s (retire_command c.id s) = retire_command-Sound c.id s u in
    let e = sym (commands-retire_unhydrated p c m s) in
    (subst (Evolution s.commands) e k.0, subst (λ cs. IsNodup (ids cs)) e k.1)

pub retire_unhydrated-Unique :
    (p : Platform) (q : ClaimRequest) (c : CommandRow) (m : String) (s : Fleet)
    → Unique s
    → Found s c
    → Unique (retire_unhydrated p c m (claim_row p q c s))
retire_unhydrated-Unique p q c m s u found =
    (retire_unhydrated-Sound p c m (claim_row p q c s) (claim_row-Sound p q c s u found).1).1

hydrate_next-Sound :
    (p : Platform) (q : ClaimRequest) (left : ℕ) (c : CommandRow) (s : Fleet)
    → Unique s
    → Found s c
    → Sound s (hydrate_next p q left c s).1
unfolding hydrate_next
hydrate_next-Sound p q zero c s u found = elim (Result-cases (hydrate p c)) [
  | inl (payload, e) ↦ rw (hydrate_next, e) (claim_row-Sound p q c s u found)
  | inr (m, e) ↦ rw (hydrate_next, e) (revert-Sound p q c s u found)
]
hydrate_next-Sound p q (suc left) c s u found = elim (Result-cases (hydrate p c)) [
  | inl (payload, e) ↦ rw (hydrate_next, e) (claim_row-Sound p q c s u found)
  | inr (m, e) ↦ elim (Bool-cases (is_run_bearing c.command_kind)) [
    | inr n ↦ rw (hydrate_next, e, n) (revert-Sound p q c s u found)
    | inl y ↦
        let t = claim_row p q c s in
        let v = retire_unhydrated p c m t in
        let claim : Sound s t = claim_row-Sound p q c s u found in
        let retire : Sound s v =
          Sound-trans s t v claim (retire_unhydrated-Sound p c m t claim.1) in
        elim (Option-cases (select_eligible_row_nowait q v.commands)) [
          | inl g ↦ rw (hydrate_next, e, y, g) retire
          | inr (d, g) ↦
              rw (hydrate_next, e, y, g)
                (Sound-trans s v (hydrate_next p q left d v).1 retire
                  (hydrate_next-Sound p q left d v retire.1 (select-Found q v retire.1 g)))
        ]
  ]
]

pub claim_next-Sound :
    (p : Platform) (q : ClaimRequest) (s : Fleet) → Unique s → Sound s (claim_next p q s).1
unfolding claim_next
claim_next-Sound p q s u = elim (Option-cases (select_eligible_row_nowait q s.commands)) [
  | inl e ↦ rw (claim_next, e) (Sound-refl s u)
  | inr (c, e) ↦
      rw (claim_next, e) (hydrate_next-Sound p q hydration_retire_cap c s u (select-Found q s u e))
]

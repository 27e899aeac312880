-- ===== src/Gateway/Answers.antt =====
-- What an agent is answered (apps/backend/app/core/agent_gateway/service.py): the token that it got
-- with a command, an event that comes too late, and a command that was requeued.
use yaaos.Prelude.{
  String, Bool, str_eq, or_else, ◌≢◌, ℕ, zero, suc, ◌<◌, true, false, ◌&&◌, ◌≡◌, refl, sym, ◌∙◌, ap,
  ◌↔◌, ◌⊎◌, Option, none, some, arith, first_where, Bool-cases, Option-cases, inl, inr, ok, err,
  Result-cases, eq_iff, update_where, leb, List, [], ◌∷◌,
}
use yaaos.Gateway.Rows.{
  CommandRow, claimed, delivered, Fleet, stale_claim, Platform, Payload, is_provision,
  is_unconfigured, is_claimed, is_run_bearing, EventKind,
}
use yaaos.Gateway.Queue.{has_id, get_command, get_command_status}
use yaaos.Gateway.Claim.{
  ClaimRequest, Claimed, claim_next, hydrate_next, hydrate, stamp_claim, claim_row, outbound,
  is_positive, select_eligible_row_nowait, retire_unhydrated, hydration_retire_cap,
}
use yaaos.Gateway.Lease.{acknowledge_command_received, requeue_row}
use yaaos.Gateway.Reports.{AgentEvent, is_authorized, record_agent_event, record_kind}
use mathlib.Core.Path.{subst}
use mathlib.Core.Bool.{true≢false}
use yaaos.Gateway.Unique.{Unique, first_where-update_where}
use yaaos.Gateway.Claimed.{Found, select-Found, retire_unhydrated-Unique}
use yaaos.Gateway.Selection.{rank}
use yaaos.Gateway.Refusals.{record_kind-err}

-- A command that was requeued before its last attempt can be claimed by just the agents that may
-- claim a new provision, and only if it is one itself.
pub requeue_row-rank :
    (q : ClaimRequest) (c : CommandRow)
    → c.attempt < 4
    → (rank q (requeue_row c) < 3) ↔ (
        (is_provision c.command_kind ≡ true)
        × (is_unconfigured q.lifecycle ≡ false)
        × (is_positive q.new_workspaces ≡ true))
unfolding requeue_row
requeue_row-rank q c h =
    let l : leb 4 c.attempt ≡ false = ground (arith, h) in
    rw (requeue_row, l) (λ k. ground (arith, k), λ k. ground (arith, k))

-- The row that the table keeps of a claimed command: claimed, under the hash of the token that went
-- out.
abbrev Held : Platform → Option Claimed → Fleet → Type 0
Held p none t = Unit
Held p (some m) t =
    (get_command m.row.id t ≡ some m.row)
    × (m.row.status ≡ claimed)
    × (m.row.completion_token_hash ≡ some (p.sha256 m.completion_token))

claim_row-Held :
    (p : Platform) (q : ClaimRequest) (c : CommandRow) (s : Fleet) (d : Payload)
    → Found s c
    → Held p (some (outbound p q c s d)) (claim_row p q c s)
unfolding claim_row stamp_claim outbound
claim_row-Held p q c s d found =
    (first_where-update_where c.id (stamp_claim p q s) s.commands (λ r. refl) found.0, refl, refl)

hydrate_next-Held :
    (p : Platform) (q : ClaimRequest) (left : ℕ) (c : CommandRow) (s : Fleet)
    → Unique s
    → Found s c
    → Held p (hydrate_next p q left c s).0 (hydrate_next p q left c s).1
unfolding hydrate_next
hydrate_next-Held p q zero c s u found = elim (Result-cases (hydrate p c)) [
  | inl (d, e) ↦ rw (hydrate_next, e) (claim_row-Held p q c s d found)
  | inr (m, e) ↦ rw (hydrate_next, e) tt
]
hydrate_next-Held p q (suc left) c s u found = elim (Result-cases (hydrate p c)) [
  | inl (d, e) ↦ rw (hydrate_next, e) (claim_row-Held p q c s d found)
  | inr (m, e) ↦ elim (Bool-cases (is_run_bearing c.command_kind)) [
    | inr n ↦ rw (hydrate_next, e, n) tt
    | inl y ↦
        let v = retire_unhydrated p c m (claim_row p q c s) in
        let k : Unique v = retire_unhydrated-Unique p q c m s u found in
        elim (Option-cases (select_eligible_row_nowait q v.commands)) [
          | inl g ↦ rw (hydrate_next, e, y, g) tt
          | inr (d, g) ↦
              rw (hydrate_next, e, y, g) (hydrate_next-Held p q left d v k (select-Found q v k g))
        ]
  ]
]

claim_next-Held :
    (p : Platform) (q : ClaimRequest) (s : Fleet)
    → Unique s
    → Held p (claim_next p q s).0 (claim_next p q s).1
unfolding claim_next
claim_next-Held p q s u = elim (Option-cases (select_eligible_row_nowait q s.commands)) [
  | inl e ↦ rw (claim_next, e) tt
  | inr (c, e) ↦
      rw (claim_next, e) (hydrate_next-Held p q hydration_retire_cap c s u (select-Found q s u e))
]

first_where-acknowledged :
    (i : ℕ) (cs : List CommandRow) {c : CommandRow}
    → first_where (has_id i) cs ≡ some c
    → c.status ≡ claimed
    → first_where (has_id i) (
        update_where
          (λ (r : CommandRow). has_id i r && is_claimed r.status)
          (λ (r : CommandRow). record r { status = delivered })
          cs)
      ≡ some (record c { status = delivered })
first_where-acknowledged i [] h y = cc
first_where-acknowledged i (b ∷ cs) {c} h y = elim (Bool-cases (has_id i b)) [
  | inl z ↦
      let k : ◌≡◌ {A = Option CommandRow} (some b) (some c) = sym (rw z refl) ∙ h in
      let k' : b ≡ c = cc in
      let y' : is_claimed b.status ≡ true = rw (ap (λ (r : CommandRow). r.status) k' ∙ y) refl in
      rw (z, y', z) (ap (λ (r : CommandRow). some (record r { status = delivered })) k')
  | inr n ↦ rw (n, n) (first_where-acknowledged i cs (sym (rw n refl) ∙ h) y)
]

delivered-acknowledge :
    (i : ℕ) (s : Fleet) {c : CommandRow}
    → get_command i s ≡ some c
    → c.status ≡ claimed
    → get_command_status i (acknowledge_command_received i s) ≡ some delivered
unfolding acknowledge_command_received
delivered-acknowledge i s h y =
    rw (get_command_status, get_command, first_where-acknowledged i s.commands h y) refl

-- The receipt of a claimed command, under the token that came with it, is accepted, and the command
-- is then delivered, so that no lease takes it back.
pub record_agent_event-claim_next :
    (p : Platform) (q : ClaimRequest) (e : AgentEvent) (agent : Option ℕ) (s : Fleet) {m : Claimed}
    → Unique s
    → (claim_next p q s).0 ≡ some m
    → e.command_id ≡ m.row.id
    → e.completion_token ≡ some m.completion_token
    → e.kind ≡ EventKind.received
    → (t : Fleet) × (record_agent_event p e agent (claim_next p q s).1 ≡ ok t)
      × (get_command_status m.row.id t ≡ some delivered)
unfolding record_agent_event record_kind acknowledge_command_received
record_agent_event-claim_next p q e agent s {m} u h i k l =
    let v = (claim_next p q s).1 in
    let held : Held p (some m) v = subst (λ o. Held p o v) h (claim_next-Held p q s u) in
    let found : get_command e.command_id v ≡ some m.row = rw i held.0 in
    let passes : is_authorized p e m.row ≡ true = rw (k, held.2) ((eq_iff _ _).1 refl) in
    (
      acknowledge_command_received m.row.id v,
      rw (record_agent_event, found, passes, l) refl,
      delivered-acknowledge m.row.id v held.0 held.1,
    )

-- What fails the check of a token.
unauthorized :
    (p : Platform) (token h : Option String)
    → ((elim h as (λ k. Bool) [ none ↦ true | some k ↦ str_eq (p.sha256 (or_else token "")) k ])
        ≡ false)
      ↔ ((k : String) × (h ≡ some k) × (p.sha256 (or_else token "") ≢ k))
unauthorized p token none = (λ e. cc, λ (k, e, n). cc)
unauthorized p token (some k) =
    let shown = p.sha256 (or_else token "") in
    (
      λ e. (k, refl, λ q. true≢false (sym ((eq_iff shown k).1 q) ∙ e)),
      λ (h, e, n). elim (Bool-cases (str_eq shown k)) [
        | inl y ↦ let same : k ≡ h = cc in absurd (n ((eq_iff shown k).0 y ∙ same))
        | inr m ↦ m
      ],
    )

-- An event is refused as stale just if no row has its command, or the row has a hash which is not that of
-- the token of the event, where no token counts as the empty one.
pub record_agent_event-stale :
    (p : Platform) (e : AgentEvent) (agent : Option ℕ) (s : Fleet)
    → (record_agent_event p e agent s ≡ err stale_claim) ↔ (
        (get_command e.command_id s ≡ none)
        ⊎ ((c : CommandRow) × (hash : String) × (get_command e.command_id s ≡ some c)
            × (c.completion_token_hash ≡ some hash)
            × (p.sha256 (or_else e.completion_token "") ≢ hash)))
unfolding record_agent_event
record_agent_event-stale p e agent s = (
  λ h. elim (Option-cases (get_command e.command_id s)) [
    | inl g ↦ inl g
    | inr (c, g) ↦ elim (Bool-cases (is_authorized p e c)) [
      | inr n ↦
          let (hash, k, d) = (unauthorized p e.completion_token c.completion_token_hash).0 n in
          inr (c, hash, g, k, d)
      | inl y ↦
          let k : record_kind e.kind p e c agent s ≡ err stale_claim =
            sym (rw (record_agent_event, g, y) refl) ∙ h in
          elim (record_kind-err e.kind p e c agent s k) [ ]
    ]
  ],
  λ h. elim h [
    | inl g ↦ rw (record_agent_event, g) refl
    | inr (c, hash, g, k, d) ↦
        let n : is_authorized p e c ≡ false =
          (unauthorized p e.completion_token c.completion_token_hash).1 (hash, k, d) in
        rw (record_agent_event, g, n) refl
  ],
)

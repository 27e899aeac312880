-- ===== src/Gateway/Moved.antt =====
-- A move of an agent by the liveness sweep, and the rows of the agents:
-- `compute_agent_liveness_transitions` of apps/backend/app/core/agent_gateway/service.py.
use yaaos.Prelude.{
  ℕ, Bool, true, false, ◌&&◌, ◌≡◌, refl, sym, ◌∙◌, ap, Option, none, some, List, [], ◌∷◌, arith,
  ◌==◌, if◌then◌else◌, update_where, first_where, any, IsNodup, Bool-cases, inl, inr,
}
use mathlib.Core.Path.{subst}
use yaaos.Gateway.Rows.{
  AgentRow, Liveness, offline, Fleet, publish_agent_changed, audit, is_draining,
}
use yaaos.Gateway.Bearers.{revoke_all_for_agent, revoke_where}
use yaaos.Gateway.Agents.{
  is_agent, get_agent, compare_and_set, shut_down, mark_agent_shutdown_complete,
}
use yaaos.Gateway.Heartbeats.{same_liveness, target_state, set_state, move_agent}

abbrev pub agent_ids : List AgentRow → List ℕ
agent_ids [] = []
agent_ids (a ∷ rows) = a.id ∷ agent_ids rows

abbrev pub UniqueAgents : Fleet → Type 0
UniqueAgents s = IsNodup (agent_ids s.agents)

-- A row that goes offline ends a drain; another change is of the liveness alone.
abbrev pub moved : ℕ → Liveness → AgentRow → AgentRow
moved clock target a =
    if same_liveness target offline && is_draining a.lifecycle
    then shut_down clock (set_state target a)
    else set_state target a

-- What the sweep makes of a row that it selects, by the age of the last heartbeat.
abbrev pub swept : ℕ → ℕ → Option ℕ → AgentRow → AgentRow
swept now clock none a = a
swept now clock (some at) a =
    if same_liveness a.state (target_state now at) then a else moved clock (target_state now at) a

module _ (i : ℕ) (f : AgentRow → AgentRow) (q : AgentRow → Bool) where
  -- An update under a key and a test, as the key finds it and as others do.
  pub agent-updated :
      (rows : List AgentRow) {a : AgentRow}
      → ((b : AgentRow) → (f b).id ≡ b.id)
      → first_where (is_agent i) rows ≡ some a
      → first_where (is_agent i) (update_where (λ b. is_agent i b && q b) f rows)
        ≡ some (if q a then f a else a)
  agent-updated [] h e = cc
  agent-updated (b ∷ rows) {a} h e = elim (Bool-cases (is_agent i b)) [
    | inl y ↦
        let k : ◌≡◌ {A = Option AgentRow} (some b) (some a) = sym (rw y refl) ∙ e in
        let k' : b ≡ a = cc in
        elim (Bool-cases (q b)) [
          | inl z ↦
              let y' : is_agent i (f b) ≡ true = rw (h b) y in
              let z' : q a ≡ true = subst (λ x. q x ≡ true) k' z in
              rw (y, z, y', z') (ap (λ (x : AgentRow). some (f x)) k')
          | inr z ↦
              let z' : q a ≡ false = subst (λ x. q x ≡ false) k' z in
              rw (y, z, y, z') (ap (λ (x : AgentRow). some x) k')
        ]
    | inr n ↦ rw (n, n) (agent-updated rows h (sym (rw n refl) ∙ e))
  ]

  pub other-updated :
      (j : ℕ) (rows : List AgentRow)
      → ((b : AgentRow) → (f b).id ≡ b.id)
      → (j == i) ≡ false
      → first_where (is_agent j) (update_where (λ b. is_agent i b && q b) f rows)
        ≡ first_where (is_agent j) rows
  other-updated j [] h n = refl
  other-updated j (b ∷ rows) h n = elim (Bool-cases (is_agent i b && q b)) [
    | inr z ↦ elim (Bool-cases (is_agent j b)) [
      | inl y ↦ rw (z, y) refl
      | inr m ↦ rw (z, m, other-updated j rows h n) refl
    ]
    | inl z ↦
        let m : is_agent j b ≡ false = ground (arith, z, n) in
        let m' : is_agent j (f b) ≡ false = rw (h b) m in
        rw (z, m, m', other-updated j rows h n) refl
  ]

-- The same without a test.
set-updated :
    (i : ℕ) (l : Liveness) (rows : List AgentRow) {a : AgentRow}
    → first_where (is_agent i) rows ≡ some a
    → first_where (is_agent i) (update_where (is_agent i) (set_state l) rows) ≡ some (set_state l a)
set-updated i l [] e = cc
set-updated i l (b ∷ rows) {a} e = elim (Bool-cases (is_agent i b)) [
  | inl y ↦
      let k : ◌≡◌ {A = Option AgentRow} (some b) (some a) = sym (rw y refl) ∙ e in
      let k' : b ≡ a = cc in rw (y, y) (ap (λ (x : AgentRow). some (set_state l x)) k')
  | inr n ↦ rw (n, n) (set-updated i l rows (sym (rw n refl) ∙ e))
]

set-other :
    (i j : ℕ) (l : Liveness) (rows : List AgentRow)
    → (j == i) ≡ false
    → first_where (is_agent j) (update_where (is_agent i) (set_state l) rows)
      ≡ first_where (is_agent j) rows
set-other i j l [] n = refl
set-other i j l (b ∷ rows) n = elim (Bool-cases (is_agent i b)) [
  | inr z ↦ elim (Bool-cases (is_agent j b)) [
    | inl y ↦ rw (z, y) refl
    | inr m ↦ rw (z, m, set-other i j l rows n) refl
  ]
  | inl z ↦
      let m : is_agent j b ≡ false = ground (arith, z, n) in rw (z, m, set-other i j l rows n) refl
]

agents-shutdown_complete :
    (i : ℕ) (s : Fleet)
    → (mark_agent_shutdown_complete i s).1.agents
      ≡ update_where (λ b. is_agent i b && is_draining b.lifecycle) (shut_down s.now) s.agents
unfolding mark_agent_shutdown_complete compare_and_set publish_agent_changed audit
    revoke_all_for_agent revoke_where
agents-shutdown_complete i s =
    elim (Bool-cases (any (λ b. is_agent i b && is_draining b.lifecycle) s.agents)) [
      | inl y ↦ rw (mark_agent_shutdown_complete, compare_and_set, y) refl
      | inr n ↦ rw (mark_agent_shutdown_complete, compare_and_set, n) refl
    ]

pub move_agent_self :
    (target : Liveness) (b : AgentRow) (s : Fleet)
    → get_agent b.id s ≡ some b
    → get_agent b.id (move_agent target b s).0 ≡ some (moved s.now target b)
unfolding move_agent publish_agent_changed
move_agent_self target b s g =
    let t = record s { agents = update_where (is_agent b.id) (set_state target) s.agents } in
    let set : get_agent b.id t ≡ some (set_state target b) = set-updated b.id target s.agents g in
    elim (Bool-cases (same_liveness target offline)) [
      | inr o ↦ rw (move_agent, o) set
      | inl o ↦
          rw (move_agent, o)
            (ap (λ rows. first_where (is_agent b.id) rows) (agents-shutdown_complete b.id t)
              ∙ agent-updated b.id (shut_down s.now) (λ x. is_draining x.lifecycle) t.agents
                  (λ x. refl) set)
    ]

pub move_agent-other :
    (j : ℕ) (target : Liveness) (b : AgentRow) (s : Fleet)
    → (j == b.id) ≡ false
    → get_agent j (move_agent target b s).0 ≡ get_agent j s
unfolding move_agent publish_agent_changed
move_agent-other j target b s n =
    let t = record s { agents = update_where (is_agent b.id) (set_state target) s.agents } in
    elim (Bool-cases (same_liveness target offline)) [
      | inr o ↦ rw (move_agent, o) (set-other b.id j target s.agents n)
      | inl o ↦
          rw (move_agent, o)
            (ap (λ rows. first_where (is_agent j) rows) (agents-shutdown_complete b.id t)
              ∙ other-updated b.id (shut_down s.now) (λ x. is_draining x.lifecycle) j t.agents
                  (λ x. refl) n
              ∙ set-other b.id j target s.agents n)
    ]

pub clock-move_agent :
    (target : Liveness) (b : AgentRow) (s : Fleet) → (move_agent target b s).0.now ≡ s.now
unfolding move_agent publish_agent_changed mark_agent_shutdown_complete compare_and_set audit
    revoke_all_for_agent revoke_where
clock-move_agent target b s = ground arith

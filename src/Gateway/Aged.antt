-- ===== src/Gateway/Aged.antt =====
-- What the liveness sweep is to make of an agent: `compute_agent_liveness_transitions` of
-- apps/backend/app/core/agent_gateway/service.py.
use yaaos.Prelude.{
  ℕ, ◌+◌, ◌≤◌, ◌<◌, Bool, true, false, ◌≡◌, ◌≢◌, refl, sym, ◌∙◌, ◌⊎◌, inl, inr, Option, none, some,
  arith, ltb, Bool-cases, if◌then◌else◌, ◌&&◌, not, is_some,
}
use mathlib.Core.Path.{subst}
use yaaos.Gateway.Rows.{AgentRow, Liveness, reachable, stale, offline, Lifecycle, is_draining}
use yaaos.Gateway.Heartbeats.{same_liveness, target_state, is_shut_down, is_swept}
use yaaos.Gateway.Moved.{moved, swept}

-- The state that a heartbeat has by its age: a minute, five minutes, or more.
pub data Ages (now at : ℕ) : Liveness → Type 0 where
  fresh : now ≤ at + 60 → Ages now at reachable
  aging : at + 60 < now → now ≤ at + 300 → Ages now at stale
  silent : at + 300 < now → Ages now at offline

-- What becomes of an agent in a sweep.
pub data Becomes (now clock : ℕ) (a : AgentRow) : AgentRow → Type 0 where
  shut : a.lifecycle ≡ Lifecycle.shutdown → Becomes now clock a a
  mute : a.last_heartbeat_at ≡ none → Becomes now clock a a
  unmoved :
      {at : ℕ}
      → a.lifecycle ≢ Lifecycle.shutdown
      → a.last_heartbeat_at ≡ some at
      → Ages now at a.state
      → Becomes now clock a a
  turned :
      {at : ℕ} {l : Liveness}
      → a.lifecycle ≢ Lifecycle.shutdown
      → a.last_heartbeat_at ≡ some at
      → Ages now at l
      → a.state ≢ l
      → (l ≢ offline) ⊎ (a.lifecycle ≢ Lifecycle.draining)
      → Becomes now clock a (record a { state = l })
  drained :
      {at : ℕ}
      → a.lifecycle ≡ Lifecycle.draining
      → a.last_heartbeat_at ≡ some at
      → at + 300 < now
      → a.state ≢ offline
      → Becomes now clock a (record a {
        state = offline;
        lifecycle = Lifecycle.shutdown;
        last_shutdown_at = some clock;
      })

target_state-Ages : (now at : ℕ) → Ages now at (target_state now at)
target_state-Ages now at = elim (Bool-cases (ltb (at + 300) now)) [
  | inl y ↦ rw y (silent (ground (arith, y)))
  | inr n ↦ elim (Bool-cases (ltb (at + 60) now)) [
    | inl y ↦ rw (n, y) (aging (ground (arith, y)) (ground (arith, n)))
    | inr m ↦ rw (n, m) (fresh (ground (arith, m)))
  ]
]

same_liveness-eq : (l m : Liveness) → same_liveness l m ≡ true → l ≡ m
same_liveness-eq reachable reachable h = refl
same_liveness-eq reachable stale h = cc
same_liveness-eq reachable offline h = cc
same_liveness-eq stale reachable h = cc
same_liveness-eq stale stale h = refl
same_liveness-eq stale offline h = cc
same_liveness-eq offline reachable h = cc
same_liveness-eq offline stale h = cc
same_liveness-eq offline offline h = refl

same_liveness_refl : (l : Liveness) → same_liveness l l ≡ true
same_liveness_refl reachable = refl
same_liveness_refl stale = refl
same_liveness_refl offline = refl

same_liveness-ne : (l m : Liveness) → same_liveness l m ≡ false → l ≢ m
same_liveness-ne l m n e =
    let k : same_liveness l l ≡ false = subst (λ x. same_liveness l x ≡ false) (sym e) n in
    let c : true ≡ false = sym (same_liveness_refl l) ∙ k in cc

is_draining-eq : (l : Lifecycle) → is_draining l ≡ true → l ≡ Lifecycle.draining
is_draining-eq Lifecycle.unconfigured h = cc
is_draining-eq Lifecycle.active h = cc
is_draining-eq Lifecycle.draining h = refl
is_draining-eq Lifecycle.shutdown h = cc

is_shut_down-eq : (l : Lifecycle) → is_shut_down l ≡ true → l ≡ Lifecycle.shutdown
is_shut_down-eq Lifecycle.unconfigured h = cc
is_shut_down-eq Lifecycle.active h = cc
is_shut_down-eq Lifecycle.draining h = cc
is_shut_down-eq Lifecycle.shutdown h = refl

-- A test that fails at a state, and the state.
ne_of : (p : Lifecycle → Bool) (l m : Lifecycle) → p m ≡ true → p l ≡ false → l ≢ m
ne_of p l m y n e =
    let k : p m ≡ false = subst (λ x. p x ≡ false) e n in let c : true ≡ false = sym y ∙ k in cc

moved-Becomes :
    (now clock : ℕ) (a : AgentRow) {at : ℕ}
    → a.lifecycle ≢ Lifecycle.shutdown
    → a.last_heartbeat_at ≡ some at
    → (l : Liveness) → Ages now at l
    → a.state ≢ l
    → Becomes now clock a (moved clock l a)
moved-Becomes now clock a s e reachable g n = turned s e g n (inl (λ q. cc))
moved-Becomes now clock a s e stale g n = turned s e g n (inl (λ q. cc))
moved-Becomes now clock a s e offline (silent g) n = elim (Bool-cases (is_draining a.lifecycle)) [
  | inl y ↦ rw y (drained (is_draining-eq a.lifecycle y) e g n)
  | inr m ↦
      rw m (turned s e (silent g) n (inr (ne_of is_draining a.lifecycle Lifecycle.draining refl m)))
]

swept-Becomes :
    (now clock : ℕ) (a : AgentRow) (at : ℕ)
    → a.lifecycle ≢ Lifecycle.shutdown
    → a.last_heartbeat_at ≡ some at
    → Becomes now clock a (swept now clock (some at) a)
swept-Becomes now clock a at s e = elim (Bool-cases (same_liveness a.state (target_state now at))) [
  | inl y ↦ rw y (
      unmoved s e (
        subst (Ages now at) (sym (same_liveness-eq a.state (target_state now at) y))
          (target_state-Ages now at)))
  | inr n ↦ rw n (
      moved-Becomes now clock a s e (target_state now at) (target_state-Ages now at)
        (same_liveness-ne a.state (target_state now at) n))
]

by_beat :
    (now clock : ℕ) (a : AgentRow) (beat : Option ℕ) (gone : Bool)
    → a.last_heartbeat_at ≡ beat
    → is_shut_down a.lifecycle ≡ gone
    → Becomes now clock a (if is_some beat && not gone then swept now clock beat a else a)
by_beat now clock a none gone e g = mute e
by_beat now clock a (some at) true e g = shut (is_shut_down-eq a.lifecycle g)
by_beat now clock a (some at) false e g =
    swept-Becomes now clock a at (ne_of is_shut_down a.lifecycle Lifecycle.shutdown refl g) e

pub is_swept-Becomes :
    (now clock : ℕ) (a : AgentRow)
    → Becomes now clock a (if is_swept a then swept now clock a.last_heartbeat_at a else a)
is_swept-Becomes now clock a =
    by_beat now clock a a.last_heartbeat_at (is_shut_down a.lifecycle) refl refl

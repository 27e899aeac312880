-- ===== src/Workspaces/Destroyed.antt =====
-- That the reaper gets rid of a workspace: `_attempt_destroy` of
-- apps/backend/app/core/workspace/service.py, over and over.
use yaaos.Prelude.{
  ℕ, zero, suc, ◌+◌, ◌≤◌, ◌<◌, Bool, true, false, ◌≡◌, refl, sym, ◌∙◌, ap, Option, none, some,
  arith, if◌then◌else◌, Bool-cases, Option-cases, inl, inr, any, leb, first_where, IsNodup,
  update_where, ◌⊎◌, List, [], ◌∷◌,
}
use mathlib.Core.Path.{subst}
use yaaos.Gateway.Rows.{
  WorkspaceRow, WorkspaceState, expired, destroyed, destroy_failed, Fleet, Platform, audit,
}
use yaaos.Workspaces.Claims.{get_workspace, is_workspace}
use yaaos.Workspaces.Reaper.{
  is_expired, is_destroyable, is_registered, start_destroy, no_provider, fail_destroy,
  finish_destroy, is_row_expired, attempts_of, settle_destroy, attempt_destroy,
}
use yaaos.Workspaces.Rows.{
  UniqueWorkspaces, any-tests, first_where-changed_row, first_where-updated, ids-update_workspaces,
}

-- What the reaper leaves alone from then on.
abbrev pub is_settled_workspace : WorkspaceState → Bool
is_settled_workspace destroyed = true
is_settled_workspace destroy_failed = true
is_settled_workspace _ = false

-- The attempts of successive sweeps on one workspace.
unfoldable pub keep_destroying : ℕ → Platform → ℕ → Fleet → Fleet
keep_destroying zero p i s = s
keep_destroying (suc n) p i s = elim (get_workspace i s) [
  | none ↦ s
  | some w ↦ if is_destroyable w then keep_destroying n p i (attempt_destroy p w s) else s
]

started :
    (now : ℕ) (s : Fleet) {w : WorkspaceRow}
    → get_workspace w.id s ≡ some w
    → is_expired w.status ≡ true
    → first_where
        (is_workspace w.id)
        (update_where (is_row_expired w.id) (start_destroy now) s.workspaces)
      ≡ some (start_destroy now w)
started now s {w} g e =
    first_where-changed_row w.id (λ (v : WorkspaceRow). is_expired v.status) (start_destroy now)
      s.workspaces (λ v. refl)
    ∙ rw (g, e) refl

-- The row after an attempt: final, or expired again with one attempt more and one still to come.
abbrev Attempted : WorkspaceRow → WorkspaceRow → Type 0
Attempted w r =
    ((is_settled_workspace r.status ≡ true) × (r.destroy_attempts ≤ 3))
    ⊎ ((r.status ≡ expired)
        × (r.destroy_attempts ≡ suc w.destroy_attempts)
        × (r.destroy_attempts < 3))

settle_destroy-Attempted :
    (p : Platform) (w : WorkspaceRow) (s : Fleet)
    → w.destroy_attempts < 3
    → get_workspace w.id s ≡ some (start_destroy s.now w)
    → (r : WorkspaceRow) × (get_workspace w.id (settle_destroy p w s) ≡ some r) × Attempted w r
unfolding settle_destroy audit
settle_destroy-Attempted p w s l g =
    let n : attempts_of w s ≡ suc w.destroy_attempts = rw (attempts_of, g) refl in
    elim (Option-cases (p.destroy_error w)) [
      | inl e ↦ (
        finish_destroy s.now (start_destroy s.now w),
        rw (settle_destroy, e)
            (first_where-updated w.id (finish_destroy s.now) s.workspaces (λ v. refl) g),
        inl (refl, omega (arith, l)),
      )
      | inr (error, e) ↦
          let f : WorkspaceRow → WorkspaceRow = fail_destroy (attempts_of w s) error in
          (
            f (start_destroy s.now w),
            rw (settle_destroy, e) (first_where-updated w.id f s.workspaces (λ v. refl) g),
            elim (Bool-cases (leb 3 (attempts_of w s))) [
              | inl y ↦ inl (rw y refl, omega (arith, l))
              | inr m ↦ inr (rw m refl, refl, ground (arith, n, m))
            ],
          )
    ]

attempt_destroy-Attempted :
    (p : Platform) (w : WorkspaceRow) (s : Fleet)
    → UniqueWorkspaces s
    → get_workspace w.id s ≡ some w
    → is_destroyable w ≡ true
    → (r : WorkspaceRow) × (get_workspace w.id (attempt_destroy p w s) ≡ some r) × Attempted w r
unfolding attempt_destroy audit
attempt_destroy-Attempted p w s u g d =
    let e : is_expired w.status ≡ true = ground (arith, d) in
    let l : w.destroy_attempts < 3 = ground (arith, d) in
    elim (Bool-cases (is_registered p w.provider_id)) [
      | inr n ↦ (
        no_provider w,
        rw (attempt_destroy, n) (first_where-updated w.id no_provider s.workspaces (λ v. refl) g),
        inl (refl, omega (arith, l)),
      )
      | inl y ↦
          let a : any (is_row_expired w.id) s.workspaces ≡ true =
            any-tests w.id (λ (v : WorkspaceRow). is_expired v.status) s.workspaces u
            ∙ rw (g, e) refl in
          rw (attempt_destroy, y, a) (settle_destroy-Attempted p w _ l (started s.now s g e))
    ]

unique-settle_destroy :
    (p : Platform) (w : WorkspaceRow) (s : Fleet)
    → UniqueWorkspaces s
    → UniqueWorkspaces (settle_destroy p w s)
unfolding settle_destroy audit
unique-settle_destroy p w s u = elim (Option-cases (p.destroy_error w)) [
  | inl e ↦
      rw
        (
          settle_destroy,
          e,
          ids-update_workspaces (is_workspace w.id) (finish_destroy s.now) s.workspaces (λ v. refl),
        )
        u
  | inr (error, e) ↦
      let f : WorkspaceRow → WorkspaceRow = fail_destroy (attempts_of w s) error in
      rw (settle_destroy, e, ids-update_workspaces (is_workspace w.id) f s.workspaces (λ v. refl)) u
]

unique-attempt_destroy :
    (p : Platform) (w : WorkspaceRow) (s : Fleet)
    → UniqueWorkspaces s
    → UniqueWorkspaces (attempt_destroy p w s)
unfolding attempt_destroy audit
unique-attempt_destroy p w s u = elim (Bool-cases (is_registered p w.provider_id)) [
  | inr n ↦
      rw
        (
          attempt_destroy,
          n,
          ids-update_workspaces (is_workspace w.id) no_provider s.workspaces (λ v. refl),
        )
        u
  | inl y ↦ elim (Bool-cases (any (is_row_expired w.id) s.workspaces)) [
    | inr n ↦ rw (attempt_destroy, y, n) u
    | inl a ↦
        rw (attempt_destroy, y, a)
          (unique-settle_destroy p w _ (
            subst IsNodup
              (sym (
                ids-update_workspaces (is_row_expired w.id) (start_destroy s.now) s.workspaces
                  (λ v. refl)))
              u))
  ]
]

id-get_workspace :
    (i : ℕ) (ws : List WorkspaceRow) {w : WorkspaceRow}
    → first_where (is_workspace i) ws ≡ some w
    → w.id ≡ i
id-get_workspace i [] h = cc
id-get_workspace i (v ∷ ws) {w} h = elim (Bool-cases (is_workspace i v)) [
  | inl y ↦
      let k : ◌≡◌ {A = Option WorkspaceRow} (some v) (some w) = sym (rw y refl) ∙ h in
      let k' : v ≡ w = cc in
      let e : v.id ≡ i = ground (arith, y) in ap (λ (x : WorkspaceRow). x.id) (sym k') ∙ e
  | inr n ↦ id-get_workspace i ws (sym (rw n refl) ∙ h)
]

final-expired : (x : WorkspaceState) → is_settled_workspace x ≡ true → is_expired x ≡ false
final-expired x h = ground arith

-- A final row is not selected again.
stays :
    (n : ℕ) (p : Platform) (i : ℕ) (s : Fleet) {r : WorkspaceRow}
    → get_workspace i s ≡ some r
    → is_settled_workspace r.status ≡ true
    → r.destroy_attempts ≤ 3
    → (q : WorkspaceRow) × (get_workspace i (keep_destroying n p i s) ≡ some q)
      × (is_settled_workspace q.status ≡ true)
      × (q.destroy_attempts ≤ 3)
unfolding keep_destroying
stays zero p i s {r} g f b = (r, g, f, b)
stays (suc n) p i s {r} g f b =
    let d : is_destroyable r ≡ false = rw (final-expired r.status f) refl in
    (r, rw (keep_destroying, g, d) g, f, b)

-- Where as many attempts follow as are left of three, an expired workspace ends up destroyed or marked
-- as failed, whatever its provider does, after three attempts at most.
pub keep_destroying-final :
    (n : ℕ) (p : Platform) (i : ℕ) (s : Fleet) {w : WorkspaceRow}
    → UniqueWorkspaces s
    → get_workspace i s ≡ some w
    → is_destroyable w ≡ true
    → 3 ≤ n + w.destroy_attempts
    → (r : WorkspaceRow) × (get_workspace i (keep_destroying n p i s) ≡ some r)
      × (is_settled_workspace r.status ≡ true)
      × (r.destroy_attempts ≤ 3)
unfolding keep_destroying
keep_destroying-final zero p i s {w} u g d l =
    let few : w.destroy_attempts < 3 = ground (arith, d) in
    let bad : true ≡ false = ground (arith, l, few) in cc
keep_destroying-final (suc n) p i s {w} u g d l =
    let e : w.id ≡ i = id-get_workspace i s.workspaces g in
    let t = attempt_destroy p w s in
    let (r, h, a) =
      attempt_destroy-Attempted p w s u (subst (λ (j : ℕ). get_workspace j s ≡ some w) (sym e) g)
        d in
    let h' : get_workspace i t ≡ some r = subst (λ (j : ℕ). get_workspace j t ≡ some r) e h in
    let v : UniqueWorkspaces t = unique-attempt_destroy p w s u in
    let step : keep_destroying (suc n) p i s ≡ keep_destroying n p i t =
      rw (keep_destroying, g, d) refl in
    elim a [
      | inl (f, b) ↦ rw step (stays n p i t h' f b)
      | inr (x, y, z) ↦
          let d' : is_destroyable r ≡ true = rw x (ground (arith, z)) in
          rw step (keep_destroying-final n p i t v h' d' (omega (arith, l, y)))
    ]

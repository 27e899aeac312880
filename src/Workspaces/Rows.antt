-- ===== src/Workspaces/Rows.antt =====
-- The primary key of `workspaces` (apps/backend/app/core/workspace/models.py), and what an update of one
-- workspace does to what is read of each.
use yaaos.Prelude.{
  ℕ, Bool, true, false, ◌&&◌, ◌≡◌, refl, sym, ◌∙◌, Option, none, some, List, [], ◌∷◌, arith, ◌==◌,
  if◌then◌else◌, update_where, first_where, Bool-cases, inl, inr, any, mem, IsNodup,
}
use yaaos.Gateway.Rows.{WorkspaceRow, Fleet}
use yaaos.Workspaces.Claims.{is_workspace}

abbrev pub workspace_ids : List WorkspaceRow → List ℕ
workspace_ids [] = []
workspace_ids (w ∷ ws) = w.id ∷ workspace_ids ws

abbrev pub UniqueWorkspaces : Fleet → Type 0
UniqueWorkspaces s = IsNodup (workspace_ids s.workspaces)

-- A test of what a key has found, and a change of it.
abbrev pub tests : (WorkspaceRow → Bool) → Option WorkspaceRow → Bool
tests q none = false
tests q (some w) = q w

abbrev pub changed_row :
    (WorkspaceRow → Bool)
    → (WorkspaceRow → WorkspaceRow)
    → Option WorkspaceRow
    → Option WorkspaceRow
changed_row q f none = none
changed_row q f (some w) = some (if q w then f w else w)

module _ (i : ℕ) (q : WorkspaceRow → Bool) where
  abbrev pub at_row : WorkspaceRow → Bool
  at_row w = is_workspace i w && q w

  absent : (ws : List WorkspaceRow) → mem i (workspace_ids ws) ≡ false → any at_row ws ≡ false
  absent [] h = refl
  absent (w ∷ ws) h =
      let a : is_workspace i w ≡ false = ground (arith, h) in
      let b : mem i (workspace_ids ws) ≡ false = ground (arith, h) in rw (a, absent ws b) refl

  -- The rows counted are the one row of the key.
  pub any-tests :
      (ws : List WorkspaceRow)
      → IsNodup (workspace_ids ws)
      → any at_row ws ≡ tests q (first_where (is_workspace i) ws)
  any-tests [] u = refl
  any-tests (w ∷ ws) u = elim (Bool-cases (is_workspace i w)) [
    | inr n ↦ rw (n, any-tests ws u.1) refl
    | inl y ↦
        let e : w.id ≡ i = ground (arith, y) in
        let a : any at_row ws ≡ false = absent ws (rw (← e) u.0) in
        elim (Bool-cases (q w)) [ inl z ↦ rw (y, z) refl | inr z ↦ rw (y, z, a) refl ]
  ]

  module _ (f : WorkspaceRow → WorkspaceRow) where
    pub first_where-changed_row :
        (ws : List WorkspaceRow)
        → ((w : WorkspaceRow) → (f w).id ≡ w.id)
        → first_where (is_workspace i) (update_where at_row f ws)
          ≡ changed_row q f (first_where (is_workspace i) ws)
    first_where-changed_row [] h = refl
    first_where-changed_row (w ∷ ws) h = elim (Bool-cases (is_workspace i w)) [
      | inr n ↦ rw (n, n, first_where-changed_row ws h) refl
      | inl y ↦ elim (Bool-cases (q w)) [
        | inl z ↦ let y' : is_workspace i (f w) ≡ true = rw (h w) y in rw (y, z, y') refl
        | inr z ↦ rw (y, z, y) refl
      ]
    ]

    pub first_where-others :
        (j : ℕ) (ws : List WorkspaceRow)
        → ((w : WorkspaceRow) → (f w).id ≡ w.id)
        → (j == i) ≡ false
        → first_where (is_workspace j) (update_where at_row f ws) ≡ first_where (is_workspace j) ws
    first_where-others j [] h n = refl
    first_where-others j (w ∷ ws) h n = elim (Bool-cases (at_row w)) [
      | inr z ↦ elim (Bool-cases (is_workspace j w)) [
        | inl y ↦ rw (z, y) refl
        | inr m ↦ rw (z, m, first_where-others j ws h n) refl
      ]
      | inl z ↦
          let m : is_workspace j w ≡ false = ground (arith, z, n) in
          let m' : is_workspace j (f w) ≡ false = rw (h w) m in
          rw (z, m, m', first_where-others j ws h n) refl
    ]

pub ids-update_workspaces :
    (p : WorkspaceRow → Bool) (f : WorkspaceRow → WorkspaceRow) (ws : List WorkspaceRow)
    → ((w : WorkspaceRow) → (f w).id ≡ w.id)
    → workspace_ids (update_where p f ws) ≡ workspace_ids ws
ids-update_workspaces p f [] h = refl
ids-update_workspaces p f (w ∷ ws) h = elim (Bool-cases (p w)) [
  | inl e ↦ rw (e, h w, ids-update_workspaces p f ws h) refl
  | inr e ↦ rw (e, ids-update_workspaces p f ws h) refl
]

-- What a key finds after an update by it.
pub first_where-updated :
    (i : ℕ) (f : WorkspaceRow → WorkspaceRow) (ws : List WorkspaceRow) {w : WorkspaceRow}
    → ((v : WorkspaceRow) → (f v).id ≡ v.id)
    → first_where (is_workspace i) ws ≡ some w
    → first_where (is_workspace i) (update_where (is_workspace i) f ws) ≡ some (f w)
first_where-updated i f [] h e = cc
first_where-updated i f (v ∷ ws) {w} h e = elim (Bool-cases (is_workspace i v)) [
  | inl y ↦
      let k : ◌≡◌ {A = Option WorkspaceRow} (some v) (some w) = sym (rw y refl) ∙ e in
      let k' : v ≡ w = cc in
      let y' : is_workspace i (f v) ≡ true = rw (h v) y in rw (y, y', k') refl
  | inr n ↦ rw (n, n) (first_where-updated i f ws h (sym (rw n refl) ∙ e))
]

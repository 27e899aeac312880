-- ===== src/Workspaces/Lock.antt =====
-- The claim of a workspace as a lock: `try_claim` and `release_claim` of
-- apps/backend/app/core/workspace/dispatch.py.
use yaaos.Prelude.{
  ℕ, Bool, true, false, not, ◌&&◌, ◌≡◌, refl, sym, ◌∙◌, Option, none, some, arith, ◌==◌,
  if◌then◌else◌, any, ap, Bool-cases, inl, inr, is_some, is_id,
}
use yaaos.Gateway.Rows.{WorkspaceRow, Fleet}
use yaaos.Workspaces.Claims.{
  is_active, is_free, claimed_by, try_claim, release_claim, get_workspace, update_workspaces,
}
use yaaos.Workspaces.Rows.{
  UniqueWorkspaces, any-tests, first_where-changed_row, first_where-others, tests, changed_row,
  at_row,
}

-- A lock that does not exist, or one that is open to claims or not, with its holder.
pub data Lock : Type 0 where
  gone : Lock
  lock : Bool → Option ℕ → Lock

abbrev pub acquire : ℕ → Lock → Bool × Lock
acquire c (Lock.lock true none) = (true, Lock.lock true (some c))
acquire c l = (false, l)

abbrev pub release : ℕ → Lock → Bool × Lock
release c (Lock.lock b (some d)) =
    if d == c then (true, Lock.lock b none) else (false, Lock.lock b (some d))
release c l = (false, l)

abbrev lock_of_row : Option WorkspaceRow → Lock
lock_of_row none = Lock.gone
lock_of_row (some w) = Lock.lock (is_active w.status) w.current_command_id

-- The lock that the row of a workspace stands for.
abbrev pub lock_of : Fleet → ℕ → Lock
lock_of s i = lock_of_row (get_workspace i s)

-- An operation on one lock of many: its answer, and the locks after it.
abbrev pub on_lock : (Lock → Bool × Lock) → ℕ → (ℕ → Lock) → Bool × (ℕ → Lock)
on_lock f i locks = ((f (locks i)).0, λ j. if j == i then (f (locks i)).1 else locks j)

-- The answers agree, and the locks do, one by one.
abbrev pub Refines : Bool × Fleet → Bool × (ℕ → Lock) → Type 0
Refines r a = (r.0 ≡ a.0) × ((j : ℕ) → lock_of r.1 j ≡ a.1 j)

-- What is not free refuses a claim, and what another holds a release.
acquire-busy :
    (c : ℕ) (b : Bool) (h : Option ℕ)
    → (not (is_some h) && b) ≡ false
    → acquire c (Lock.lock b h) ≡ (false, Lock.lock b h)
acquire-busy c true none z = cc
acquire-busy c false none z = refl
acquire-busy c true (some d) z = refl
acquire-busy c false (some d) z = refl

acquire-free :
    (c : ℕ) (b : Bool) (h : Option ℕ)
    → (not (is_some h) && b) ≡ true
    → acquire c (Lock.lock b h) ≡ (true, Lock.lock b (some c))
acquire-free c true none z = refl
acquire-free c false none z = cc
acquire-free c true (some d) z = cc
acquire-free c false (some d) z = cc

acquire-row :
    (c : ℕ) (a : Option ℕ) (o : Option WorkspaceRow)
    → (tests is_free o, lock_of_row (changed_row is_free (claimed_by c a) o))
      ≡ acquire c (lock_of_row o)
acquire-row c a none = refl
acquire-row c a (some w) = elim (Bool-cases (is_free w)) [
  | inl z ↦ rw z (sym (acquire-free c (is_active w.status) w.current_command_id z))
  | inr z ↦ rw z (sym (acquire-busy c (is_active w.status) w.current_command_id z))
]

release-held :
    (c : ℕ) (b : Bool) (h : Option ℕ)
    → is_id c h ≡ true
    → release c (Lock.lock b h) ≡ (true, Lock.lock b none)
release-held c b none z = cc
release-held c b (some d) z = rw z refl

release-other :
    (c : ℕ) (b : Bool) (h : Option ℕ)
    → is_id c h ≡ false
    → release c (Lock.lock b h) ≡ (false, Lock.lock b h)
release-other c b none z = refl
release-other c b (some d) z = rw z refl

abbrev freed : WorkspaceRow → WorkspaceRow
freed w = record w { current_command_id = none }

release-row :
    (c : ℕ) (o : Option WorkspaceRow)
    → (
      tests (λ (w : WorkspaceRow). is_id c w.current_command_id) o,
      lock_of_row (changed_row (λ (w : WorkspaceRow). is_id c w.current_command_id) freed o),
    )
      ≡ release c (lock_of_row o)
release-row c none = refl
release-row c (some w) = elim (Bool-cases (is_id c w.current_command_id)) [
  | inl z ↦ rw z (sym (release-held c (is_active w.status) w.current_command_id z))
  | inr z ↦ rw z (sym (release-other c (is_active w.status) w.current_command_id z))
]

-- An update of the rows under a key refines what it does to the one row.
update-Refines :
    (i : ℕ) (q : WorkspaceRow → Bool) (f : WorkspaceRow → WorkspaceRow) (g : Lock → Bool × Lock)
    (s : Fleet)
    → UniqueWorkspaces s
    → ((w : WorkspaceRow) → (f w).id ≡ w.id)
    → ((o : Option WorkspaceRow) → (tests q o, lock_of_row (changed_row q f o)) ≡ g (lock_of_row o))
    → Refines
        (any (at_row i q) s.workspaces, update_workspaces (at_row i q) f s)
        (on_lock g i (lock_of s))
update-Refines i q f g s u h r =
    let row = r (get_workspace i s) in
    (
      any-tests i q s.workspaces u ∙ ap (λ (x : Bool × Lock). x.0) row,
      λ j. elim (Bool-cases (j == i)) [
        | inl y ↦
            let e : j ≡ i = ground (arith, y) in
            rw (y, e)
              (ap lock_of_row (first_where-changed_row i q f s.workspaces h)
                ∙ ap (λ (x : Bool × Lock). x.1) row)
        | inr n ↦ rw n (ap lock_of_row (first_where-others i q f j s.workspaces h n))
      ],
    )

-- A try to claim a workspace acts on the locks as an acquisition of that workspace's lock: it succeeds
-- just if the lock is open and free, is then held by the command, and touches no other lock.
pub try_claim-Refines :
    (i c : ℕ) (a : Option ℕ) (s : Fleet)
    → UniqueWorkspaces s
    → Refines (try_claim i c a s) (on_lock (acquire c) i (lock_of s))
unfolding try_claim
try_claim-Refines i c a s u =
    update-Refines i is_free (claimed_by c a) (acquire c) s u (λ w. refl) (acquire-row c a)

-- A release acts on the locks as a release of the workspace's lock: it frees what the command holds,
-- and nothing that another does.
pub release_claim-Refines :
    (i c : ℕ) (s : Fleet)
    → UniqueWorkspaces s
    → Refines (release_claim i c s) (on_lock (release c) i (lock_of s))
unfolding release_claim
release_claim-Refines i c s u =
    update-Refines i (λ (w : WorkspaceRow). is_id c w.current_command_id) freed (release c) s u
      (λ w. refl) (release-row c)

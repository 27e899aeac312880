-- ===== src/Gateway/Selection.antt =====
-- Which command an agent is given: what `_select_eligible_row_nowait` of
-- apps/backend/app/core/agent_gateway/service.py selects.
use yaaos.Prelude.{
  ℕ, ◌≤◌, ◌<◌, Bool, true, false, ◌&&◌, ◌≡◌, refl, sym, ◌∙◌, ◌⊎◌, Option, none, some, List, [], ◌∷◌,
  arith, All, if◌then◌else◌, Bool-cases, Option-cases, inl, inr,
}
use mathlib.Core.List.{Memᴰ}
use mathlib.Core.Path.{subst}
use yaaos.Gateway.Rows.{CommandRow, is_unconfigured}
use yaaos.Gateway.Claim.{
  ClaimRequest, oldest_where, is_own_config, is_own_signal, is_unassigned_provision,
  is_own_workspace, or_oldest, is_positive, select_eligible_row_nowait,
}
use yaaos.Gateway.Oldest.{Oldest, All-weaken, All-Memᴰ, oldest_where-Oldest}

-- The precedence of a row for a request: a configuring agent takes its own configurations; another
-- takes its own signals, then unassigned provisions if it has room, then what is pinned to it for a
-- workspace that it names. Rank 3 is not eligible.
abbrev pub rank : ClaimRequest → CommandRow → ℕ
rank q c =
    if is_unconfigured q.lifecycle
    then (if is_own_config q c then 0 else 3)
    else if is_own_signal q c
    then 0
    else if is_positive q.new_workspaces && is_unassigned_provision c
    then 1
    else if is_own_workspace q c
    then 2
    else 3

-- No other row precedes the row: it has a higher rank, or the same one and no lower id.
abbrev pub Precedes : ClaimRequest → CommandRow → CommandRow → Type 0
Precedes q c d = (rank q c < rank q d) ⊎ ((rank q c ≡ rank q d) × (c.id ≤ d.id))

abbrev pub Selects : ClaimRequest → List CommandRow → Option CommandRow → Type 0
Selects q cs none = All (λ d. rank q d ≡ 3) cs
Selects q cs (some c) = Memᴰ c cs × (rank q c < 3) × All (Precedes q c) cs

All-zip {ℓ κ μ} :
    {A : Type ℓ} (P : A → Type κ) (Q : A → Type μ) (xs : List A)
    → All P xs
    → All Q xs
    → All (λ x. P x × Q x) xs
All-zip P Q [] a b = tt
All-zip P Q (x ∷ xs) a b = ((a.0, b.0), All-zip P Q xs a.1 b.1)

-- The oldest of a bucket precedes the rows that no earlier bucket holds, if the bucket's rows have one
-- rank and the others a higher one.
bucket-Selects :
    (q : ClaimRequest) (p : CommandRow → Bool) (r : ℕ) (P : CommandRow → Type 0)
    (cs : List CommandRow) (c : CommandRow)
    → r < 3
    → ((d : CommandRow) → P d → p d ≡ true → rank q d ≡ r)
    → ((d : CommandRow) → P d → p d ≡ false → r < rank q d)
    → All P cs
    → Oldest p cs (some c)
    → Selects q cs (some c)
bucket-Selects q p r P cs c b same more a o =
    let e : rank q c ≡ r = same c (All-Memᴰ P cs o.0 a) o.1 in
    (
      o.0,
      omega (arith, e, b),
      All-weaken cs
          (λ d x. elim (Bool-cases (p d)) [
            | inl y ↦ elim x.1 [
              | inl n ↦ let k : true ≡ false = sym y ∙ n in cc
              | inr l ↦ inr (e ∙ sym (same d x.0 y), l)
            ]
            | inr n ↦ inl (omega (arith, e, more d x.0 n))
          ])
          (All-zip P _ cs a o.2),
    )

-- No condition on a row.
abbrev Any : CommandRow → Type 0
Any d = d.id ≡ d.id

All-Any : (cs : List CommandRow) → All Any cs
All-Any [] = tt
All-Any (c ∷ cs) = (refl, All-Any cs)

unconfigured-Selects :
    (q : ClaimRequest) (cs : List CommandRow)
    → is_unconfigured q.lifecycle ≡ true
    → Selects q cs (oldest_where (is_own_config q) cs)
unconfigured-Selects q cs u =
    let o = oldest_where-Oldest (is_own_config q) cs in
    elim (Option-cases (oldest_where (is_own_config q) cs)) [
      | inl e ↦
          let k : Oldest (is_own_config q) cs none = subst (Oldest (is_own_config q) cs) e o in
          rw e (All-weaken cs (λ d f. ground (arith, u, f)) k)
      | inr (c, e) ↦
          let k : Oldest (is_own_config q) cs (some c) = subst (Oldest (is_own_config q) cs) e o in
          rw e (
            bucket-Selects q (is_own_config q) 0 Any cs c (omega arith) (λ d _ y. rw (u, y) refl)
              (λ d _ n. rw (u, n) (omega arith)) (All-Any cs) k)
    ]

-- No row of the first bucket.
abbrev NoSignal : ClaimRequest → CommandRow → Type 0
NoSignal q d = is_own_signal q d ≡ false

-- Nor of the second, if the agent has room.
abbrev NoProvision : ClaimRequest → CommandRow → Type 0
NoProvision q d =
    NoSignal q d × ((is_positive q.new_workspaces && is_unassigned_provision d) ≡ false)

workspace-Selects :
    (q : ClaimRequest) (cs : List CommandRow)
    → is_unconfigured q.lifecycle ≡ false
    → All (NoProvision q) cs
    → Selects q cs (oldest_where (is_own_workspace q) cs)
workspace-Selects q cs u a =
    let o = oldest_where-Oldest (is_own_workspace q) cs in
    elim (Option-cases (oldest_where (is_own_workspace q) cs)) [
      | inl e ↦
          let k : Oldest (is_own_workspace q) cs none =
            subst (Oldest (is_own_workspace q) cs) e o in
          rw e (All-weaken cs (λ d f. rw (u, f.0.0, f.0.1, f.1) refl) (All-zip _ _ cs a k))
      | inr (c, e) ↦
          let k : Oldest (is_own_workspace q) cs (some c) =
            subst (Oldest (is_own_workspace q) cs) e o in
          rw e (
            bucket-Selects q (is_own_workspace q) 2 (NoProvision q) cs c (omega arith)
              (λ d f y. rw (u, f.0, f.1, y) refl) (λ d f n. rw (u, f.0, f.1, n) (omega arith)) a k)
    ]

provision-Selects :
    (q : ClaimRequest) (cs : List CommandRow)
    → is_unconfigured q.lifecycle ≡ false
    → All (NoSignal q) cs
    → Selects q cs (
        or_oldest
          (if is_positive q.new_workspaces then oldest_where is_unassigned_provision cs else none)
          (is_own_workspace q)
          cs)
provision-Selects q cs u a = elim (Bool-cases (is_positive q.new_workspaces)) [
  | inr n ↦ rw n (workspace-Selects q cs u (All-weaken cs (λ d f. (f, rw n refl)) a))
  | inl y ↦
      let o = oldest_where-Oldest is_unassigned_provision cs in
      elim (Option-cases (oldest_where is_unassigned_provision cs)) [
        | inl e ↦
            let k : Oldest is_unassigned_provision cs none =
              subst (Oldest is_unassigned_provision cs) e o in
            rw (y, e)
              (workspace-Selects q cs u
                (All-weaken cs (λ d f. (f.0, rw (y, f.1) refl)) (All-zip _ _ cs a k)))
        | inr (c, e) ↦
            let k : Oldest is_unassigned_provision cs (some c) =
              subst (Oldest is_unassigned_provision cs) e o in
            rw (y, e)
              (bucket-Selects q is_unassigned_provision 1 (NoSignal q) cs c (omega arith)
                (λ d f z. rw (u, f, y, z) refl) (λ d f z. ground (arith, u, f, y, z)) a k)
      ]
]

-- The selection is exact: it is none where no row is eligible, and else it is an eligible row that no
-- other row precedes, by its bucket and, within it, by its id.
pub select_eligible_row_nowait-Selects :
    (q : ClaimRequest) (cs : List CommandRow) → Selects q cs (select_eligible_row_nowait q cs)
unfolding select_eligible_row_nowait
select_eligible_row_nowait-Selects q cs = elim (Bool-cases (is_unconfigured q.lifecycle)) [
  | inl u ↦ rw u (unconfigured-Selects q cs u)
  | inr u ↦
      let o = oldest_where-Oldest (is_own_signal q) cs in
      elim (Option-cases (oldest_where (is_own_signal q) cs)) [
        | inl e ↦
            let k : Oldest (is_own_signal q) cs none = subst (Oldest (is_own_signal q) cs) e o in
            rw (u, e) (provision-Selects q cs u k)
        | inr (c, e) ↦
            let k : Oldest (is_own_signal q) cs (some c) =
              subst (Oldest (is_own_signal q) cs) e o in
            let s : Selects q cs (some c) =
              bucket-Selects q (is_own_signal q) 0 Any cs c (omega arith) (λ d _ y. rw (u, y) refl)
                (λ d _ n. ground (arith, u, n)) (All-Any cs) k in
            elim (Bool-cases (is_positive q.new_workspaces)) [
              | inl y ↦ rw (u, e, y) s
              | inr n ↦ rw (u, e, n) s
            ]
      ]
]

-- ===== src/Gateway/Oldest.antt =====
-- The oldest command of those that a test takes: a query of `_select_eligible_row_nowait` of
-- apps/backend/app/core/agent_gateway/service.py.
use yaaos.Prelude.{
  ◌≤◌, Bool, true, false, ◌≡◌, refl, sym, ◌⊎◌, Option, none, some, List, [], ◌∷◌, arith, All, ltb,
  Bool-cases, Option-cases, inl, inr,
}
use mathlib.Core.List.{Memᴰ}
use mathlib.Core.Path.{subst}
use yaaos.Gateway.Rows.{CommandRow}
use yaaos.Gateway.Claim.{oldest_where}

-- The lowest id among the rows that fit, or that none fits.
abbrev pub Oldest : (CommandRow → Bool) → List CommandRow → Option CommandRow → Type 0
Oldest p cs none = All (λ d. p d ≡ false) cs
Oldest p cs (some c) = Memᴰ c cs × (p c ≡ true) × All (λ d. (p d ≡ false) ⊎ (c.id ≤ d.id)) cs

pub All-weaken {ℓ κ μ} :
    {A : Type ℓ} {P : A → Type κ} {Q : A → Type μ} (xs : List A)
    → ((x : A) → P x → Q x)
    → All P xs
    → All Q xs
All-weaken [] f a = tt
All-weaken (x ∷ xs) f a = (f x a.0, All-weaken xs f a.1)

pub All-Memᴰ {ℓ κ} :
    {A : Type ℓ} (P : A → Type κ) (xs : List A) {x : A} → Memᴰ x xs → All P xs → P x
All-Memᴰ P [] m a = elim m [ ]
All-Memᴰ P (y ∷ ys) (Memᴰ.head e) a = subst P (sym e) a.0
All-Memᴰ P (y ∷ ys) (Memᴰ.tail m) a = All-Memᴰ P ys m a.1

pub oldest_where-Oldest :
    (p : CommandRow → Bool) (cs : List CommandRow) → Oldest p cs (oldest_where p cs)
unfolding oldest_where
oldest_where-Oldest p [] = tt
oldest_where-Oldest p (c ∷ cs) =
    let rest : Oldest p cs (oldest_where p cs) = oldest_where-Oldest p cs in
    elim (Bool-cases (p c)) [
      | inr n ↦ elim (Option-cases (oldest_where p cs)) [
        | inl e ↦ let k : Oldest p cs none = subst (Oldest p cs) e rest in rw (n, e) (n, k)
        | inr (d, e) ↦
            let k : Oldest p cs (some d) = subst (Oldest p cs) e rest in
            rw (n, e) (Memᴰ.tail k.0, k.1, (inl n, k.2))
      ]
      | inl y ↦ elim (Option-cases (oldest_where p cs)) [
        | inl e ↦
            let k : Oldest p cs none = subst (Oldest p cs) e rest in
            rw (y, e) (Memᴰ.head refl, y, (inr (omega arith), All-weaken cs (λ d f. inl f) k))
        | inr (d, e) ↦
            let k : Oldest p cs (some d) = subst (Oldest p cs) e rest in
            elim (Bool-cases (ltb d.id c.id)) [
              | inl l ↦ rw (y, e, l) (Memᴰ.tail k.0, k.1, (inr (ground arith), k.2))
              | inr l ↦
                  let below : c.id ≤ d.id = ground arith in
                  rw (y, e, l)
                    (
                      Memᴰ.head refl,
                      y,
                      (
                        inr (omega arith),
                        All-weaken cs
                            (λ b g. elim g [
                              | inl f ↦ inl f
                              | inr h ↦ inr (omega (arith, below, h))
                            ])
                            k.2,
                      ),
                    )
            ]
      ]
    ]

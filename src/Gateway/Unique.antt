-- ===== src/Gateway/Unique.antt =====
-- The primary key of `agent_commands` (apps/backend/app/core/agent_gateway/models.py), and what an
-- update by the key does.
use yaaos.Prelude.{
  ℕ, Bool, true, false, ◌≡◌, refl, sym, ◌∙◌, Option, some, List, [], ◌∷◌, ◌++◌, arith, update_where,
  first_where, Bool-cases, inl, inr, any, mem, IsNodup, IsNodup-snoc,
}
use mathlib.Core.List.{Memᴰ}
use mathlib.Core.Path.{subst}
use yaaos.Gateway.Rows.{CommandRow, Fleet}
use yaaos.Gateway.Queue.{has_id}
use yaaos.Gateway.Evolution.{Evolves, Evolves-refl, Evolution, Evolution-refl}

abbrev pub ids : List CommandRow → List ℕ
ids [] = []
ids (c ∷ cs) = c.id ∷ ids cs

abbrev pub Unique : Fleet → Type 0
Unique s = IsNodup (ids s.commands)

pub ids-update_where :
    (p : CommandRow → Bool) (f : CommandRow → CommandRow) (cs : List CommandRow)
    → ((c : CommandRow) → (f c).id ≡ c.id)
    → ids (update_where p f cs) ≡ ids cs
ids-update_where p f [] h = refl
ids-update_where p f (c ∷ cs) h = elim (Bool-cases (p c)) [
  | inl e ↦ rw (e, h c, ids-update_where p f cs h) refl
  | inr e ↦ rw (e, ids-update_where p f cs h) refl
]

mem-ids : (i : ℕ) (cs : List CommandRow) → any (has_id i) cs ≡ mem i (ids cs)
mem-ids i [] = refl
mem-ids i (c ∷ cs) = rw (mem-ids i cs) refl

ids-append : (cs : List CommandRow) (c : CommandRow) → ids (cs ++ c ∷ []) ≡ ids cs ++ c.id ∷ []
ids-append [] c = refl
ids-append (b ∷ cs) c = rw (ids-append cs c) refl

pub IsNodup-append :
    (cs : List CommandRow) (c : CommandRow)
    → IsNodup (ids cs)
    → any (has_id c.id) cs ≡ false
    → IsNodup (ids (cs ++ c ∷ []))
IsNodup-append cs c u f = rw ids-append (IsNodup-snoc (ids cs) c.id u (sym (mem-ids c.id cs) ∙ f))

-- No row has the id.
update_where-absent :
    (i : ℕ) (f : CommandRow → CommandRow) (cs : List CommandRow)
    → mem i (ids cs) ≡ false
    → update_where (has_id i) f cs ≡ cs
update_where-absent i f [] h = refl
update_where-absent i f (c ∷ cs) h =
    let a : has_id i c ≡ false = ground (arith, h) in
    let b : mem i (ids cs) ≡ false = ground (arith, h) in rw (a, update_where-absent i f cs b) refl

-- An update by the key changes the one row that it finds.
pub Evolution-update_one :
    (i : ℕ) (f : CommandRow → CommandRow) (cs : List CommandRow) {c : CommandRow}
    → IsNodup (ids cs)
    → first_where (has_id i) cs ≡ some c
    → Evolves c (f c)
    → Evolution cs (update_where (has_id i) f cs)
Evolution-update_one i f [] u e v = cc
Evolution-update_one i f (b ∷ cs) {c} u e v = elim (Bool-cases (has_id i b)) [
  | inl y ↦
      let k : ◌≡◌ {A = Option CommandRow} (some b) (some c) = sym (rw y refl) ∙ e in
      let k' : b ≡ c = cc in
      let i' : b.id ≡ i = ground (arith, y) in
      let a : mem i (ids cs) ≡ false = subst (λ (j : ℕ). mem j (ids cs) ≡ false) i' u.0 in
      rw (y, update_where-absent i f cs a)
        (Evolution.kept (subst (λ (d : CommandRow). Evolves d (f d)) (sym k') v)
          (Evolution-refl cs))
  | inr n ↦
      rw n
        (Evolution.kept (Evolves-refl b) (Evolution-update_one i f cs u.1 (sym (rw n refl) ∙ e) v))
]

mem-Memᴰ : (cs : List CommandRow) {c : CommandRow} → Memᴰ c cs → mem c.id (ids cs) ≡ true
mem-Memᴰ [] m = elim m [ ]
mem-Memᴰ (b ∷ cs) {c} (Memᴰ.head e) = rw e (ground arith)
mem-Memᴰ (b ∷ cs) (Memᴰ.tail m) = ground (arith, mem-Memᴰ cs m)

-- A member is what a lookup by its key finds.
pub first_where-Memᴰ :
    (cs : List CommandRow) {c : CommandRow}
    → IsNodup (ids cs)
    → Memᴰ c cs
    → first_where (has_id c.id) cs ≡ some c
first_where-Memᴰ [] u m = elim m [ ]
first_where-Memᴰ (b ∷ cs) {c} u (Memᴰ.head e) =
    let y : has_id c.id b ≡ true = rw e (ground arith) in rw (y, e) refl
first_where-Memᴰ (b ∷ cs) {c} u (Memᴰ.tail m) =
    let n : has_id c.id b ≡ false = ground (arith, u.0, mem-Memᴰ cs m) in
    rw n (first_where-Memᴰ cs u.1 m)

-- Two updates by the key are one.
pub update_where-twice :
    (i : ℕ) (f g : CommandRow → CommandRow) (cs : List CommandRow)
    → ((c : CommandRow) → (g c).id ≡ c.id)
    → update_where (has_id i) f (update_where (has_id i) g cs)
      ≡ update_where (has_id i) (λ c. f (g c)) cs
update_where-twice i f g [] h = refl
update_where-twice i f g (c ∷ cs) h = elim (Bool-cases (has_id i c)) [
  | inl y ↦
      let y' : has_id i (g c) ≡ true = rw (h c) y in rw (y, y', update_where-twice i f g cs h) refl
  | inr n ↦ rw (n, n, update_where-twice i f g cs h) refl
]

-- What the key finds after an update by it.
pub first_where-update_where :
    (i : ℕ) (f : CommandRow → CommandRow) (cs : List CommandRow) {c : CommandRow}
    → ((c : CommandRow) → (f c).id ≡ c.id)
    → first_where (has_id i) cs ≡ some c
    → first_where (has_id i) (update_where (has_id i) f cs) ≡ some (f c)
first_where-update_where i f [] h e = cc
first_where-update_where i f (b ∷ cs) {c} h e = elim (Bool-cases (has_id i b)) [
  | inl y ↦
      let k : ◌≡◌ {A = Option CommandRow} (some b) (some c) = sym (rw y refl) ∙ e in
      let k' : b ≡ c = cc in let y' : has_id i (f b) ≡ true = rw (h b) y in rw (y, y', k') refl
  | inr n ↦ rw (n, n) (first_where-update_where i f cs h (sym (rw n refl) ∙ e))
]

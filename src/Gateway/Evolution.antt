-- ===== src/Gateway/Evolution.antt =====
-- How the rows of `agent_commands` may change in apps/backend/app/core/agent_gateway/service.py: a
-- relation of tables, and the updates that stay within it.
use yaaos.Prelude.{
  ℕ, ◌+◌, ◌≤◌, Bool, true, false, ◌≡◌, refl, sym, ◌∙◌, Option, some, List, [], ◌∷◌, ◌++◌, arith,
  All, update_where, first_where, Bool-cases, inl, inr, ◌-◌,
}
use Prim.Native.Nat.{◌*◌}
use yaaos.Gateway.Rows.{CommandRow, CommandStatus, pending, claimed, delivered, done}
use yaaos.Gateway.Queue.{has_id}
use yaaos.Gateway.Lease.{max_attempt}

-- How far a delivery has come.
abbrev pub stage : CommandStatus → ℕ
stage pending = 0
stage claimed = 1
stage delivered = 2
stage done = 3

abbrev pub retired : CommandStatus → ℕ
retired done = 1
retired _ = 0

-- Every delivery has four stages, and a new attempt follows all of the one before; no attempt counts
-- beyond the last one allowed.
abbrev pub progress_of : CommandRow → ℕ
progress_of c = 4 * (max_attempt - (max_attempt - c.attempt)) + stage c.status

-- What a row may become: the same command, as far or farther on, `done` if it was done, with no more
-- than the attempts allowed.
pub record Evolves (c d : CommandRow) : Type 0 where
  pub same_id : c.id ≡ d.id
  pub same_run : c.run_id ≡ d.run_id
  pub same_kind : c.command_kind ≡ d.command_kind
  pub stays_done : retired c.status ≤ retired d.status
  pub advances : progress_of c ≤ progress_of d
  pub attempts : d.attempt ≤ c.attempt + (max_attempt - c.attempt)

-- The table keeps its rows, each evolved, and may gain others, with no more than the attempts allowed.
pub data Evolution : List CommandRow → List CommandRow → Type 0 where
  gained : {ds : List CommandRow} → All (λ d. d.attempt ≤ max_attempt) ds → Evolution [] ds
  kept :
      {c d : CommandRow} {cs ds : List CommandRow}
      → Evolves c d
      → Evolution cs ds
      → Evolution (c ∷ cs) (d ∷ ds)

pub Evolves-refl : (c : CommandRow) → Evolves c c
Evolves-refl c = record {
  same_id = refl;
  same_run = refl;
  same_kind = refl;
  stays_done = omega arith;
  advances = omega arith;
  attempts = omega arith;
}

Evolves-trans : {c d e : CommandRow} → Evolves c d → Evolves d e → Evolves c e
Evolves-trans {c} {d} {e} h k = record {
  same_id = h.same_id ∙ k.same_id;
  same_run = h.same_run ∙ k.same_run;
  same_kind = h.same_kind ∙ k.same_kind;
  stays_done = omega (arith, h.stays_done, k.stays_done);
  advances = omega (arith, h.advances, k.advances);
  attempts = omega (arith, h.attempts, k.attempts);
}

pub Evolution-refl : (cs : List CommandRow) → Evolution cs cs
Evolution-refl [] = Evolution.gained tt
Evolution-refl (c ∷ cs) = Evolution.kept (Evolves-refl c) (Evolution-refl cs)

All-Evolution :
    (cs : List CommandRow) {ds : List CommandRow}
    → All (λ (c : CommandRow). c.attempt ≤ max_attempt) cs
    → Evolution cs ds
    → All (λ (d : CommandRow). d.attempt ≤ max_attempt) ds
All-Evolution [] a (Evolution.gained b) = b
All-Evolution (c ∷ cs) a (Evolution.kept h k) =
    (omega (arith, h.attempts, a.0), All-Evolution cs a.1 k)

pub Evolution-trans :
    {cs ds es : List CommandRow} → Evolution cs ds → Evolution ds es → Evolution cs es
Evolution-trans {ds = ds} (Evolution.gained a) k = Evolution.gained (All-Evolution ds a k)
Evolution-trans (Evolution.kept h t) (Evolution.kept k u) =
    Evolution.kept (Evolves-trans h k) (Evolution-trans t u)

pub Evolution-update_where :
    (p : CommandRow → Bool) (f : CommandRow → CommandRow) (cs : List CommandRow)
    → ((c : CommandRow) → p c ≡ true → Evolves c (f c))
    → Evolution cs (update_where p f cs)
Evolution-update_where p f [] h = Evolution.gained tt
Evolution-update_where p f (c ∷ cs) h = elim (Bool-cases (p c)) [
  | inl e ↦ rw e (Evolution.kept (h c e) (Evolution-update_where p f cs h))
  | inr e ↦ rw e (Evolution.kept (Evolves-refl c) (Evolution-update_where p f cs h))
]

pub Evolution-append :
    (cs : List CommandRow) (c : CommandRow) → c.attempt ≤ max_attempt → Evolution cs (cs ++ c ∷ [])
Evolution-append [] c h = Evolution.gained (h, tt)
Evolution-append (b ∷ cs) c h = Evolution.kept (Evolves-refl b) (Evolution-append cs c h)

-- A row of the table is still there, evolved.
pub lookup-Evolution :
    (i : ℕ) (cs : List CommandRow) {ds : List CommandRow} {c : CommandRow}
    → Evolution cs ds
    → first_where (has_id i) cs ≡ some c
    → (d : CommandRow) × (first_where (has_id i) ds ≡ some d) × Evolves c d
lookup-Evolution i [] h e = cc
lookup-Evolution i (b ∷ cs) {c = c} (Evolution.kept {d = d} {ds = ds} h t) e =
    elim (Bool-cases (has_id i b)) [
      | inl y ↦
          let k : ◌≡◌ {A = Option CommandRow} (some b) (some c) = sym (rw y refl) ∙ e in
          let k' : b ≡ c = cc in
          let y' : has_id i d ≡ true = rw (← h.same_id) y in (d, rw y' refl, rw (← k') h)
      | inr n ↦
          let n' : has_id i d ≡ false = rw (← h.same_id) n in
          let (d', g, v) = lookup-Evolution i cs t (sym (rw n refl) ∙ e) in (d', rw n' g, v)
    ]

-- ===== src/Gateway/Envelope.antt =====
-- The payload of an enqueued command: `enqueue_command_payload` of
-- apps/backend/app/core/agent_gateway/service.py.
use yaaos.Prelude.{
  ℕ, String, Bool, true, false, ◌≡◌, refl, sym, ◌∙◌, ap, Option, none, some, List, [], ◌∷◌,
  if◌then◌else◌, str_eq, eq_iff, Bool-cases, Option-cases, inl, inr, get, put, merge,
}
use mathlib.Core.Path.{subst}
use mathlib.Core.Bool.{true≢false}
use yaaos.Gateway.Rows.{null, text, uuid, Platform}
use yaaos.Gateway.Queue.{AgentCommand, envelope, uuid_or_null, kind_str, pending_row}

module _ {A : Type 0} where
  if_again :
      (b : Bool) (x y z : Option A) → (if b then x else z) ≡ (if b then x else if b then y else z)
  if_again true x y z = refl
  if_again false x y z = refl

  if_apart :
      (i j k : String) (x y : Option A)
      → str_eq i j ≡ false
      → str_eq i k ≡ true
      → y ≡ (if str_eq j k then x else y)
  if_apart i j k x y n e = elim (Bool-cases (str_eq j k)) [
    | inl f ↦
        absurd (true≢false (sym ((eq_iff i j).1 ((eq_iff i k).0 e ∙ sym ((eq_iff j k).0 f))) ∙ n))
    | inr f ↦ rw f refl
  ]

  get-put :
      (k j : String) (a : A) (d : List (String × A))
      → get k (put j a d) ≡ (if str_eq j k then some a else get k d)
  get-put k j a [] = refl
  get-put k j a ((i, b) ∷ d) = elim (Bool-cases (str_eq i j)) [
    | inl y ↦ rw y (
        subst
          (λ i.
            (if str_eq j k then some a else get k d)
            ≡ (if str_eq j k then some a else if str_eq i k then some b else get k d))
          (sym ((eq_iff i j).0 y)) (if_again (str_eq j k) (some a) (some b) (get k d)))
    | inr n ↦ rw n (elim (Bool-cases (str_eq i k)) [
      | inl y ↦ rw y (if_apart i j k (some a) (some b) n y)
      | inr m ↦ rw m (get-put k j a d)
    ])
  ]

  -- The last value of a key wins.
  abbrev last_of : Option A → Option A → Option A
  last_of none o = o
  last_of (some a) o = some a

  abbrev get_last : String → List (String × A) → Option A
  get_last k [] = none
  get_last k ((j, a) ∷ e) = last_of (get_last k e) (if str_eq j k then some a else none)

  last_of-if :
      (o : Option A) (b : Bool) (a : A) (u : Option A)
      → last_of o (if b then some a else u) ≡ last_of (last_of o (if b then some a else none)) u
  last_of-if none true a u = refl
  last_of-if none false a u = refl
  last_of-if (some x) b a u = refl

  get-merge :
      (k : String) (d e : List (String × A)) → get k (merge d e) ≡ last_of (get_last k e) (get k d)
  get-merge k d [] = refl
  get-merge k d ((j, a) ∷ e) =
      get-merge k (put j a d) e
      ∙ ap (last_of (get_last k e)) (get-put k j a d)
      ∙ last_of-if (get_last k e) (str_eq j k) a (get k d)

-- Whatever fields a caller gives, the payload of the row that is stored has the kind of the command, the
-- id of the row and its run, and a null in the place of the token.
pub pending_row-envelope :
    (p : Platform) (org : ℕ) (c : AgentCommand) (run : Option ℕ)
    → let row = pending_row p org c run in
      (get "kind" row.payload ≡ some (text (kind_str row.command_kind)))
      × (get "command_id" row.payload ≡ some (uuid row.id))
      × (get "run_id" row.payload ≡ some (uuid_or_null row.run_id))
      × (get "completion_token" row.payload ≡ some null)
unfolding pending_row
pending_row-envelope p org c run =
    let at : (k : String)
        → get k (merge c.fields (envelope p c run))
          ≡ last_of (get_last k (envelope p c run)) (get k c.fields) =
      λ k. get-merge k c.fields (envelope p c run) in
    elim (Option-cases c.workspace_id) [
      | inl e ↦ (
        at "kind" ∙ rw e refl,
        at "command_id" ∙ rw e refl,
        at "run_id" ∙ rw e refl,
        at "completion_token" ∙ rw e refl,
      )
      | inr (w, e) ↦ (
        at "kind" ∙ rw e refl,
        at "command_id" ∙ rw e refl,
        at "run_id" ∙ rw e refl,
        at "completion_token" ∙ rw e refl,
      )
    ]

-- ===== src/Prelude/Tables.antt =====
-- Tables of rows and dictionaries: the statements of SQL and the operations of Python that the
-- components share.
use Prim.Native.Nat.{ℕ}
use Prim.Native.String.{String}
use text.Mathlib.Text.{◌==◌ as str_eq}
use mathlib.Core.Path.{◌≡◌, refl}
use mathlib.Core.Logic.{inl, inr}
use mathlib.Core.Bool.{Bool, true, false, not}
use mathlib.Core.Option.{Option, none, some}
use mathlib.Core.List.{List, [], ◌∷◌, ◌++◌}
use native.Mathlib.Omega.{arith}
use yaaos.Prelude.Tests.{if◌then◌else◌, Bool-cases, ◌==◌}
use yaaos.Prelude.Lists.{All, any, keep}

module _ {ℓ} {A : Type ℓ} where
  -- `UPDATE … SET f WHERE p`
  abbrev pub update_where : (A → Bool) → (A → A) → List A → List A
  update_where p f [] = []
  update_where p f (x ∷ xs) = (if p x then f x else x) ∷ update_where p f xs

  -- `SELECT … WHERE p`, where at most one row fits
  abbrev pub first_where : (A → Bool) → List A → Option A
  first_where p [] = none
  first_where p (x ∷ xs) = if p x then some x else first_where p xs

  -- What an update keeps of every row, it keeps of the table.
  pub All-update_where {κ} :
      {P : A → Type κ} (p : A → Bool) (f : A → A) (xs : List A)
      → ((x : A) → p x ≡ true → P x → P (f x))
      → All P xs
      → All P (update_where p f xs)
  All-update_where p f [] h a = tt
  All-update_where p f (x ∷ xs) h a = elim (Bool-cases (p x)) [
    | inl e ↦ rw e (h x e a.0, All-update_where p f xs h a.1)
    | inr e ↦ rw e (a.0, All-update_where p f xs h a.1)
  ]

-- A column that may be NULL equals an id.
abbrev pub is_id : ℕ → Option ℕ → Bool
is_id a none = false
is_id a (some b) = b == a

module _ {ℓ} {A : Type ℓ} where
  -- The operations of a Python `dict`.
  abbrev pub get : String → List (String × A) → Option A
  get k [] = none
  get k ((j, a) ∷ d) = if str_eq j k then some a else get k d

  abbrev pub put : String → A → List (String × A) → List (String × A)
  put k a [] = (k, a) ∷ []
  put k a ((j, b) ∷ d) = if str_eq j k then (k, a) ∷ d else (j, b) ∷ put k a d

  abbrev pub pop : String → List (String × A) → List (String × A)
  pop k [] = []
  pop k ((j, a) ∷ d) = if str_eq j k then d else (j, a) ∷ pop k d

  -- `{**d, **e}`
  abbrev pub merge : List (String × A) → List (String × A) → List (String × A)
  merge d [] = d
  merge d ((k, a) ∷ e) = merge (put k a d) e

-- A search after a change of the table.
module _ {A : Type 0} (p : A → Bool) where
  -- What was removed is not found.
  pub first_where-keep_self : (xs : List A) → first_where p (keep (λ x. not (p x)) xs) ≡ none
  first_where-keep_self [] = refl
  first_where-keep_self (x ∷ xs) = elim (Bool-cases (p x)) [
    | inl y ↦ rw y (first_where-keep_self xs)
    | inr n ↦ rw (n, n) (first_where-keep_self xs)
  ]

  -- A removal of other rows leaves the search as it was.
  pub first_where-keep :
      (q : A → Bool) (xs : List A)
      → ((x : A) → p x ≡ true → q x ≡ true)
      → first_where p (keep q xs) ≡ first_where p xs
  first_where-keep q [] h = refl
  first_where-keep q (x ∷ xs) h = elim (Bool-cases (p x)) [
    | inl y ↦ rw (h x y, y) refl
    | inr n ↦ elim (Bool-cases (q x)) [
      | inl k ↦ rw (k, n) (first_where-keep q xs h)
      | inr k ↦ rw (k, n) (first_where-keep q xs h)
    ]
  ]

  -- A search that finds nothing before finds a row that is added, if it wants it.
  pub first_where-append :
      (xs : List A) (a : A) → any p xs ≡ false → p a ≡ true → first_where p (xs ++ a ∷ []) ≡ some a
  first_where-append [] a h y = rw y refl
  first_where-append (x ∷ xs) a h y =
      let n : p x ≡ false = ground (arith, h) in
      let k : any p xs ≡ false = ground (arith, h) in rw (n, first_where-append xs a k y) refl

  -- A search that does not want the row that is added stays as it was.
  pub first_where-append_other :
      (xs : List A) (a : A) → p a ≡ false → first_where p (xs ++ a ∷ []) ≡ first_where p xs
  first_where-append_other [] a n = rw n refl
  first_where-append_other (x ∷ xs) a n = rw (first_where-append_other xs a n) refl

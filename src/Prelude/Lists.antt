-- ===== src/Prelude/Lists.antt =====
-- Lists measured, indexed and searched by native numbers, and the pigeonhole principle.
use Prim.Native.Nat.{ℕ, zero, suc, ◌+◌, ◌≤◌}
use mathlib.Core.Path.{◌≡◌, refl}
use mathlib.Core.Bool.{Bool, true, false, ◌||◌}
use mathlib.Core.List.{List, [], ◌∷◌, ◌++◌}
use mathlib.Core.Option.{Option, none, some}
use native.Mathlib.Omega.{arith}
use yaaos.Prelude.Tests.{◌==◌, if◌then◌else◌}

module _ {ℓ} {A : Type ℓ} where
  abbrev pub length : List A → ℕ
  length [] = 0
  length (x ∷ xs) = suc (length xs)

  abbrev pub get_elem? : List A → ℕ → Option A
  get_elem? [] i = none
  get_elem? (x ∷ xs) zero = some x
  get_elem? (x ∷ xs) (suc i) = get_elem? xs i

  abbrev pub take : ℕ → List A → List A
  take zero xs = []
  take (suc n) [] = []
  take (suc n) (x ∷ xs) = x ∷ take n xs

  pub length-append : (xs ys : List A) → length (xs ++ ys) ≡ length xs + length ys
  length-append [] ys = omega arith
  length-append (x ∷ xs) ys = omega (arith, length-append xs ys)

  -- Python's `any`, `all` and the filtering comprehension.
  abbrev pub any : (A → Bool) → List A → Bool
  any p [] = false
  any p (x ∷ xs) = p x || any p xs

  abbrev pub keep : (A → Bool) → List A → List A
  keep p [] = []
  keep p (x ∷ xs) = let rest = keep p xs in if p x then x ∷ rest else rest

abbrev pub All {ℓ κ} : {A : Type ℓ} → (A → Type κ) → List A → Type κ
All P [] = Unit
All P (x ∷ xs) = P x × All P xs

-- `x in xs` at identifiers.
abbrev pub mem : ℕ → List ℕ → Bool
mem a [] = false
mem a (x ∷ xs) = (x == a) || mem a xs

abbrev pub IsNodup : List ℕ → Type 0
IsNodup [] = Unit
IsNodup (x ∷ xs) = (mem x xs ≡ false) × IsNodup xs

pub mem-append : (a : ℕ) (xs ys : List ℕ) → mem a (xs ++ ys) ≡ (mem a xs || mem a ys)
mem-append a [] ys = refl
mem-append a (x ∷ xs) ys = ground (arith, mem-append a xs ys)

pub IsNodup-snoc : (xs : List ℕ) (a : ℕ) → IsNodup xs → mem a xs ≡ false → IsNodup (xs ++ a ∷ [])
IsNodup-snoc [] a h m = (refl, tt)
IsNodup-snoc (x ∷ xs) a h m =
    (ground (arith, mem-append x xs (a ∷ [])), IsNodup-snoc xs a h.1 (ground arith))

-- The list without the first occurrence of an identifier.
abbrev erase : ℕ → List ℕ → List ℕ
erase a [] = []
erase a (x ∷ xs) = let rest = erase a xs in if x == a then xs else x ∷ rest

length-erase : (a : ℕ) (xs : List ℕ) → mem a xs ≡ true → length xs ≡ suc (length (erase a xs))
length-erase a [] h = cc
length-erase a (x ∷ xs) h = ground (arith, length-erase a xs)

mem-erase : (a b : ℕ) (xs : List ℕ) → (a == b) ≡ false → mem b xs ≡ true → mem b (erase a xs) ≡ true
mem-erase a b [] n h = cc
mem-erase a b (x ∷ xs) n h = ground (arith, mem-erase a b xs)

ne_of_mem : (a b : ℕ) (xs : List ℕ) → mem a xs ≡ false → mem b xs ≡ true → (a == b) ≡ false
ne_of_mem a b [] h m = cc
ne_of_mem a b (x ∷ xs) h m = ground (arith, ne_of_mem a b xs)

-- Distinct identifiers that all stand in `ys` are no more than `ys` has places.
pub pigeonhole :
    (xs ys : List ℕ)
    → IsNodup xs
    → ((a : ℕ) → mem a xs ≡ true → mem a ys ≡ true)
    → length xs ≤ length ys
pigeonhole [] ys d s = omega arith
pigeonhole (x ∷ xs) ys d s =
    let here : mem x ys ≡ true = s x (ground arith) in
    let rest : length xs ≤ length (erase x ys) =
      pigeonhole xs (erase x ys) d.1
        (λ a m. mem-erase x a ys (ne_of_mem x a xs d.0 m) (s a (ground arith))) in
    omega (arith, length-erase x ys here)

-- ===== src/Sessions/Purged.antt =====
-- The purge of expired sessions: `cleanup_expired` of apps/backend/app/core/identity/sessions.py.
use yaaos.Prelude.{
  ℕ, ◌+◌, String, Bool, true, false, not, ◌≡◌, refl, none, List, [], ◌∷◌, arith, eq_iff, Bool-cases,
  inl, inr, first_where, keep, any, ltb,
}
use mathlib.Core.Path.{subst}
use yaaos.Sessions.Rows.{Session, Sessions, Secrets, has_token_hash}
use yaaos.Sessions.Access.{live, lookup, cleanup_expired}

-- The primary key: no two rows have one hash.
unfoldable pub UniqueHashes : List Session → Type 0
UniqueHashes [] = Unit
UniqueHashes (r ∷ rs) = (any (has_token_hash r.token_hash) rs ≡ false) × UniqueHashes rs

first_where-keep-absent :
    {A : Type 0} (p q : A → Bool) (xs : List A)
    → any p xs ≡ false
    → first_where p (keep q xs) ≡ none
first_where-keep-absent p q [] h = refl
first_where-keep-absent p q (x ∷ xs) h =
    let n : p x ≡ false = ground (arith, h) in
    let k : any p xs ≡ false = ground (arith, h) in
    elim (Bool-cases (q x)) [
      | inl y ↦ rw (y, n) (first_where-keep-absent p q xs k)
      | inr m ↦ rw m (first_where-keep-absent p q xs k)
    ]

ltb-later : (a b d : ℕ) → ltb a b ≡ true → ltb a (b + d) ≡ true
ltb-later a b d h = ground (arith, h)

abbrev is_kept : ℕ → Session → Bool
is_kept now r = not (ltb r.expires_at now)

purged_search :
    (h : String) (now d : ℕ) (rs : List Session)
    → UniqueHashes rs
    → live (now + d) (first_where (has_token_hash h) (keep (is_kept now) rs))
      ≡ live (now + d) (first_where (has_token_hash h) rs)
unfolding UniqueHashes
purged_search h now d [] u = refl
purged_search h now d (r ∷ rs) (a, u) =
    let rest = purged_search h now d rs u in
    elim (Bool-cases (ltb r.expires_at now)) [
      | inl spent ↦ elim (Bool-cases (has_token_hash h r)) [
        | inl y ↦
            let b : any (has_token_hash h) rs ≡ false =
              subst (λ h. any (has_token_hash h) rs ≡ false) ((eq_iff r.token_hash h).0 y) a in
            rw
              (
                spent,
                y,
                first_where-keep-absent (has_token_hash h) (is_kept now) rs b,
                ltb-later r.expires_at now d spent,
              )
              refl
        | inr n ↦ rw (spent, n) rest
      ]
      | inr fresh ↦ elim (Bool-cases (has_token_hash h r)) [
        | inl y ↦ rw (fresh, y) refl
        | inr n ↦ rw (fresh, n) rest
      ]
    ]

-- A purge is not observed: no token is looked up otherwise, then or at any later time, where the
-- primary key holds.
pub lookup-cleanup_expired :
    (g : Secrets) (raw : String) (d : ℕ) (s : Sessions)
    → UniqueHashes s.rows
    → lookup g raw (record (cleanup_expired s).1 { now = s.now + d })
      ≡ lookup g raw (record s { now = s.now + d })
unfolding lookup cleanup_expired
lookup-cleanup_expired g raw d s u = purged_search (g.sha256 raw) s.now d s.rows u

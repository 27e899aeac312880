-- ===== src/Sessions/Rotated.antt =====
-- What a rotation of a session does to its tokens.
use yaaos.Prelude.{
  String, true, false, not, ◌≡◌, refl, sym, ◌∙◌, Option, none, some, [], ◌∷◌, ◌++◌, ◌+◌, ltb,
  if◌then◌else◌, str_eq, eq_iff, Bool-cases, Option-cases, Result, ◌>>=◌, ok, err, guard-eq-ok,
  ok-injective, >>=-eq-ok, inl, inr, ℕ, first_where, first_where-keep, first_where-keep_self,
  first_where-append, or_else, first_where-append_other, any,
}
use mathlib.Core.Path.{subst}
use mathlib.Core.Bool.{true≢false}
use yaaos.Sessions.Rows.{
  Session, Sessions, Secrets, SessionError, session_not_found, has_token_hash,
}
use yaaos.Sessions.Access.{CreatedSession, new_session, create, live, lookup, revoke, rotate}

-- Another hash is not looked for.
other_hash :
    (i j : String)
    → str_eq j i ≡ false
    → (r : Session) → has_token_hash i r ≡ true
    → not (has_token_hash j r) ≡ true
other_hash i j n r e = elim (Bool-cases (has_token_hash j r)) [
  | inl y ↦ absurd (
      true≢false (
        sym ((eq_iff j i).1 (sym ((eq_iff r.token_hash j).0 y) ∙ (eq_iff r.token_hash i).0 e)) ∙ n))
  | inr m ↦ rw m refl
]

-- A search at a time: the new session where it wants it, or what it found before.
abbrev found_in : Secrets → String → Sessions → ℕ → CreatedSession → Option Session
found_in g h s n c =
    if str_eq (g.sha256 c.raw_token) h
    then live n (some c.session)
    else live n (first_where (has_token_hash h) s.rows)

-- A new session has the principal and the lifetime, and its token finds it.
abbrev Creates :
    Secrets → String → Option ℕ → Option ℕ → ℕ → Sessions → ℕ → CreatedSession × Sessions → Type 0
Creates g h user workspace lifetime s n (c, t) =
    (c.session.user_id ≡ user)
    × (c.session.workspace_id ≡ workspace)
    × (c.session.expires_at ≡ s.now + lifetime)
    × (live n (first_where (has_token_hash h) t.rows) ≡ found_in g h s n c)

create-Creates :
    (g : Secrets) (h : String) (user workspace lifetime : Option ℕ) (ip agent : Option String)
    (s : Sessions) (n : ℕ) {made : CreatedSession × Sessions}
    → create g user workspace ip agent lifetime s ≡ ok made
    → Creates g h user workspace (or_else lifetime g.lifetime_seconds) s n made
unfolding create new_session
create-Creates g h user workspace lifetime ip agent s n e =
    let row = new_session g user workspace ip agent lifetime s in
    let (one, f) = guard-eq-ok _ _ _ e in
    let (free, k) = guard-eq-ok (any (has_token_hash row.token_hash) s.rows) _ _ f in
    let found : live n (first_where (has_token_hash h) (s.rows ++ row ∷ [])) ≡ (
        if str_eq row.token_hash h
        then live n (some row)
        else live n (first_where (has_token_hash h) s.rows)) =
      elim (Bool-cases (str_eq row.token_hash h)) [
        | inl y ↦
            let none_of : any (has_token_hash h) s.rows ≡ false =
              subst (λ h. any (has_token_hash h) s.rows ≡ false) ((eq_iff row.token_hash h).0 y)
                free in
            rw (first_where-append (has_token_hash h) s.rows row none_of y, y) refl
        | inr m ↦ rw (first_where-append_other (has_token_hash h) s.rows row m, m) refl
      ] in
    subst (Creates g h user workspace (or_else lifetime g.lifetime_seconds) s n) (ok-injective k)
      (refl, refl, refl, found)

-- What is found at a time after the rotation of a session into another one.
abbrev Rotates :
    Secrets → String → String → Sessions → ℕ → Session → CreatedSession × Sessions → Type 0
Rotates g old raw s n r (created, t) =
    (created.session.user_id ≡ r.user_id)
    × (created.session.workspace_id ≡ r.workspace_id)
    × (created.session.expires_at ≡ s.now + g.lifetime_seconds)
    × (live n (first_where (has_token_hash (g.sha256 raw)) t.rows) ≡ (
        if str_eq (g.sha256 old) (g.sha256 raw)
        then none
        else found_in g (g.sha256 raw) s n created))

revoke-Rotates :
    (g : Secrets) (old raw : String) (s : Sessions) (n : ℕ) (r : Session)
    (made : CreatedSession × Sessions)
    → Creates g (g.sha256 raw) r.user_id r.workspace_id g.lifetime_seconds s n made
    → Rotates g old raw s n r (made.0, revoke g old made.1)
unfolding revoke
revoke-Rotates g old raw s n r (c, t) (u, w, x, f) =
    elim (Bool-cases (str_eq (g.sha256 old) (g.sha256 raw))) [
      | inl y ↦
          let same : g.sha256 old ≡ g.sha256 raw = (eq_iff (g.sha256 old) (g.sha256 raw)).0 y in
          (u, w, x, rw (y, same, first_where-keep_self (has_token_hash (g.sha256 raw)) t.rows) refl)
      | inr m ↦ (
        u,
        w,
        x,
        rw
            (
              m,
              first_where-keep (has_token_hash (g.sha256 raw))
                  (λ y. not (has_token_hash (g.sha256 old) y)) t.rows
                  (other_hash (g.sha256 raw) (g.sha256 old) m),
            )
            f,
      )
    ]

-- A rotation that succeeds was asked for with the token of a live session. The new session has the
-- principal of that one, and expires a lifetime later. In the table that the rotation leaves, at any
-- time, the old token finds nothing, the new token finds the new session unless it has expired by then,
-- and every other token finds what it finds at that time without the rotation.
pub rotate-lookup :
    (g : Secrets) (old raw : String) (ip agent : Option String) (s : Sessions) (n : ℕ)
    {created : CreatedSession} {t : Sessions}
    → rotate g old ip agent s ≡ ok (created, t)
    → (r : Session) × (lookup g old s ≡ some r)
      × (created.session.user_id ≡ r.user_id)
      × (created.session.workspace_id ≡ r.workspace_id)
      × (created.session.expires_at ≡ s.now + g.lifetime_seconds)
      × (lookup g raw (record t { now = n }) ≡ (
          if str_eq (g.sha256 old) (g.sha256 raw)
          then none
          else if str_eq (g.sha256 created.raw_token) (g.sha256 raw)
          then (if ltb created.session.expires_at n then none else some created.session)
          else lookup g raw (record s { now = n })))
unfolding lookup rotate
rotate-lookup g old raw ip agent s n {created} {t} e = elim (Option-cases (lookup g old s)) [
  | inl m ↦
      let refused : err session_not_found ≡ ok (created, t) = sym (rw (rotate, m) refl) ∙ e in cc
  | inr (r, l) ↦
      let next : CreatedSession × Sessions → Result SessionError (CreatedSession × Sessions) =
        λ made. ok (made.0, revoke g old made.1) in
      let run : (create g r.user_id r.workspace_id ip agent none s >>= next) ≡ ok (created, t) =
        sym (rw (rotate, l) refl) ∙ e in
      let (made, c, d) = >>=-eq-ok (create g r.user_id r.workspace_id ip agent none s) next run in
      let rotated = subst (Rotates g old raw s n r) (ok-injective d) (
        revoke-Rotates g old raw s n r made
          (create-Creates g (g.sha256 raw) r.user_id r.workspace_id none ip agent s n c)) in
      (r, l, rotated.0, rotated.1, rotated.2, rotated.3)
]

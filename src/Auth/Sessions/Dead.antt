-- ===== src/Auth/Sessions/Dead.antt =====
-- The methods of src/authentication/services.py, and the purge, over a table where the tokens of some
-- kind are all revoked.
use totem_backend.Base.{
  ℕ, ◌≡◌, Bool, true, false, Option, none, some, [], ◌∷◌, ◌++◌, ◌==◌, find?, leb, mem, All, arith,
  Option-cases, Bool-cases, inl, inr,
}
use totem_backend.Auth.AccessTokens.{Jwt, PkCodec, Ambient, User, number_or}
use totem_backend.Auth.RefreshTokens.{
  RefreshToken, Tokens, Draw, is_live, stamp, revoke, revoke_session, revoke_for_users,
  purge_expired, issue, issued_row,
}
use totem_backend.Auth.Sessions.{
  Database, find_token, revoke_token, issue_pair, rotate, login, sign_out, touch_login,
}

-- No token of a kind is live.
abbrev pub IsDeadWhere : (RefreshToken → Type 0) → Tokens → Type 0
IsDeadWhere P = All (λ t. P t → is_live t ≡ false)

pub IsDeadWhere-purge_expired :
    (P : RefreshToken → Type 0) (now : ℕ) (ts : Tokens)
    → IsDeadWhere P ts
    → IsDeadWhere P (purge_expired now ts).1
unfolding purge_expired
IsDeadWhere-purge_expired P now [] h = tt
IsDeadWhere-purge_expired P now (t ∷ ts) h =
    let rest = IsDeadWhere-purge_expired P now ts h.1 in
    elim (Bool-cases (leb t.expires_at now)) [
      | inl late ↦ rw (late) rest
      | inr early ↦ rw (early) (h.0, rest)
    ]

IsDeadWhere-snoc :
    (P : RefreshToken → Type 0) (ts : Tokens) (row : RefreshToken)
    → ¬ P row
    → IsDeadWhere P ts
    → IsDeadWhere P (ts ++ row ∷ [])
IsDeadWhere-snoc P [] row other h = (λ e. absurd (other e), tt)
IsDeadWhere-snoc P (t ∷ ts) row other h = (h.0, IsDeadWhere-snoc P ts row other h.1)

-- A kind that a token is of whether or not it is revoked.
module _ (P : RefreshToken → Type 0)
    (kept : (rows : RefreshToken → Bool) (now : ℕ) (t : RefreshToken)
      → P (stamp rows now t)
      → P t) where
  IsDeadWhere-revoke :
      (rows : RefreshToken → Bool) (now : ℕ) (ts : Tokens)
      → IsDeadWhere P ts
      → IsDeadWhere P (revoke rows now ts).1
  unfolding revoke
  IsDeadWhere-revoke rows now [] h = tt
  IsDeadWhere-revoke rows now (t ∷ ts) h =
      (λ e. ground (arith, h.0 (kept rows now t e)), IsDeadWhere-revoke rows now ts h.1)

  module _ (jwt : Jwt) (ids : PkCodec) (hash_secret : ℕ → ℕ) where
    issue_pair-IsDeadWhere :
        (env : Ambient) (user : User) (session_id now : Option ℕ) (draw : Draw) (db : Database)
        → ¬ P (issued_row hash_secret env user.pk session_id (number_or now env.clock) draw)
        → IsDeadWhere P db.tokens
        → IsDeadWhere P (issue_pair jwt ids hash_secret env user session_id now draw db).1.tokens
    unfolding issue_pair issue
    issue_pair-IsDeadWhere env user session_id now draw db other h =
        let row = issued_row hash_secret env user.pk session_id (number_or now env.clock) draw in
        ground (arith, h, IsDeadWhere-snoc P db.tokens row other h)

    pub login-IsDeadWhere :
        (env : Ambient) (authenticated : Option User) (draw : Draw) (db : Database)
        → ((user : User)
            → ¬ P (
                issued_row hash_secret env user.pk none
                  (number_or (some env.clock) env.clock)
                  draw))
        → IsDeadWhere P db.tokens
        → IsDeadWhere P (login jwt ids hash_secret env authenticated draw db).1.tokens
    unfolding login
    login-IsDeadWhere env none draw db other h = h
    login-IsDeadWhere env (some user) draw db other h =
        let db₁ : Database = record db { users = touch_login user.pk env.clock db.users } in
        ground
          (arith, h, issue_pair-IsDeadWhere env user none (some env.clock) draw db₁ (other user) h)

    pub rotate-IsDeadWhere :
        (env : Ambient) (presented now : ℕ) (draw : Draw) (db : Database)
        → ((token : RefreshToken) (user : User)
            → find_token presented db.users db.tokens ≡ some (token, user)
            → is_live token ≡ true
            → ¬ P (issued_row hash_secret env user.pk (some token.session_id) now draw))
        → IsDeadWhere P db.tokens
        → IsDeadWhere P (rotate jwt ids hash_secret env presented now draw db).1.tokens
    unfolding rotate revoke_session revoke_for_users
    rotate-IsDeadWhere env presented now draw db other h =
        elim (Option-cases (find_token presented db.users db.tokens)) [
          | inl missing ↦ rw missing h
          | inr ((token, user), e) ↦ elim (Bool-cases (is_live token)) [
            | inr dead ↦
                rw (e, dead)
                  (IsDeadWhere-revoke (λ t. t.session_id == token.session_id) now db.tokens h)
            | inl live ↦
                let spent = IsDeadWhere-revoke (λ t. t.pk == token.pk) now db.tokens h in
                rw (e, live)
                  (ground (
                    arith,
                    h,
                    spent,
                    IsDeadWhere-revoke (λ t. mem t.user (token.user ∷ [])) now db.tokens h,
                    issue_pair-IsDeadWhere env user (some token.session_id) (some now) draw
                        (record db { tokens = revoke_token token.pk now db.tokens })
                        (other token user e live) spent,
                  ))
          ]
        ]

  pub sign_out-IsDeadWhere :
      (hash_secret : ℕ → ℕ) (now secret : ℕ) (db : Database)
      → IsDeadWhere P db.tokens
      → IsDeadWhere P (sign_out hash_secret now secret db).tokens
  unfolding sign_out revoke_session
  sign_out-IsDeadWhere hash_secret now secret db h =
      elim (Option-cases (find? (λ t. t.secret_hash == hash_secret secret) db.tokens)) [
        | inl missing ↦ rw missing h
        | inr (token, e) ↦
            rw e (IsDeadWhere-revoke (λ t. t.session_id == token.session_id) now db.tokens h)
      ]

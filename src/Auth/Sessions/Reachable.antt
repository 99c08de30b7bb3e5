-- ===== src/Auth/Sessions/Reachable.antt =====
-- Every state of the token table that logins, rotations, sign-outs, purges and changes of the users
-- lead to, in any order.
use totem_backend.Base.{
  ℕ, ◌≢◌, Option, none, some, List, [], ◌∷◌, ◌==◌, find?, All, arith, Option-cases, inl, inr,
}
use totem_backend.Auth.AccessTokens.{Jwt, PkCodec, Ambient, User}
use totem_backend.Auth.RefreshTokens.{Tokens, Draw, revoke_session, purge_expired}
use totem_backend.Auth.RefreshTokens.Table.{IsTable, IsSpent, revoke-IsTable, purge_expired-IsTable}
use totem_backend.Auth.Sessions.{Database, rotate, login, sign_out, touch_login}
use totem_backend.Auth.Sessions.Rotation.{issue_pair-IsTable, rotate-IsTable}

-- A session id that no row carries, which `generate_ulid` gives.
abbrev pub IsFresh : ℕ → Tokens → Type 0
IsFresh session_id = All (λ t. t.session_id ≢ session_id)

IsSpent-IsFresh :
    (session_id user : ℕ) (ts : Tokens) → IsFresh session_id ts → IsSpent session_id user ts
IsSpent-IsFresh session_id user [] h = tt
IsSpent-IsFresh session_id user (t ∷ ts) h =
    (λ e. absurd (h.0 e), IsSpent-IsFresh session_id user ts h.1)

abbrev pub purge : ℕ → Database → Database
purge now db = record db { tokens = (purge_expired now db.tokens).1 }

module _ (jwt : Jwt) (ids : PkCodec) (hash_secret : ℕ → ℕ) where
  -- A login under a fresh session id keeps the table well formed.
  login-IsTable :
      (env : Ambient) (authenticated : Option User) (draw : Draw) (db : Database)
      → IsFresh draw.session_id db.tokens
      → IsTable db.tokens
      → IsTable (login jwt ids hash_secret env authenticated draw db).1.tokens
  unfolding login
  login-IsTable env none draw db fresh h = h
  login-IsTable env (some user) draw db fresh h =
      let db₁ : Database = record db { users = touch_login user.pk env.clock db.users } in
      ground (
        arith,
        h,
        issue_pair-IsTable jwt ids hash_secret env user none (some env.clock) draw db₁ h
            (IsSpent-IsFresh draw.session_id user.pk db.tokens fresh),
      )

  sign_out-IsTable :
      (now secret : ℕ) (db : Database)
      → IsTable db.tokens
      → IsTable (sign_out hash_secret now secret db).tokens
  unfolding sign_out revoke_session
  sign_out-IsTable now secret db h =
      elim (Option-cases (find? (λ t. t.secret_hash == hash_secret secret) db.tokens)) [
        | inl missing ↦ rw missing h
        | inr (token, e) ↦
            rw e (revoke-IsTable (λ t. t.session_id == token.session_id) now db.tokens h)
      ]

  pub data Step (db : Database) : Database → Type 0 where
    logged_in :
        (env : Ambient) (authenticated : Option User) (draw : Draw)
        → IsFresh draw.session_id db.tokens
        → Step db (login jwt ids hash_secret env authenticated draw db).1
    rotated :
        (env : Ambient) (secret_hash now : ℕ) (draw : Draw)
        → Step db (rotate jwt ids hash_secret env secret_hash now draw db).1
    signed_out : (now secret : ℕ) → Step db (sign_out hash_secret now secret db)
    purged : (now : ℕ) → Step db (purge now db)
    users_changed : (users : List User) → Step db (record db { users = users })

  pub data Reach (start : Database) : Database → Type 0 where
    here : Reach start start
    next : {db db' : Database} → Reach start db → Step db db' → Reach start db'

  Step-IsTable : {db db' : Database} → Step db db' → IsTable db.tokens → IsTable db'.tokens
  Step-IsTable {db} (logged_in env authenticated draw fresh) h =
      login-IsTable env authenticated draw db fresh h
  Step-IsTable {db} (rotated env secret_hash now draw) h =
      rotate-IsTable jwt ids hash_secret env secret_hash now draw db h
  Step-IsTable {db} (signed_out now secret) h = sign_out-IsTable now secret db h
  Step-IsTable {db} (purged now) h = purge_expired-IsTable now db.tokens h
  Step-IsTable (users_changed users) h = h

  -- In every state that logins (each under a fresh session id), rotations, sign-outs, purges and
  -- changes of the users lead to from a well-formed table, keys and digests are unique, the tokens
  -- of a session belong to one user, and at most one of them is live.
  pub Reach-IsTable :
      {start db : Database} → IsTable start.tokens → Reach start db → IsTable db.tokens
  Reach-IsTable h here = h
  Reach-IsTable h (next r s) = Step-IsTable s (Reach-IsTable h r)

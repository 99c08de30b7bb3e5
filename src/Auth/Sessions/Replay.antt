-- ===== src/Auth/Sessions/Replay.antt =====
-- A refresh token is exchanged once: a rotation spends it, and presenting it again kills its
-- session, the successor included.
use totem_backend.Base.{
  ℕ, ◌+◌, ◌<◌, ◌≡◌, ◌≢◌, refl, ◌∙◌, Bool, true, false, Option, none, some, List, [], ◌∷◌, ◌==◌, All,
  arith, Option-cases, inl, inr, ap, ◌++◌,
}
use totem_backend.Auth.AccessTokens.{Jwt, PkCodec, Ambient, User}
use totem_backend.Auth.RefreshTokens.{
  RefreshToken, Tokens, Draw, is_live, stamp, revoke, revoke_session, issue, clashes, issued_row,
}
use totem_backend.Auth.Sessions.{
  Database, TokenPair, Failure, issued, refused, replayed, find_token, revoke_token, issue_pair,
  rotate, user_by_pk,
}
use totem_backend.Auth.Sessions.Rotation.{user_by_pk-pk}

-- Every token of the session is revoked.
abbrev pub IsDead : ℕ → Tokens → Type 0
IsDead session_id tokens = All (λ t. t.session_id ≡ session_id → is_live t ≡ false) tokens

abbrev stamped :
    (RefreshToken → Bool) → ℕ → Option (RefreshToken × User) → Option (RefreshToken × User)
stamped rows now none = none
stamped rows now (some (t, u)) = some (stamp rows now t, u)

-- Revoking changes no key, so a lookup finds the same row, as it is now.
find_token-revoke :
    (secret_hash : ℕ) (users : List User) (rows : RefreshToken → Bool) (now : ℕ) (ts : Tokens)
    → find_token secret_hash users (revoke rows now ts).1
      ≡ stamped rows now (find_token secret_hash users ts)
unfolding revoke
find_token-revoke secret_hash users rows now [] = refl
find_token-revoke secret_hash users rows now (t ∷ ts) =
    ground (arith, find_token-revoke secret_hash users rows now ts)

-- A row that is appended hides none that was there.
find_token-snoc :
    (secret_hash : ℕ) (users : List User) (ts : Tokens) (row : RefreshToken) {token : RefreshToken}
    {user : User}
    → find_token secret_hash users ts ≡ some (token, user)
    → find_token secret_hash users (ts ++ row ∷ []) ≡ some (token, user)
find_token-snoc secret_hash users [] row e = cc
find_token-snoc secret_hash users (t ∷ ts) row {token} {user} e =
    ground (arith, find_token-snoc secret_hash users ts row {token = token} {user = user})

-- A row whose digest is new is the one that its digest finds.
pub find_token-new :
    (users : List User) (ts : Tokens) (row : RefreshToken) {user : User}
    → clashes row ts ≡ false
    → user_by_pk row.user users ≡ some user
    → find_token row.secret_hash users (ts ++ row ∷ []) ≡ some (row, user)
find_token-new users [] row c e = ground (arith, e)
find_token-new users (t ∷ ts) row {user} c e =
    ground (arith, find_token-new users ts row {user = user})

pub IsDead-revoke :
    (session_id now : ℕ) (ts : Tokens) → IsDead session_id (revoke_session session_id now ts).1
unfolding revoke_session
IsDead-revoke session_id now [] = tt
IsDead-revoke session_id now (t ∷ ts) = (λ e. ground (arith, e), IsDead-revoke session_id now ts)

-- The user beside a token that was found is found by their own key too.
find_token-by_pk :
    (secret_hash : ℕ) (users : List User) (ts : Tokens) {token : RefreshToken} {user : User}
    → find_token secret_hash users ts ≡ some (token, user)
    → user_by_pk user.pk users ≡ some user
find_token-by_pk secret_hash users [] e = cc
find_token-by_pk secret_hash users (t ∷ ts) {token} {user} e =
    elim (Option-cases (user_by_pk t.user users)) [
      | inl gone ↦
          ground (arith, find_token-by_pk secret_hash users ts {token = token} {user = user})
      | inr (u, there) ↦ ground (
        arith,
        find_token-by_pk secret_hash users ts {token = token} {user = user},
        user_by_pk-pk t.user users there,
      )
    ]

module _ (jwt : Jwt) (ids : PkCodec) (hash_secret : ℕ → ℕ) where
  -- Presenting a token that is revoked is reported as a replay, issues nothing, and revokes its
  -- session.
  pub rotate_revoked :
      (env : Ambient) (secret_hash now : ℕ) (draw : Draw) (db : Database) {token : RefreshToken}
      {user : User}
      → find_token secret_hash db.users db.tokens ≡ some (token, user)
      → is_live token ≡ false
      → rotate jwt ids hash_secret env secret_hash now draw db ≡ (
        refused replayed,
        record db { tokens = (revoke_session token.session_id now db.tokens).1 },
      )
  unfolding rotate
  rotate_revoked env secret_hash now draw db {token} e dead = rw (e, dead) refl

  -- The row that a rotation of `token` adds.
  abbrev successor : Ambient → RefreshToken → User → ℕ → Draw → RefreshToken
  successor env token user now draw =
      issued_row hash_secret env user.pk (some token.session_id) now draw

  -- What is known of a rotation that issued a pair.
  pub record Rotated (env : Ambient) (secret_hash now : ℕ) (draw : Draw) (db : Database)
      (refresh_token : ℕ) (db' : Database) : Type 0 where
    pub token : RefreshToken
    user : User
    was_found : find_token secret_hash db.users db.tokens ≡ some (token, user)
    was_live : is_live token ≡ true
    in_time : now < token.expires_at
    is_active : user.is_active ≡ true
    is_new :
        clashes (successor env token user now draw) (revoke_token token.pk now db.tokens) ≡ false
    secret : refresh_token ≡ draw.secret
    tokens_after :
        db'.tokens ≡ revoke_token token.pk now db.tokens ++ successor env token user now draw ∷ []
    users_after : db'.users ≡ db.users

  pub rotate-Rotated :
      (env : Ambient) (secret_hash now : ℕ) (draw : Draw) (db : Database)
      {pair : TokenPair jwt.Token} {db' : Database}
      → rotate jwt ids hash_secret env secret_hash now draw db ≡ (issued pair, db')
      → Rotated env secret_hash now draw db pair.refresh_token db'
  unfolding rotate issue_pair issue
  rotate-Rotated env secret_hash now draw db {pair} {db'} h =
      elim (Option-cases (find_token secret_hash db.users db.tokens)) [
        | inl missing ↦ absurd (ground (arith, h, missing))
        | inr ((token, user), e) ↦ record {
          token = token;
          user = user;
          was_found = e;
          was_live = ground (arith, h, e);
          in_time = ground (arith, h, e);
          is_active = ground (arith, h, e);
          is_new = ground (arith, h, e);
          secret = ground (arith, h, e);
          tokens_after = ground (arith, h, e);
          users_after = ground (arith, h, e);
        }
      ]

  -- After a rotation the token that was presented is still found, revoked.
  pub spent-Rotated :
      (env : Ambient) (secret_hash now : ℕ) (draw : Draw) (db : Database) (refresh_token : ℕ)
      (db' : Database) (r : Rotated env secret_hash now draw db refresh_token db')
      → find_token secret_hash db'.users db'.tokens
        ≡ some (stamp (λ t. t.pk == r.token.pk) now r.token, r.user)
  spent-Rotated env secret_hash now draw db refresh_token db' r =
      rw (r.users_after, r.tokens_after)
        (find_token-snoc secret_hash db.users (revoke_token r.token.pk now db.tokens)
          (successor env r.token r.user now draw)
          (find_token-revoke secret_hash db.users (λ t. t.pk == r.token.pk) now db.tokens
            ∙ rw r.was_found))

  -- After a rotation the secret that was handed out finds the row of the new token.
  successor-Rotated :
      (env : Ambient) (secret_hash now : ℕ) (draw : Draw) (db : Database) (refresh_token : ℕ)
      (db' : Database) (r : Rotated env secret_hash now draw db refresh_token db')
      → find_token (hash_secret refresh_token) db'.users db'.tokens
        ≡ some (successor env r.token r.user now draw, r.user)
  successor-Rotated env secret_hash now draw db refresh_token db' r =
      rw (r.users_after, r.tokens_after, r.secret)
        (find_token-new db.users (revoke_token r.token.pk now db.tokens)
          (successor env r.token r.user now draw) r.is_new
          (find_token-by_pk secret_hash db.users db.tokens r.was_found))

  session-stamp :
      (rows : RefreshToken → Bool) (now : ℕ) (t : RefreshToken)
      → (stamp rows now t).session_id ≡ t.session_id
  session-stamp rows now t = ground arith

  pub spent_row-not_live :
      (now : ℕ) (t : RefreshToken) → is_live (stamp (λ u. u.pk == t.pk) now t) ≡ false
  spent_row-not_live now t = ground arith

  -- The second presentation of a spent token.
  again-Rotated :
      (env env₂ : Ambient) (secret_hash now now₂ : ℕ) (draw draw₂ : Draw) (db : Database)
      (refresh_token : ℕ) (db' : Database)
      (r : Rotated env secret_hash now draw db refresh_token db')
      → rotate jwt ids hash_secret env₂ secret_hash now₂ draw₂ db' ≡ (
        refused replayed,
        record db' { tokens = (revoke_session r.token.session_id now₂ db'.tokens).1 },
      )
  again-Rotated env env₂ secret_hash now now₂ draw draw₂ db refresh_token db' r =
      rotate_revoked env₂ secret_hash now₂ draw₂ db'
        (spent-Rotated env secret_hash now draw db refresh_token db' r)
        (spent_row-not_live now r.token)
      ∙ rw (session-stamp (λ t. t.pk == r.token.pk) now r.token)

  -- The successor, once its session was revoked.
  next-Rotated :
      (env env₃ : Ambient) (secret_hash now now₂ now₃ : ℕ) (draw draw₃ : Draw) (db : Database)
      (refresh_token : ℕ) (db' : Database)
      (r : Rotated env secret_hash now draw db refresh_token db')
      → (rotate jwt ids hash_secret env₃
          (hash_secret refresh_token)
          now₃
          draw₃
          (record db' { tokens = (revoke_session r.token.session_id now₂ db'.tokens).1 })).0
        ≡ refused replayed
  unfolding revoke_session
  next-Rotated env env₃ secret_hash now now₂ now₃ draw draw₃ db refresh_token db' r = rw (
      rotate_revoked env₃ (hash_secret refresh_token) now₃ draw₃
        (record db' { tokens = (revoke_session r.token.session_id now₂ db'.tokens).1 })
        (find_token-revoke (hash_secret refresh_token) db'.users
            (λ t. t.session_id == r.token.session_id) now₂ db'.tokens
          ∙ ap (stamped (λ t. t.session_id == r.token.session_id) now₂)
              (successor-Rotated env secret_hash now draw db refresh_token db' r))
        (ground arith))

  -- Of three presentations with nothing done in between, at any three times: when a refresh token is
  -- exchanged for a pair, and is then presented again, it is refused as a replay, and the refresh
  -- token of that pair, presented next, is refused as a replay as well.
  pub rotate-rotate :
      (env env₂ env₃ : Ambient) (secret_hash now now₂ now₃ : ℕ) (draw draw₂ draw₃ : Draw)
      (db : Database) {pair : TokenPair jwt.Token} {db' : Database}
      → rotate jwt ids hash_secret env secret_hash now draw db ≡ (issued pair, db')
      → let (again, db₂) = rotate jwt ids hash_secret env₂ secret_hash now₂ draw₂ db' in
        let (next, _) =
          rotate jwt ids hash_secret env₃ (hash_secret pair.refresh_token) now₃ draw₃ db₂ in
        (again ≡ refused replayed) × (next ≡ refused replayed)
  rotate-rotate env env₂ env₃ secret_hash now now₂ now₃ draw draw₂ draw₃ db {pair} {db'} h =
      let r = rotate-Rotated env secret_hash now draw db h in
      rw (again-Rotated env env₂ secret_hash now now₂ draw draw₂ db pair.refresh_token db' r) (
        refl,
        next-Rotated env env₃ secret_hash now now₂ now₃ draw draw₃ db pair.refresh_token db' r,
      )

  -- A rotation that issues a pair hands out a secret that can be exchanged: presented next, with
  -- nothing done in between, before it expires, it is not refused, for any reason.
  pub rotate_successor :
      (env env₂ : Ambient) (secret_hash now now₂ : ℕ) (draw draw₂ : Draw) (db : Database)
      {pair : TokenPair jwt.Token} {db' : Database} (f : Failure)
      → rotate jwt ids hash_secret env secret_hash now draw db ≡ (issued pair, db')
      → now₂ < now + env.refresh_lifetime
      → (rotate jwt ids hash_secret env₂ (hash_secret pair.refresh_token) now₂ draw₂ db').0
        ≢ refused f
  unfolding rotate issue_pair
  rotate_successor env env₂ secret_hash now now₂ draw draw₂ db {pair} {db'} f h early e =
      let r = rotate-Rotated env secret_hash now draw db h in
      let found = successor-Rotated env secret_hash now draw db pair.refresh_token db' r in
      ground (arith, found, e, early, r.is_active)

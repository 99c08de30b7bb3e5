-- ===== src/Auth/Sessions/Spent.antt =====
-- `AuthService.refresh` of src/authentication/services.py on a token that was exchanged before.
use totem_backend.Base.{
  ℕ, ◌≡◌, ◌≢◌, Bool, false, some, List, [], ◌∷◌, ◌==◌, All, arith, Option-cases, Bool-cases, inl,
  inr, ◌⊎◌, ap, subst, sym, refl, eq_of_==, ◌∙◌,
}
use totem_backend.Auth.AccessTokens.{Jwt, PkCodec, Ambient, User}
use totem_backend.Auth.RefreshTokens.{RefreshToken, Tokens, Draw, is_live, stamp}
use totem_backend.Auth.RefreshTokens.Table.{AreApart, IsTable}
use totem_backend.Auth.Sessions.{
  Database, Outcome, TokenPair, issued, refused, replayed, unknown, find_token, rotate, user_by_pk,
}
use totem_backend.Auth.Sessions.Dead.{
  IsDeadWhere, IsDeadWhere-purge_expired, login-IsDeadWhere, rotate-IsDeadWhere,
  sign_out-IsDeadWhere,
}
use totem_backend.Auth.Sessions.Rotation.{find_token-All, find_token-cases, rotate-IsTable}
use totem_backend.Auth.Sessions.Replay.{rotate-Rotated, spent-Rotated, spent_row-not_live}
use totem_backend.Auth.Sessions.Reachable.{
  Step, logged_in, rotated, signed_out, purged, users_changed, Reach, here, next,
}

-- No token with a digest is live.
abbrev pub IsSpentDigest : ℕ → Tokens → Type 0
IsSpentDigest secret_hash = IsDeadWhere (λ t. t.secret_hash ≡ secret_hash)

find_token-digest :
    (secret_hash : ℕ) (users : List User) (ts : Tokens) {token : RefreshToken} {user : User}
    → find_token secret_hash users ts ≡ some (token, user)
    → token.secret_hash ≡ secret_hash
find_token-digest secret_hash users [] e = cc
find_token-digest secret_hash users (t ∷ ts) {token} {user} e =
    let rest = find_token-digest secret_hash users ts {token = token} {user = user} in
    elim (Bool-cases (t.secret_hash == secret_hash)) [
      | inl same ↦ elim (Option-cases (user_by_pk t.user users)) [
        | inl gone ↦ ground (arith, e, same, gone, rest)
        | inr (u, there) ↦
            subst (λ (r : RefreshToken). r.secret_hash ≡ secret_hash) {x = t} {y = token}
              (ground (arith, e, same, there)) (eq_of_== t.secret_hash secret_hash same)
      ]
      | inr other ↦ ground (arith, e, other, rest)
    ]

apart-IsSpentDigest :
    (t : RefreshToken) (ts : Tokens) → All (AreApart t) ts → IsSpentDigest t.secret_hash ts
apart-IsSpentDigest t [] h = tt
apart-IsSpentDigest t (u ∷ ts) h = (λ e. absurd (h.0.digests (sym e)), apart-IsSpentDigest t ts h.1)

-- Digests are unique: when the token that one finds is revoked, none with it is live.
found-IsSpentDigest :
    (secret_hash : ℕ) (users : List User) (ts : Tokens) {token : RefreshToken} {user : User}
    → IsTable ts
    → find_token secret_hash users ts ≡ some (token, user)
    → is_live token ≡ false
    → IsSpentDigest secret_hash ts
found-IsSpentDigest secret_hash users [] h e dead = tt
found-IsSpentDigest secret_hash users (t ∷ ts) {token} {user} h e dead =
    let same : token.secret_hash ≡ secret_hash = find_token-digest secret_hash users (t ∷ ts) e in
    elim (find_token-cases secret_hash users t ts e) [
      | inl head ↦ (
        λ q. subst (λ (r : RefreshToken). is_live r ≡ false) (sym head) dead,
        subst (λ s. IsSpentDigest s ts) (ap (λ (r : RefreshToken). r.secret_hash) head ∙ same)
            (apart-IsSpentDigest t ts h.0),
      )
      | inr behind ↦
          let apart : AreApart t token =
            find_token-All (AreApart t) secret_hash users ts h.0 behind in
          (
            λ q. absurd (apart.digests (q ∙ sym same)),
            found-IsSpentDigest secret_hash users ts h.1 behind dead,
          )
    ]

kept_digest :
    (secret_hash : ℕ) (rows : RefreshToken → Bool) (now : ℕ) (t : RefreshToken)
    → (stamp rows now t).secret_hash ≡ secret_hash
    → t.secret_hash ≡ secret_hash
kept_digest secret_hash rows now t e = ground (arith, e)

module _ (jwt : Jwt) (ids : PkCodec) (hash_secret : ℕ → ℕ) where
  -- What a step draws has another digest.
  abbrev pub Avoids : ℕ → {db db' : Database} → Step jwt ids hash_secret db db' → Type 0
  Avoids secret_hash (logged_in env authenticated draw fresh) =
      hash_secret draw.secret ≢ secret_hash
  Avoids secret_hash (rotated env presented now draw) = hash_secret draw.secret ≢ secret_hash
  Avoids secret_hash (signed_out now secret) = Unit
  Avoids secret_hash (purged now) = Unit
  Avoids secret_hash (users_changed users) = Unit

  abbrev pub NeverDraws : ℕ → {start db : Database} → Reach jwt ids hash_secret start db → Type 0
  NeverDraws secret_hash here = Unit
  NeverDraws secret_hash (next r s) = NeverDraws secret_hash r × Avoids secret_hash s

  Step-IsSpentDigest :
      (secret_hash : ℕ) {db db' : Database} (s : Step jwt ids hash_secret db db')
      → Avoids secret_hash s
      → IsSpentDigest secret_hash db.tokens
      → IsSpentDigest secret_hash db'.tokens
  Step-IsSpentDigest secret_hash {db} (logged_in env authenticated draw fresh) other h =
      login-IsDeadWhere _ (kept_digest secret_hash) jwt ids hash_secret env authenticated draw db
        (λ user. other) h
  Step-IsSpentDigest secret_hash {db} (rotated env presented now draw) other h =
      rotate-IsDeadWhere _ (kept_digest secret_hash) jwt ids hash_secret env presented now draw db
        (λ token user e live. other) h
  Step-IsSpentDigest secret_hash {db} (signed_out now secret) other h =
      sign_out-IsDeadWhere _ (kept_digest secret_hash) hash_secret now secret db h
  Step-IsSpentDigest secret_hash {db} (purged now) other h =
      IsDeadWhere-purge_expired _ now db.tokens h
  Step-IsSpentDigest secret_hash (users_changed users) other h = h

  Reach-IsSpentDigest :
      (secret_hash : ℕ) {start db : Database} (r : Reach jwt ids hash_secret start db)
      → NeverDraws secret_hash r
      → IsSpentDigest secret_hash start.tokens
      → IsSpentDigest secret_hash db.tokens
  Reach-IsSpentDigest secret_hash here n h = h
  Reach-IsSpentDigest secret_hash (next r s) n h =
      Step-IsSpentDigest secret_hash s n.1 (Reach-IsSpentDigest secret_hash r n.0 h)

  -- The token that a rotation was given is spent in the state that it leaves.
  rotate-spends :
      (env : Ambient) (secret_hash now : ℕ) (draw : Draw) (db : Database)
      {pair : TokenPair jwt.Token} {db' : Database}
      → IsTable db.tokens
      → rotate jwt ids hash_secret env secret_hash now draw db ≡ (issued pair, db')
      → IsSpentDigest secret_hash db'.tokens
  rotate-spends env secret_hash now draw db {pair} {db'} table h =
      let r = rotate-Rotated jwt ids hash_secret env secret_hash now draw db h in
      found-IsSpentDigest secret_hash db'.users db'.tokens
        (subst (λ (o : Outcome jwt.Token × Database). IsTable o.1.tokens) h
          (rotate-IsTable jwt ids hash_secret env secret_hash now draw db table))
        (spent-Rotated jwt ids hash_secret env secret_hash now draw db pair.refresh_token db' r)
        (spent_row-not_live jwt ids hash_secret now r.token)

  -- From a well-formed table, once a refresh token is exchanged for a pair: whatever logins (each
  -- under a fresh session id), rotations, sign-outs, purges and changes of the users follow, in which
  -- no secret with its digest is drawn again, to present it issues nothing: it is refused, as a replay
  -- or as unknown.
  pub rotate-Reach :
      (env env₂ : Ambient) (secret_hash now now₂ : ℕ) (draw draw₂ : Draw) (db : Database)
      {pair : TokenPair jwt.Token} {db' later : Database}
      → IsTable db.tokens
      → rotate jwt ids hash_secret env secret_hash now draw db ≡ (issued pair, db')
      → (r : Reach jwt ids hash_secret db' later) → NeverDraws secret_hash r
      → ((rotate jwt ids hash_secret env₂ secret_hash now₂ draw₂ later).0 ≡ refused replayed)
        ⊎ ((rotate jwt ids hash_secret env₂ secret_hash now₂ draw₂ later).0 ≡ refused unknown)
  unfolding rotate
  rotate-Reach env env₂ secret_hash now now₂ draw draw₂ db {later = later} table h r never =
      let spent =
        Reach-IsSpentDigest secret_hash r never
          (rotate-spends env secret_hash now draw db table h) in
      elim (Option-cases (find_token secret_hash later.users later.tokens)) [
        | inl missing ↦ inr (rw missing refl)
        | inr ((token, user), e) ↦
            let dead =
              find_token-All (λ t. t.secret_hash ≡ secret_hash → is_live t ≡ false) secret_hash
                later.users later.tokens spent e
                (find_token-digest secret_hash later.users later.tokens e) in
            inl (rw (e, dead) refl)
      ]

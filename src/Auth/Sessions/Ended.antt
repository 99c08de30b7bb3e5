-- ===== src/Auth/Sessions/Ended.antt =====
-- `AuthService.revoke` of src/authentication/services.py, and what may follow it.
use totem_backend.Base.{ℕ, ◌≡◌, ◌≢◌, Bool, true, false, some, ◌==◌, find?, arith, refl}
use totem_backend.Auth.AccessTokens.{Jwt, PkCodec, Ambient, User}
use totem_backend.Auth.RefreshTokens.{RefreshToken, Draw, is_live, stamp}
use totem_backend.Auth.Sessions.{Database, refused, replayed, find_token, rotate, sign_out}
use totem_backend.Auth.Sessions.Dead.{
  IsDeadWhere-purge_expired, login-IsDeadWhere, rotate-IsDeadWhere, sign_out-IsDeadWhere,
}
use totem_backend.Auth.Sessions.Rotation.{find_token-All}
use totem_backend.Auth.Sessions.Replay.{IsDead, IsDead-revoke, rotate_revoked}
use totem_backend.Auth.Sessions.Reachable.{
  Step, logged_in, rotated, signed_out, purged, users_changed, Reach, here, next,
}

kept_session :
    (session_id : ℕ) (rows : RefreshToken → Bool) (now : ℕ) (t : RefreshToken)
    → (stamp rows now t).session_id ≡ session_id
    → t.session_id ≡ session_id
kept_session session_id rows now t e = ground (arith, e)

module _ (jwt : Jwt) (ids : PkCodec) (hash_secret : ℕ → ℕ) where
  -- A login opens another session.
  abbrev pub OpensOther : ℕ → {db db' : Database} → Step jwt ids hash_secret db db' → Type 0
  OpensOther session_id (logged_in env authenticated draw fresh) = draw.session_id ≢ session_id
  OpensOther session_id (rotated env presented now draw) = Unit
  OpensOther session_id (signed_out now secret) = Unit
  OpensOther session_id (purged now) = Unit
  OpensOther session_id (users_changed users) = Unit

  abbrev pub NeverOpens : ℕ → {start db : Database} → Reach jwt ids hash_secret start db → Type 0
  NeverOpens session_id here = Unit
  NeverOpens session_id (next r s) = NeverOpens session_id r × OpensOther session_id s

  -- A live token is of another session, so its successor is.
  live-other :
      (session_id presented : ℕ) (db : Database) {token : RefreshToken} {user : User}
      → IsDead session_id db.tokens
      → find_token presented db.users db.tokens ≡ some (token, user)
      → is_live token ≡ true
      → token.session_id ≢ session_id
  live-other session_id presented db h e live same =
      let dead =
        find_token-All (λ t. t.session_id ≡ session_id → is_live t ≡ false) presented db.users
          db.tokens h e same in
      ground (arith, dead, live)

  Step-IsDead :
      (session_id : ℕ) {db db' : Database} (s : Step jwt ids hash_secret db db')
      → OpensOther session_id s
      → IsDead session_id db.tokens
      → IsDead session_id db'.tokens
  Step-IsDead session_id {db} (logged_in env authenticated draw fresh) other h =
      login-IsDeadWhere _ (kept_session session_id) jwt ids hash_secret env authenticated draw db
        (λ user. other) h
  Step-IsDead session_id {db} (rotated env presented now draw) other h =
      rotate-IsDeadWhere _ (kept_session session_id) jwt ids hash_secret env presented now draw db
        (λ token user e live. live-other session_id presented db h e live) h
  Step-IsDead session_id {db} (signed_out now secret) other h =
      sign_out-IsDeadWhere _ (kept_session session_id) hash_secret now secret db h
  Step-IsDead session_id {db} (purged now) other h = IsDeadWhere-purge_expired _ now db.tokens h
  Step-IsDead session_id (users_changed users) other h = h

  Reach-IsDead :
      (session_id : ℕ) {start db : Database} (r : Reach jwt ids hash_secret start db)
      → NeverOpens session_id r
      → IsDead session_id start.tokens
      → IsDead session_id db.tokens
  Reach-IsDead session_id here n h = h
  Reach-IsDead session_id (next r s) n h =
      Step-IsDead session_id s n.1 (Reach-IsDead session_id r n.0 h)

  sign_out-ends :
      (now secret : ℕ) (db : Database) {token : RefreshToken}
      → find? (λ t. t.secret_hash == hash_secret secret) db.tokens ≡ some token
      → IsDead token.session_id (sign_out hash_secret now secret db).tokens
  unfolding sign_out
  sign_out-ends now secret db {token} e = rw e (IsDead-revoke token.session_id now db.tokens)

  -- After a sign-out with a secret that the table knows: whatever logins (each under a session id that
  -- is fresh, and is not the one of that session), rotations, sign-outs, purges and changes of the
  -- users follow, a token of that session which a secret finds is refused as a replay, be it the one of
  -- the sign-out or another.
  pub sign_out-Reach :
      (env : Ambient) (now now₂ secret presented : ℕ) (draw : Draw) (db : Database)
      {token other : RefreshToken} {user : User} {later : Database}
      → find? (λ t. t.secret_hash == hash_secret secret) db.tokens ≡ some token
      → (r : Reach jwt ids hash_secret (sign_out hash_secret now secret db) later)
      → NeverOpens token.session_id r
      → find_token presented later.users later.tokens ≡ some (other, user)
      → other.session_id ≡ token.session_id
      → (rotate jwt ids hash_secret env presented now₂ draw later).0 ≡ refused replayed
  sign_out-Reach env now now₂ secret presented draw db {token} {later = later} e r never f same =
      let dead = Reach-IsDead token.session_id r never (sign_out-ends now secret db e) in
      rw
        (rotate_revoked jwt ids hash_secret env presented now₂ draw later f (
          find_token-All (λ t. t.session_id ≡ token.session_id → is_live t ≡ false) presented
            later.users later.tokens dead f same))
        refl

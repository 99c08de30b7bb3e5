-- ===== src/Auth/Sessions.antt =====
-- src/authentication/services.py: `AuthService`, the exchange of credentials for a pair of tokens
-- and the rotation of that pair. `atomic` is in the results: a body that raises leaves the state as
-- it was. The credentials check of django is an argument, as is the digest of a secret.
pub mod Rotation
pub mod Replay
pub mod Reachable
pub mod Purge
pub mod Dead
pub mod Spent
pub mod Ended
pub mod Opened
use totem_backend.Base.{
  ℕ, ◌+◌, ◌-◌, Bool, true, false, ◌&&◌, not, Option, none, some, List, [], ◌∷◌, ◌==◌, leb, find?,
  is_none, map, if◌then◌else◌,
}
use totem_backend.Base.Text.{Text, text_eq}
use totem_backend.Base.Words.{join_words}
use totem_backend.Auth.Scopes.{get_user_scopes}
use totem_backend.Auth.AccessTokens.{Jwt, PkCodec, Ambient, User, number_or, encode_access_token}
use totem_backend.Auth.RefreshTokens.{
  RefreshToken, Tokens, Draw, is_live, revoke, revoke_session, revoke_for_users, issue,
}

pub record Database : Type 0 where
  pub tokens : Tokens
  pub users : List User

-- `TokenPair`, over the type of the access tokens; `token_type` is the constant "Bearer".
pub record TokenPair (T : Type 0) : Type 0 where
  pub access_token : T
  pub refresh_token : ℕ
  pub expires_in : ℕ
  pub scope : Text

-- The reasons of an `InvalidRefreshToken`.
pub data Failure : Type 0 where
  unknown replayed expired inactive : Failure

-- How a method ends: a pair, one of the two exceptions of the service, or an integrity error.
pub data Outcome (T : Type 0) : Type 0 where
  issued : TokenPair T → Outcome T
  invalid_credentials : Outcome T
  refused : Failure → Outcome T
  integrity_error : Outcome T

abbrev pub user_by_pk : ℕ → List User → Option User
user_by_pk pk = find? (λ u. u.pk == pk)

abbrev pair_with : RefreshToken → Option User → Option (RefreshToken × User)
pair_with t none = none
pair_with t (some u) = some (t, u)

abbrev or_else :
    Option (RefreshToken × User) → Option (RefreshToken × User) → Option (RefreshToken × User)
or_else none rest = rest
or_else (some found) rest = some found

-- `.select_related("user").filter(secret_hash=…).first()`: the join drops a row without its user.
abbrev pub find_token : ℕ → List User → Tokens → Option (RefreshToken × User)
find_token secret_hash users [] = none
find_token secret_hash users (t ∷ ts) =
    let rest = find_token secret_hash users ts in
    if t.secret_hash == secret_hash
    then or_else (pair_with t (user_by_pk t.user users)) rest
    else rest

-- `User.objects.filter(pk=pk).update(last_login=now)`
abbrev pub touch_login : ℕ → ℕ → List User → List User
touch_login pk now = map (λ u. if u.pk == pk then record u { last_login = some now } else u)

abbrev pub revoke_token : ℕ → ℕ → Tokens → Tokens
revoke_token pk now tokens = (revoke (λ t. t.pk == pk) now tokens).1

module _ (jwt : Jwt) (ids : PkCodec) (hash_secret : ℕ → ℕ) where
  -- The pair of a new refresh token, and the state that holds the token.
  abbrev deliver :
      Ambient → User → ℕ → Draw → Database → Option (ℕ × Tokens) → Outcome jwt.Token × Database
  deliver env user now draw db none = (integrity_error, db)
  deliver env user now draw db (some (secret, tokens)) =
      let scopes = get_user_scopes user.roles in
      let (access_token, expires_at) =
        encode_access_token jwt ids env user.pk (some scopes) none none (some now) draw.jti in
      (
        issued (record {
          access_token = access_token;
          refresh_token = secret;
          expires_in = expires_at - now;
          scope = join_words scopes;
        }),
        record db { tokens = tokens },
      )

  -- `_issue`
  unfoldable pub issue_pair :
      Ambient → User → Option ℕ → Option ℕ → Draw → Database → Outcome jwt.Token × Database
  issue_pair env user session_id now draw db =
      let issued_at = number_or now env.clock in
      deliver env user issued_at draw db
        (issue hash_secret env user.pk session_id (some issued_at) draw db.tokens)

  -- `transaction.atomic()`: an exception rolls the writes of the block back.
  abbrev pub atomic : Database → Outcome jwt.Token × Database → Outcome jwt.Token × Database
  atomic before (integrity_error, after) = (integrity_error, before)
  atomic before (o, after) = (o, after)

  abbrev rotate_found :
      Ambient → ℕ → Draw → Database → Option (RefreshToken × User) → Outcome jwt.Token × Database
  rotate_found env now draw db none = (refused unknown, db)
  rotate_found env now draw db (some (token, user)) =
      if not (is_none token.revoked_at)
      then (
        refused replayed,
        record db { tokens = (revoke_session token.session_id now db.tokens).1 },
      )
      else if leb token.expires_at now
      then (refused expired, record db { tokens = revoke_token token.pk now db.tokens })
      else if not user.is_active
      then (
        refused inactive,
        record db { tokens = (revoke_for_users (token.user ∷ []) now db.tokens).1 },
      )
      else issue_pair env user (some token.session_id) (some now) draw
          (record db { tokens = revoke_token token.pk now db.tokens })

  -- `_rotate`
  unfoldable pub rotate : Ambient → ℕ → ℕ → Draw → Database → Outcome jwt.Token × Database
  rotate env secret_hash now draw db =
      atomic db (rotate_found env now draw db (find_token secret_hash db.users db.tokens))

  -- `refresh`: a refusal is raised once the transaction of the rotation has committed.
  unfoldable pub refresh : Ambient → ℕ → Draw → Database → Outcome jwt.Token × Database
  refresh env secret draw db = rotate env (hash_secret secret) env.clock draw db

  abbrev login_as : Ambient → Draw → Database → Option User → Outcome jwt.Token × Database
  login_as env draw db none = (invalid_credentials, db)
  login_as env draw db (some user) = atomic db (
      issue_pair env user none (some env.clock) draw
        (record db { users = touch_login user.pk env.clock db.users }))

  -- `login`: `authenticated` is what django's `authenticate` answered.
  unfoldable pub login : Ambient → Option User → Draw → Database → Outcome jwt.Token × Database
  login env authenticated draw db = login_as env draw db authenticated

-- `revoke`: `_revoke` joins no user, and answers nothing.
abbrev end_session : ℕ → Database → Option RefreshToken → Database
end_session now db none = db
end_session now db (some token) = record db {
  tokens = (revoke_session token.session_id now db.tokens).1;
}

unfoldable pub sign_out : (ℕ → ℕ) → ℕ → ℕ → Database → Database
sign_out hash_secret now secret db =
    end_session now db (find? (λ t. t.secret_hash == hash_secret secret) db.tokens)

-- ===== src/Auth/Sessions/Opened.antt =====
-- `AuthService.login` of src/authentication/services.py, and the exchange of what it hands out.
use totem_backend.Base.{
  ℕ, ◌+◌, ◌<◌, ◌≡◌, ◌≢◌, true, false, none, some, List, [], ◌∷◌, ◌++◌, ◌==◌, arith, Bool-cases, inl,
  inr,
}
use totem_backend.Auth.AccessTokens.{Jwt, PkCodec, Ambient, User}
use totem_backend.Auth.RefreshTokens.{Draw, issue, issued_row, clashes}
use totem_backend.Auth.Sessions.{
  Database, TokenPair, Failure, issued, refused, issue_pair, login, rotate, user_by_pk, touch_login,
}
use totem_backend.Auth.Sessions.Replay.{find_token-new}

user_by_pk-touch_login :
    (pk now : ℕ) (users : List User) {user : User}
    → user_by_pk pk users ≡ some user
    → user_by_pk pk (touch_login pk now users) ≡ some (record user { last_login = some now })
user_by_pk-touch_login pk now [] e = cc
user_by_pk-touch_login pk now (u ∷ users) {user} e = elim (Bool-cases (u.pk == pk)) [
  | inl same ↦ ground (arith, e, same)
  | inr other ↦ ground (arith, e, other, user_by_pk-touch_login pk now users {user = user})
]

module _ (jwt : Jwt) (ids : PkCodec) (hash_secret : ℕ → ℕ) where
  -- A login of an account that is there and active, when it issues a pair, hands out a secret that can
  -- be exchanged: presented next, with nothing done in between, before it expires, it is not refused,
  -- for any reason.
  pub login_successor :
      (env env₂ : Ambient) (user : User) (now₂ : ℕ) (draw draw₂ : Draw) (db : Database)
      {pair : TokenPair jwt.Token} {db' : Database} (f : Failure)
      → user_by_pk user.pk db.users ≡ some user
      → user.is_active ≡ true
      → login jwt ids hash_secret env (some user) draw db ≡ (issued pair, db')
      → now₂ < env.clock + env.refresh_lifetime
      → (rotate jwt ids hash_secret env₂ (hash_secret pair.refresh_token) now₂ draw₂ db').0
        ≢ refused f
  unfolding login rotate issue_pair issue
  login_successor env env₂ user now₂ draw draw₂ db {pair} {db'} f there active h early e =
      let row = issued_row hash_secret env user.pk none env.clock draw in
      let new : clashes row db.tokens ≡ false = ground (arith, h) in
      let users = touch_login user.pk env.clock db.users in
      let found =
        find_token-new users db.tokens row new
          (user_by_pk-touch_login user.pk env.clock db.users there) in
      let secret : pair.refresh_token ≡ draw.secret = ground (arith, h) in
      let tokens : db'.tokens ≡ db.tokens ++ row ∷ [] = ground (arith, h) in
      let same : db'.users ≡ users = ground (arith, h) in
      ground (arith, found, e, early, active, secret, tokens, same)

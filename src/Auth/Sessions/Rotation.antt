-- ===== src/Auth/Sessions/Rotation.antt =====
-- What a rotation does on each of its branches, and that it keeps the table well formed.
use totem_backend.Base.{
  ℕ, ◌≡◌, true, false, Option, some, List, [], ◌∷◌, ◌==◌, All, arith, Option-cases, Bool-cases, inl,
  inr, ◌⊎◌, ap, sym, subst, mem,
}
use totem_backend.Auth.AccessTokens.{Jwt, PkCodec, Ambient, User, number_or}
use totem_backend.Auth.RefreshTokens.{
  RefreshToken, Tokens, Draw, is_live, revoke_session, revoke_for_users, issue,
}
use totem_backend.Auth.RefreshTokens.Table.{
  AreApart, IsTable, IsSpent, revoke-IsTable, issue-IsTable, IsSpent-revoke,
}
use totem_backend.Auth.Sessions.{Database, find_token, revoke_token, issue_pair, rotate, user_by_pk}

-- The rows of a session, once its one live row is revoked.
abbrev SpendsAll : RefreshToken → RefreshToken → Type 0
SpendsAll token t =
    t.session_id ≡ token.session_id
    → (t.user ≡ token.user) × ((t.pk == token.pk ≡ true) ⊎ (is_live t ≡ false))

others-SpendsAll :
    (token : RefreshToken) (ts : Tokens)
    → is_live token ≡ true
    → All (AreApart token) ts
    → All (SpendsAll token) ts
others-SpendsAll token [] live h = tt
others-SpendsAll token (t ∷ ts) live h = (
  λ e. (sym (h.0.owner (sym e)), inr (ground (arith, h.0.one_live (sym e)))),
  others-SpendsAll token ts live h.1,
)

-- What a lookup finds in a table whose head is `t`: the head itself, or what it finds behind it.
pub find_token-cases :
    (secret_hash : ℕ) (users : List User) (t : RefreshToken) (ts : Tokens) {token : RefreshToken}
    {user : User}
    → find_token secret_hash users (t ∷ ts) ≡ some (token, user)
    → (t ≡ token) ⊎ (find_token secret_hash users ts ≡ some (token, user))
find_token-cases secret_hash users t ts e = elim (Bool-cases (t.secret_hash == secret_hash)) [
  | inl same ↦ elim (Option-cases (user_by_pk t.user users)) [
    | inl gone ↦ inr (ground (arith, e))
    | inr (u, there) ↦ inl (ground (arith, e))
  ]
  | inr other ↦ inr (ground (arith, e))
]

pub find_token-All {ℓ} :
    (P : RefreshToken → Type ℓ) (secret_hash : ℕ) (users : List User) (ts : Tokens)
    {token : RefreshToken} {user : User}
    → All P ts
    → find_token secret_hash users ts ≡ some (token, user)
    → P token
find_token-All P secret_hash users [] h e = cc
find_token-All P secret_hash users (t ∷ ts) h e = elim (find_token-cases secret_hash users t ts e) [
  | inl same ↦ subst P same h.0
  | inr behind ↦ find_token-All P secret_hash users ts h.1 behind
]

live_row-SpendsAll :
    (secret_hash : ℕ) (users : List User) (ts : Tokens) {token : RefreshToken} {user : User}
    → IsTable ts
    → find_token secret_hash users ts ≡ some (token, user)
    → is_live token ≡ true
    → All (SpendsAll token) ts
live_row-SpendsAll secret_hash users [] h e live = cc
live_row-SpendsAll secret_hash users (t ∷ ts) {token} {user} h e live =
    elim (find_token-cases secret_hash users t ts e) [
      | inl same ↦ (
        λ s. (ap (λ (r : RefreshToken). r.user) same, inl (ground (arith, same))),
        others-SpendsAll token ts live (subst (λ r. All (AreApart r) ts) same h.0),
      )
      | inr behind ↦ (
        (λ s.
            let apart : AreApart t token =
              find_token-All (AreApart t) secret_hash users ts h.0 behind in
            (apart.owner s, inr (ground (arith, apart.one_live s)))),
        live_row-SpendsAll secret_hash users ts h.1 behind live,
      )
    ]

pub user_by_pk-pk :
    (pk : ℕ) (users : List User) {u : User} → user_by_pk pk users ≡ some u → u.pk ≡ pk
user_by_pk-pk pk [] e = cc
user_by_pk-pk pk (u ∷ users) {u = v} e = ground (arith, user_by_pk-pk pk users {u = v})

-- The user beside a token that was found is the token's.
pub find_token-user :
    (secret_hash : ℕ) (users : List User) (ts : Tokens) {token : RefreshToken} {user : User}
    → find_token secret_hash users ts ≡ some (token, user)
    → user.pk ≡ token.user
find_token-user secret_hash users [] e = cc
find_token-user secret_hash users (t ∷ ts) {token} {user} e =
    elim (Option-cases (user_by_pk t.user users)) [
      | inl gone ↦
          ground (arith, find_token-user secret_hash users ts {token = token} {user = user})
      | inr (u, there) ↦ ground (
        arith,
        find_token-user secret_hash users ts {token = token} {user = user},
        user_by_pk-pk t.user users there,
      )
    ]

module _ (jwt : Jwt) (ids : PkCodec) (hash_secret : ℕ → ℕ) where
  pub issue_pair-IsTable :
      (env : Ambient) (user : User) (session_id now : Option ℕ) (draw : Draw) (db : Database)
      → IsTable db.tokens
      → IsSpent (number_or session_id draw.session_id) user.pk db.tokens
      → IsTable (issue_pair jwt ids hash_secret env user session_id now draw db).1.tokens
  unfolding issue_pair
  issue_pair-IsTable env user session_id now draw db h s =
      elim (Option-cases (
        issue hash_secret env user.pk session_id (some (number_or now env.clock)) draw db.tokens)) [
          | inl clash ↦ rw clash h
          | inr (r, done) ↦ rw done (
              issue-IsTable hash_secret env user.pk session_id (some (number_or now env.clock)) draw
                db.tokens h s done)
        ]

  rotate_live-IsTable :
      (env : Ambient) (secret_hash now : ℕ) (draw : Draw) (db : Database) {token : RefreshToken}
      {user : User}
      → IsTable db.tokens
      → find_token secret_hash db.users db.tokens ≡ some (token, user)
      → is_live token ≡ true
      → IsTable
          (issue_pair jwt ids hash_secret env user
            (some token.session_id)
            (some now)
            draw
            (record db { tokens = revoke_token token.pk now db.tokens })).1.tokens
  rotate_live-IsTable env secret_hash now draw db {token} {user} h e live =
      issue_pair-IsTable env user (some token.session_id) (some now) draw
        (record db { tokens = revoke_token token.pk now db.tokens })
        (revoke-IsTable (λ t. t.pk == token.pk) now db.tokens h)
        (rw (find_token-user secret_hash db.users db.tokens e) (
          IsSpent-revoke (λ t. t.pk == token.pk) now token.session_id token.user db.tokens
            (live_row-SpendsAll secret_hash db.users db.tokens h e live)))

  -- A rotation keeps the table well formed, however it ends: in particular at most one token of a
  -- session is live.
  pub rotate-IsTable :
      (env : Ambient) (secret_hash now : ℕ) (draw : Draw) (db : Database)
      → IsTable db.tokens
      → IsTable (rotate jwt ids hash_secret env secret_hash now draw db).1.tokens
  unfolding rotate revoke_session revoke_for_users
  rotate-IsTable env secret_hash now draw db h =
      elim (Option-cases (find_token secret_hash db.users db.tokens)) [
        | inl missing ↦ rw missing h
        | inr ((token, user), e) ↦ rw e (
            ground (
              arith,
              h,
              revoke-IsTable (λ t. t.session_id == token.session_id) now db.tokens h,
              revoke-IsTable (λ t. t.pk == token.pk) now db.tokens h,
              revoke-IsTable (λ t. mem t.user (token.user ∷ [])) now db.tokens h,
              rotate_live-IsTable env secret_hash now draw db h e,
            ))
      ]

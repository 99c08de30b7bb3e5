-- ===== src/Auth/RefreshTokens.antt =====
-- src/authentication/models/refresh_token.py: the table of refresh tokens, as the list of its rows
-- in the order of insertion, and the methods of its queryset. A method takes the queryset that it is
-- called on as a test on rows. Keys and digests are only compared: they are numbers. `created_at`,
-- which nothing reads, is left out.
pub mod Table
use totem_backend.Base.{
  ℕ, suc, ◌+◌, Bool, true, false, ◌&&◌, ◌||◌, not, Option, none, some, List, [], ◌∷◌, ◌++◌, ◌==◌,
  ltb, leb, is_none, any, filter, length, map, mem, if◌then◌else◌,
}
use totem_backend.Auth.AccessTokens.{Ambient, number_or}

pub record RefreshToken : Type 0 where
  pub pk : ℕ
  pub user : ℕ
  pub secret_hash : ℕ
  pub session_id : ℕ
  pub expires_at : ℕ
  pub revoked_at : Option ℕ

abbrev pub Tokens : Type 0
Tokens = List RefreshToken

-- What a unit of work draws from its random sources when it issues a token.
pub record Draw : Type 0 where
  pub pk : ℕ
  pub secret : ℕ
  pub session_id : ℕ
  pub jti : ℕ

-- `revoked_at IS NULL`
abbrev pub is_live : RefreshToken → Bool
is_live t = is_none t.revoked_at

abbrev pub stamp : (RefreshToken → Bool) → ℕ → RefreshToken → RefreshToken
stamp rows now t = if rows t && is_live t then record t { revoked_at = some now } else t

-- `rows.revoke(now)`: how many rows were live, and the table afterwards.
unfoldable pub revoke : (RefreshToken → Bool) → ℕ → Tokens → ℕ × Tokens
revoke rows now tokens =
    (length (filter (λ t. rows t && is_live t) tokens), map (stamp rows now) tokens)

unfoldable pub revoke_session : ℕ → ℕ → Tokens → ℕ × Tokens
unfolding revoke
revoke_session session_id now = revoke (λ t. t.session_id == session_id) now

unfoldable pub revoke_for_users : List ℕ → ℕ → Tokens → ℕ × Tokens
unfolding revoke
revoke_for_users users now = revoke (λ t. mem t.user users) now

-- How many rows went, and the table afterwards.
unfoldable pub purge_expired : ℕ → Tokens → ℕ × Tokens
purge_expired now tokens = (
  length (filter (λ t. leb t.expires_at now) tokens),
  filter (λ t. not (leb t.expires_at now)) tokens,
)

unfoldable pub active : ℕ → Tokens → Tokens
active now = filter (λ t. is_live t && ltb now t.expires_at)

unfoldable pub is_usable : ℕ → RefreshToken → Bool
is_usable now t = is_live t && ltb now t.expires_at

-- A key or a digest that is there already breaks a constraint of the database.
abbrev pub clashes : RefreshToken → Tokens → Bool
clashes t tokens = any (λ u. u.pk == t.pk || u.secret_hash == t.secret_hash) tokens

-- The row that `issue` creates.
abbrev pub issued_row : (ℕ → ℕ) → Ambient → ℕ → Option ℕ → ℕ → Draw → RefreshToken
issued_row hash_secret env user session_id now draw = record {
  pk = draw.pk;
  user = user;
  secret_hash = hash_secret draw.secret;
  session_id = number_or session_id draw.session_id;
  expires_at = now + env.refresh_lifetime;
  revoked_at = none;
}

-- `issue`: the secret and the table with the new row, or `none` for an integrity error.
unfoldable pub issue :
    (ℕ → ℕ) → Ambient → ℕ → Option ℕ → Option ℕ → Draw → Tokens → Option (ℕ × Tokens)
issue hash_secret env user session_id now draw tokens =
    let row = issued_row hash_secret env user session_id (number_or now env.clock) draw in
    if clashes row tokens then none else some (draw.secret, tokens ++ row ∷ [])
